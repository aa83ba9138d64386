-- ===== src/Setup/Registered.antt =====
-- What the registrations of the personality and of the start address establish.
use esp_dmx.Prelude.{
  ℕ, ◌<◌, ◌≤◌, ◌≡◌, refl, ap, inl, inr, true, Option, none, some, List, [], ◌∷◌, ◌++◌, arith, ◌==◌,
  ◌>>=◌, if◌then◌else◌, length, get_elem?, Bool-cases, take,
}
use esp_dmx.Format.{format_is_valid}
use esp_dmx.Parameter.{Device, Store, non_volatile, new_param}
use esp_dmx.Parameter.Added.{HasRoom, add-HasData}
use esp_dmx.Parameter.RoundTrip.{HasData}
use esp_dmx.Parameter.Callback.{definition_get}
use esp_dmx.Responder.{Definition}
use esp_dmx.Responder.Defined.{IsDefinable, defined_entry, define_added-HasData}
use esp_dmx.Responder.Register.{define_added, definition_is_ok, has_handlers}
use esp_dmx.Setup.Personality.{HasPersonality}
use esp_dmx.Setup.Register.{
  add_local, personality_definition, loaded_personality, register_dmx_personality,
}

personality_definition-IsDefinable : IsDefinable personality_definition
unfolding format_is_valid esp_dmx.Format.check definition_is_ok has_handlers
personality_definition-IsDefinable = record {
  ok = refl;
  get_request = refl;
  get_response = refl;
  set_request = refl;
  set_response = refl;
}

get_elem?-append :
    (xs : List (List ℕ)) (x : List ℕ) → get_elem? (xs ++ (x ∷ [])) (length xs) ≡ some x
get_elem?-append [] x = refl
get_elem?-append (y ∷ xs) x = get_elem?-append xs x

-- The two octets that were saved, if any.
abbrev pub saved_octets : Option (ℕ × ℕ) → Option (List ℕ)
saved_octets none = none
saved_octets (some (x, y)) = some (x ∷ y ∷ [])

abbrev pub first_personality : Option (ℕ × ℕ) → ℕ → ℕ
first_personality none count = 1
first_personality (some (current, old)) count = if old == count then current else 1

loaded :
    (saved : Option (ℕ × ℕ)) (count : ℕ)
    → loaded_personality (saved_octets saved) count
      ≡ some (first_personality saved count ∷ count ∷ [])
loaded none count = refl
loaded (some (current, old)) count = elim (Bool-cases (old == count)) [
  | inl e ↦ rw e (ap (λ c. some (current ∷ c ∷ [])) (ground arith))
  | inr e ↦ rw e refl
]

-- A parameter that is added with a copy of a variable, and defined.
pub add_local-defined :
    {s : Store} {pid : ℕ} (address : ℕ) (def : Definition) (callback context : Option ℕ)
    (octets : List ℕ) (size : ℕ)
    → (room : HasRoom s pid) → 0 < pid
    → IsDefinable def
    → size ≤ length octets
    → let b = length (s.heap ++ (octets ∷ [])) in
      (s' : Store) × (d' : Device) × ((add_local true s 0 pid non_volatile octets size >>= λ x.
      define_added pid address def callback context x)
        ≡ some (true, s'))
      × (definition_get s' 0 pid ≡ some (some address))
      × HasData s' 0 pid room.i b d'
          (defined_entry
            (new_param room.param pid non_volatile size (some b))
            address
            callback
            context)
          (take size octets)
unfolding add_local
add_local-defined {s} {pid} address def callback context octets size room pos ok enough =
    let (s1, e1, has) =
      add-HasData {block = octets} (record s { heap = s.heap ++ (octets ∷ []) }) 0 pid room.i
        non_volatile (length s.heap) size (omega arith) pos room.device_found room.slot_found
        (inr refl) (get_elem?-append s.heap octets) enough in
    let (s2, d2, e2, found, has2) = define_added-HasData address def callback context has ok in
    (s2, d2, rw (e1, e2) refl, found, has2)

-- `rdm_register_dmx_personality` on a root device with room for the parameter returns true, and the
-- device has its definition, the count of personalities given, and as the current one that which
-- was saved with the same count, or else the first one.
pub register_dmx_personality-HasPersonality :
    {s : Store} (saved : Option (ℕ × ℕ)) (count address : ℕ) (callback context : Option ℕ)
    → HasRoom s 0x00e0
    → (s' : Store) × (register_dmx_personality true s
          (saved_octets saved)
          count
          address
          callback
          context
        ≡ some (true, s'))
      × (definition_get s' 0 0x00e0 ≡ some (some address))
      × HasPersonality s' (first_personality saved count) count
unfolding register_dmx_personality
register_dmx_personality-HasPersonality {s} saved count address callback context room =
    let (s', d', e, found, has) =
      add_local-defined address personality_definition callback context
        (first_personality saved count ∷ count ∷ []) 2 room (omega arith)
        personality_definition-IsDefinable (omega arith) in
    (
      s',
      rw (loaded saved count, e) refl,
      found,
      record { i = _; b = _; device = _; param = _; size_is = refl; data_ = has },
    )
