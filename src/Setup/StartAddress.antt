-- ===== src/Setup/StartAddress.antt =====
-- What the registration of the start address establishes.
use esp_dmx.Prelude.{
  ℕ, ◌+◌, ◌*◌, ◌/◌, ◌%◌, ◌<◌, ◌≤◌, ◌≡◌, refl, ap, ◌∙◌, inl, inr, true, Option, none, some, arith,
  ltb, if◌then◌else◌, Bool-cases, ◌⊎◌,
}
use esp_dmx.Format.{format_is_valid}
use esp_dmx.Parameter.{Store, get_entry}
use esp_dmx.Parameter.Added.{HasRoom}
use esp_dmx.Parameter.Callback.{definition_get}
use esp_dmx.Sensors.{le16}
use esp_dmx.Responder.Defined.{IsDefinable}
use esp_dmx.Responder.Register.{definition_is_ok, has_handlers}
use esp_dmx.Parameter.Access.{parameter_copy}
use esp_dmx.Setup.{get_start_address, get_dmx_personality, get_current_personality, get_footprint}
use esp_dmx.Setup.Personality.{HasPersonality, get_current-HasPersonality}
use esp_dmx.Setup.Address.{HasAddress, get_address-HasAddress, word_of}
use esp_dmx.Setup.Register.{
  start_address_definition, loaded_address, fitting_address, register_dmx_start_address,
}
use esp_dmx.Setup.Registered.{saved_octets, add_local-defined}

start_address_definition-IsDefinable : IsDefinable start_address_definition
unfolding format_is_valid esp_dmx.Format.check definition_is_ok has_handlers
start_address_definition-IsDefinable = record {
  ok = refl;
  get_request = refl;
  get_response = refl;
  set_request = refl;
  set_response = refl;
}

-- The start address that was saved, if any.
abbrev pub first_address : Option (ℕ × ℕ) → ℕ
first_address none = 1
first_address (some (low, high)) = high * 256 + low

loaded_first :
    (saved : Option (ℕ × ℕ)) → loaded_address (saved_octets saved) ≡ some (first_address saved)
loaded_first none = refl
loaded_first (some (low, high)) = refl

-- The octets that were saved are octets.
abbrev pub AreOctets : Option (ℕ × ℕ) → Type 0
AreOctets none = Unit {0}
AreOctets (some (low, high)) = (low < 256) × (high < 256)

first_address-lt : (saved : Option (ℕ × ℕ)) → AreOctets saved → first_address saved < 65536
first_address-lt none f = omega arith
first_address-lt (some (low, high)) (f, g) = omega arith

-- The first address from which as many slots as the footprint fit into a packet.
abbrev pub fitted : ℕ → ℕ → ℕ
fitted a footprint = if ltb 513 (a + footprint) then 1 else a

fitted-lt : (a footprint : ℕ) → a < 65536 → fitted a footprint < 65536
fitted-lt a footprint h = ground arith

-- `rdm_register_dmx_start_address` on a root device with room for the parameter and with a current
-- personality of the footprint `footprint` returns true, and the device has its definition and, as
-- `dmx_get_start_address` returns it, the address that was saved, or 1 if none was saved or if the
-- slots of the footprint do not fit behind it.
pub register_dmx_start_address-fits :
    {s : Store} {current count : ℕ} (saved : Option (ℕ × ℕ)) (footprint address : ℕ)
    (callback context : Option ℕ)
    → HasRoom s 0x00f0
    → HasPersonality s current count
    → 0 < current
    → get_footprint s current ≡ some footprint
    → AreOctets saved
    → let a = fitted (first_address saved) footprint in
      (s' : Store) × (register_dmx_start_address true s
          (saved_octets saved)
          address
          callback
          context
        ≡ some (true, s'))
      × (definition_get s' 0 0x00f0 ≡ some (some address))
      × (get_start_address s' ≡ some a)
      × ((a ≡ 1) ⊎ (a + footprint ≤ 513))
unfolding register_dmx_start_address fitting_address
register_dmx_start_address-fits {s} {current} saved footprint address callback context room has pos
      at octets =
    let a = fitted (first_address saved) footprint in
    let (s', d', e, found, has') =
      add_local-defined address start_address_definition callback context (le16 a) 2 room
        (omega arith) start_address_definition-IsDefinable (omega arith) in
    let there : HasAddress s' (a % 256) (a / 256 % 256) = record {
      i = _;
      b = _;
      device = _;
      param = _;
      size_is = refl;
      data_ = has';
    } in
    (
      s',
      rw (loaded_first saved, get_current-HasPersonality has, is_some_, at, e) refl,
      found,
      get_address-HasAddress there
          ∙ ap some (
              word_of a
                (fitted-lt (first_address saved) footprint (first_address-lt saved octets))),
      fits (first_address saved),
    )
  where
    is_some_ : ltb 0 current ≡ true
    is_some_ = ground arith

    fits : (a : ℕ) → (fitted a footprint ≡ 1) ⊎ (fitted a footprint + footprint ≤ 513)
    fits a = elim (Bool-cases (ltb 513 (a + footprint))) [
      | inl e ↦ inl (rw e refl)
      | inr e ↦ inr (rw e (ground arith))
    ]

-- `rdm_register_dmx_start_address` on a root device that does not have DMX_PERSONALITY yet, as
-- `dmx_driver_install` calls it, returns true, and `dmx_get_start_address` then returns the address
-- that was saved, or 1 if none was saved: no footprint is looked at.
pub register_dmx_start_address-first :
    {s : Store} (saved : Option (ℕ × ℕ)) (address : ℕ) (callback context : Option ℕ)
    → HasRoom s 0x00f0
    → get_entry s 0 0x00e0 ≡ some none
    → AreOctets saved
    → (s' : Store) × (register_dmx_start_address true s
          (saved_octets saved)
          address
          callback
          context
        ≡ some (true, s'))
      × (get_start_address s' ≡ some (first_address saved))
unfolding register_dmx_start_address fitting_address get_current_personality get_dmx_personality
    parameter_copy
register_dmx_start_address-first {s} saved address callback context room missing octets =
    let a = first_address saved in
    let (s', d', e, found, has') =
      add_local-defined address start_address_definition callback context (le16 a) 2 room
        (omega arith) start_address_definition-IsDefinable (omega arith) in
    let there : HasAddress s' (a % 256) (a / 256 % 256) = record {
      i = _;
      b = _;
      device = _;
      param = _;
      size_is = refl;
      data_ = has';
    } in
    (
      s',
      rw (loaded_first saved, missing, e) refl,
      get_address-HasAddress there ∙ ap some (word_of a (first_address-lt saved octets)),
    )
