-- ===== src/Setup/Personality.antt =====
-- The current personality of a device, set by a program or by a controller.
use esp_dmx.Prelude.{
  ℕ, ◌≡◌, refl, ap, ◌∙◌, inl, inr, Bool, true, false, Option, none, some, List, [], ◌∷◌, arith,
  if◌then◌else◌, min, set, take, write_at, Bool-cases,
}
use mathlib.Core.Path.{subst}
use esp_dmx.Packet.{Header}
use esp_dmx.Parameter.{Param, Device, Store}
use esp_dmx.Parameter.Access.{stage, parameter_copy}
use esp_dmx.Parameter.RoundTrip.{HasData, copy_HasData, copy-set}
use esp_dmx.Responder.{Responder, Program, ack, nack}
use esp_dmx.Sensors.Handle.{nr_data_out_of_range}
use esp_dmx.Setup.{
  not_set, is_personality, write_current, get_dmx_personality, get_current_personality,
  get_personality_count, set_dmx_personality, set_current_personality,
}
use esp_dmx.Setup.Handle.{set_personality}

-- The root device has the parameter DMX_PERSONALITY with these two values.
pub record HasPersonality (s : Store) (current count : ℕ) : Type 0 where
  pub i : ℕ
  pub b : ℕ
  pub device : Device
  pub param : Param
  pub size_is : param.size ≡ 2
  pub data_ : HasData s 0 0x00e0 i b device param (current ∷ count ∷ [])

copied :
    {s : Store} {current count : ℕ}
    → HasPersonality s current count
    → parameter_copy s 0 0x00e0 2 ≡ some (2, current ∷ count ∷ [])
copied h = copy_HasData h.data_ 2 (omega (arith, h.size_is))

pub get_current-HasPersonality :
    {s : Store} {current count : ℕ}
    → HasPersonality s current count
    → get_current_personality s ≡ some current
unfolding get_current_personality get_dmx_personality
get_current-HasPersonality h = rw (copied h) refl

pub get_count-HasPersonality :
    {s : Store} {current count : ℕ}
    → HasPersonality s current count
    → get_personality_count s ≡ some count
unfolding get_personality_count get_dmx_personality
get_count-HasPersonality h = rw (copied h) refl

with_block :
    {s : Store} {n pid i b : ℕ} {d : Device} {p : Param} {block block' : List ℕ}
    → HasData s n pid i b d p block
    → block ≡ block'
    → HasData s n pid i b d p block'
with_block {s} {n} {pid} {i} {b} {d} {p} has e = subst (HasData s n pid i b d p) e has

-- The two octets written back.
write_current-HasPersonality :
    {s : Store} {current count : ℕ} (num : ℕ)
    → HasPersonality s current count
    → (s' : Store) × (write_current s 0 0x00e0 num (2, current ∷ count ∷ []) ≡ some (2, s'))
      × HasPersonality s' num count
write_current-HasPersonality {s} {current} {count} num h =
    let (s', e, f, has) =
      copy-set h.data_ (num ∷ count ∷ []) 2 2 (omega arith) (omega arith)
        (omega (arith, h.size_is)) in
    let two : min 2 h.param.size ≡ 2 = omega (arith, h.size_is) in
    let entry : Param = record h.param { kind = stage h.param.kind } in
    (
      s',
      e ∙ ap (λ k. some (k, s')) two,
      record {
        i = h.i;
        b = h.b;
        device = record h.device { params = set h.device.params h.i entry };
        param = entry;
        size_is = h.size_is;
        data_ =
            with_block has
              (ap (λ k. write_at 0 (take k (num ∷ count ∷ [])) (current ∷ count ∷ [])) two);
      },
    )

-- The current personality after `num` was given.
abbrev pub chosen : ℕ → ℕ → ℕ → ℕ
chosen num current count = if is_personality num count then num else current

-- Whether `rdm_queue_push` is called.
abbrev pub pushed_for : Bool → Option ℕ
pushed_for true = some 0x00e0
pushed_for false = none

-- `dmx_set_current_personality` returns true just for the numbers from 1 to the count of
-- personalities: the number is then the current personality that `dmx_get_current_personality`
-- returns, and the PID is queued; else the current one stays as it was, and nothing is queued. The
-- count that `dmx_get_personality_count` returns is the same.
pub set_current_personality-get :
    {s : Store} {current count : ℕ} (num : ℕ)
    → HasPersonality s current count
    → (s' : Store) × (set_current_personality s num
        ≡ some (record {
          done = is_personality num count;
          pushed = pushed_for (is_personality num count);
          parameters = s';
        }))
      × HasPersonality s' (chosen num current count) count
      × (get_current_personality s' ≡ some (chosen num current count))
      × (get_personality_count s' ≡ some count)
unfolding set_current_personality set_dmx_personality
set_current_personality-get {s} {current} {count} num h =
    elim (Bool-cases (is_personality num count)) [
      | inl yes_ ↦
          let (s', e, h') = write_current-HasPersonality num h in
          let ok : set_current_personality s num
              ≡ some (record { done = true; pushed = some 0x00e0; parameters = s' }) =
            rw (get_count-HasPersonality h, yes_, copied h, e) refl in
          rw yes_ (s', ok, h', get_current-HasPersonality h', get_count-HasPersonality h')
      | inr no_ ↦
          let ok : set_current_personality s num ≡ some (not_set s) =
            rw (get_count-HasPersonality h, no_) refl in
          rw no_ (s, ok, h, get_current-HasPersonality h, get_count-HasPersonality h)
    ]

-- The handler of SET DMX_PERSONALITY with the number that the request holds: it writes an
-- acknowledgement, with the number stored, just for the numbers from 1 to the count, and else
-- refuses with RDM_NR_DATA_OUT_OF_RANGE and leaves the parameters alone.
pub set_personality_lem :
    {current count : ℕ} (p : Program) (h : Header) (num : ℕ) (r : Responder)
    → HasPersonality r.parameters current count
    → h.sub_device ≡ 0
    → h.pid ≡ 0x00e0
    → (s' : Store) × (set_personality p h num r ≡ (
        if is_personality num count
        then ack p h none none 0 (record r { parameters = s' })
        else nack p h nr_data_out_of_range r))
      × HasPersonality s' (chosen num current count) count
unfolding set_personality
set_personality_lem {current} {count} p h num r has root pid =
    elim (Bool-cases (is_personality num count)) [
      | inl yes_ ↦
          let (s', e, has') = write_current-HasPersonality num has in
          let ok : set_personality p h num r ≡ ack p h none none 0 (record r { parameters = s' }) =
            rw (get_count-HasPersonality has, yes_, root, pid, copied has, e) refl in
          rw yes_ (s', ok, has')
      | inr no_ ↦
          let ok : set_personality p h num r ≡ nack p h nr_data_out_of_range r =
            rw (get_count-HasPersonality has, no_) refl in
          rw no_ (r.parameters, ok, has)
    ]
