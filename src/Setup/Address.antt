-- ===== src/Setup/Address.antt =====
-- The start address of a device, set by a program and by a controller.
use esp_dmx.Prelude.{
  ℕ, ◌+◌, ◌*◌, ◌/◌, ◌%◌, ◌<◌, ◌≡◌, refl, ap, ◌∙◌, inl, inr, Bool, true, false, not, ◌&&◌, Option,
  none, some, List, [], ◌∷◌, arith, ◌==◌, if◌then◌else◌, min, set, take, write_at, Bool-cases,
}
use mathlib.Core.Path.{subst}
use esp_dmx.Parameter.{Param, Device, Store}
use esp_dmx.Parameter.Access.{stage, parameter_set}
use esp_dmx.Parameter.RoundTrip.{HasData, copy_HasData, copy-set}
use esp_dmx.Setup.{
  not_set, is_address, get_dmx_start_address, get_start_address, set_dmx_start_address,
  set_start_address,
}

-- The root device has the parameter DMX_START_ADDRESS, with these two octets.
pub record HasAddress (s : Store) (low high : ℕ) : Type 0 where
  pub i : ℕ
  pub b : ℕ
  pub device : Device
  pub param : Param
  pub size_is : param.size ≡ 2
  pub data_ : HasData s 0 0x00f0 i b device param (low ∷ high ∷ [])

pub get_address-HasAddress :
    {s : Store} {low high : ℕ}
    → HasAddress s low high
    → get_start_address s ≡ some (high * 256 + low)
unfolding get_start_address get_dmx_start_address
get_address-HasAddress h = rw (copy_HasData h.data_ 2 (omega (arith, h.size_is))) refl

-- Setting the parameter to the first two octets of a source.
pub set-HasAddress :
    {s : Store} {low high : ℕ} (x y : ℕ) (rest : List ℕ)
    → HasAddress s low high
    → (s' : Store) × (parameter_set s 0 0x00f0 (some (x ∷ y ∷ rest)) 2 ≡ some (2, s'))
      × HasAddress s' x y
set-HasAddress {s} {low} {high} x y rest h =
    let (s', e, f, has) =
      copy-set h.data_ (x ∷ y ∷ rest) 2 2 (omega arith) (omega arith) (omega (arith, h.size_is)) in
    let two : min 2 h.param.size ≡ 2 = omega (arith, h.size_is) in
    let entry : Param = record h.param { kind = stage h.param.kind } in
    let d : Device = record h.device { params = set h.device.params h.i entry } in
    (
      s',
      e ∙ ap (λ k. some (k, s')) two,
      record {
        i = h.i;
        b = h.b;
        device = d;
        param = entry;
        size_is = h.size_is;
        data_ =
            subst (HasData s' 0 0x00f0 h.i h.b d entry)
              (ap (λ k. write_at 0 (take k (x ∷ y ∷ rest)) (low ∷ high ∷ [])) two) has;
      },
    )

pub word_of : (a : ℕ) → a < 65536 → a / 256 % 256 * 256 + a % 256 ≡ a
word_of a h = omega arith

-- Whether `dmx_set_start_address` sets the address `a` of a device with the address `old`.
abbrev pub accepted : ℕ → ℕ → Bool
accepted a old = is_address a && not (old == 0xffff)

abbrev pub pushed_address : Bool → Option ℕ
pushed_address true = some 0x00f0
pushed_address false = none

out_of_range : (s : Store) (a : ℕ) → is_address a ≡ false → set_start_address s a ≡ some (not_set s)
unfolding set_start_address
out_of_range s a bad = rw bad refl

without_address :
    {s : Store} {low high : ℕ} (a : ℕ)
    → HasAddress s low high
    → is_address a ≡ true
    → (high * 256 + low == 0xffff) ≡ true
    → set_start_address s a ≡ some (not_set s)
unfolding set_start_address
without_address a h good nowhere = rw (good, get_address-HasAddress h, nowhere) refl

with_address :
    {s : Store} {low high : ℕ} (a : ℕ)
    → HasAddress s low high
    → is_address a ≡ true
    → (high * 256 + low == 0xffff) ≡ false
    → (s' : Store) × (set_start_address s a
        ≡ some (record { done = true; pushed = some 0x00f0; parameters = s' }))
      × (get_start_address s' ≡ some a)
unfolding set_start_address set_dmx_start_address
with_address {s} a h good somewhere =
    let (s', e, h') = set-HasAddress (a % 256) (a / 256 % 256) [] h in
    let small : a < 65536 = ground arith in
    (
      s',
      rw (good, get_address-HasAddress h, somewhere, e) refl,
      get_address-HasAddress h' ∙ ap some (word_of a small),
    )

-- `dmx_set_start_address` returns true just for the addresses from 1 to 512, on a device whose
-- address is not DMX_START_ADDRESS_NONE: `dmx_get_start_address` then returns the address that was
-- set, and the PID is queued; else it returns the old one, and nothing is queued.
pub set_start_address-get :
    {s : Store} {low high : ℕ} (a : ℕ)
    → HasAddress s low high
    → let ok = accepted a (high * 256 + low) in
      (s' : Store) × (set_start_address s a
        ≡ some (record { done = ok; pushed = pushed_address ok; parameters = s' }))
      × (get_start_address s' ≡ some (if ok then a else high * 256 + low))
set_start_address-get {s} {low} {high} a h = elim (Bool-cases (is_address a)) [
  | inr bad ↦ rw bad (s, out_of_range s a bad, get_address-HasAddress h)
  | inl good ↦ elim (Bool-cases (high * 256 + low == 0xffff)) [
    | inl nowhere ↦
        rw (good, nowhere) (s, without_address a h good nowhere, get_address-HasAddress h)
    | inr somewhere ↦ rw (good, somewhere) (with_address a h good somewhere)
  ]
]
