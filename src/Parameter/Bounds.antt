-- ===== src/Parameter/Bounds.antt =====
-- The index that `dmx_parameter_at` takes.
use esp_dmx.Prelude.{
  Option, ℕ, ◌<◌, ◌≡◌, refl, ap, ◌∙◌, true, false, none, some, List, [], ◌∷◌, arith, ltb, length,
  get_elem?, if◌then◌else◌, ◌==◌, ◌>>=◌, ne→==, Bool-cases, inl, inr,
}
use esp_dmx.Parameter.{Param, Device, Store, find_device, param_count}
use esp_dmx.Parameter.Access.{parameter_at}
use esp_dmx.Parameter.Devices.{devices}

get_elem?-at_end : (ps : List Param) → get_elem? ps (length ps) ≡ none
get_elem?-at_end [] = refl
get_elem?-at_end (p ∷ ps) = get_elem?-at_end ps

abbrev pub pid_at : List Param → ℕ → Option ℕ
pid_at ps i = get_elem? ps i >>= λ p. some p.pid

-- On a device whose array has as many entries as the counts say, `dmx_parameter_at` returns the PID
-- of each entry and 0 for an index above the count, but reads behind the array for the index that
-- equals the count.
pub parameter_at-bounds :
    (s : Store) (n index : ℕ) (d : Device)
    → n < 513
    → find_device (devices s) n ≡ some d
    → length d.params ≡ param_count s n
    → parameter_at s n index ≡ (
        if ltb index (param_count s n)
        then pid_at d.params index
        else if index == param_count s n
        then none
        else some 0)
unfolding parameter_at
parameter_at-bounds s n index d h found len = elim (Bool-cases (ltb (param_count s n) index)) [
  | inl above ↦
      let not_below : ltb index (param_count s n) ≡ false = ground arith in
      rw (checked, above, not_below, ne→== index (param_count s n) (ground arith)) refl
  | inr within ↦ elim (Bool-cases (ltb index (param_count s n))) [
    | inl below ↦ rw (checked, within, below, found) refl
    | inr not_below ↦
        let same : index ≡ length d.params = ground arith in
        let at : (index == param_count s n) ≡ true = ground arith in
        let beyond : get_elem? d.params index ≡ none =
          ap (get_elem? d.params) same ∙ get_elem?-at_end d.params in
        rw (checked, within, not_below, at, found, beyond) refl
  ]
]
  where
    checked : ltb n 513 ≡ true
    checked = ground arith
