-- ===== src/Parameter/Devices.antt =====
-- Finding a device and an entry after one of them was written back.
use esp_dmx.Prelude.{
  ℕ, zero, suc, ◌+◌, ◌<◌, ◌≡◌, refl, sym, ap, ◌∙◌, inl, inr, Option, none, some, List, [], ◌∷◌,
  arith, ◌==◌, get_elem?, set, Bool-cases,
}
use esp_dmx.Parameter.{
  Param, Device, Store, find_device, device_get, find_param, put_device, put_params, param_count,
  get_entry, entry_in,
}

abbrev pub devices : Store → List Device
devices s = s.root ∷ s.subs

pub devices-put_params :
    (s : Store) (n : ℕ) (ps : List Param)
    → devices (put_params s n ps) ≡ put_device (devices s) n ps
unfolding put_device
devices-put_params s n ps = elim (Bool-cases (s.root.num == n)) [
  | inl e ↦ rw e refl
  | inr e ↦ rw e refl
]

-- What a write of the array keeps.
pub put_params-keeps :
    (s : Store) (n : ℕ) (ps : List Param)
    → let s' = put_params s n ps in
      (s'.heap ≡ s.heap)
      × (s'.count_root ≡ s.count_root)
      × (s'.count_subs ≡ s.count_subs)
      × (s'.count_staged ≡ s.count_staged)
put_params-keeps s n ps = elim (Bool-cases (s.root.num == n)) [
  | inl e ↦ rw e (refl, refl, refl, refl)
  | inr e ↦ rw e (refl, refl, refl, refl)
]

pub find_device-put_device :
    (ds : List Device) (d : Device) (n : ℕ) (ps : List Param)
    → find_device ds n ≡ some d
    → find_device (put_device ds n ps) n ≡ some (record d { params = ps })
unfolding find_device put_device
find_device-put_device [] d n ps e = absurd (ground arith)
find_device-put_device (x ∷ ds) d n ps e = elim (Bool-cases (x.num == n)) [
  | inl here ↦
      let same : ◌≡◌ {A = Option Device} (some x) (some d) = rw here at e in
      rw (here, here)
        (ap
          (λ (y : Option Device). elim y [ none ↦ none | some z ↦ some (record z { params = ps }) ])
          same)
  | inr there ↦
      let later : find_device ds n ≡ some d = rw there at e in
      rw (there, there) (find_device-put_device ds d n ps later)
]

pub get_entry-entry_in :
    (s : Store) (n pid : ℕ)
    → n < 513
    → 0 < pid
    → get_entry s n pid ≡ entry_in (param_count s n) pid (find_device (devices s) n)
unfolding get_entry device_get
get_entry-entry_in s n pid h k = ground arith

pub get_elem?-set :
    {A : Type 0} (xs : List A) (i : ℕ) (x y : A)
    → get_elem? xs i ≡ some x
    → get_elem? (set xs i y) i ≡ some y
get_elem?-set [] i x y e = absurd (ground arith)
get_elem?-set (a ∷ xs) zero x y e = refl
get_elem?-set (a ∷ xs) (suc i) x y e = get_elem?-set xs i x y e

-- A new entry with the old one's PID is found where the old one was.
pub find_param-set :
    (n i j : ℕ) (ps : List Param) (pid : ℕ) (p p' : Param)
    → get_elem? ps j ≡ some p
    → p'.pid ≡ p.pid
    → find_param n i (set ps j p') pid ≡ find_param n i ps pid
unfolding find_param
find_param-set zero i j ps pid p p' e same = refl
find_param-set (suc n) i j [] pid p p' e same = refl
find_param-set (suc n) i zero (q ∷ ps) pid p p' e same =
    let old : p'.pid ≡ q.pid =
      same ∙ ap (λ (o : Option Param). elim o [ none ↦ 0 | some x ↦ x.pid ]) (sym e) in
    rw old refl
find_param-set (suc n) i (suc j) (q ∷ ps) pid p p' e same =
    rw (find_param-set n (i + 1) j ps pid p p' e same) refl
