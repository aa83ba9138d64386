-- ===== src/Parameter/Staged.antt =====
-- The count of parameters that wait to be committed to non-volatile storage.
use esp_dmx.Prelude.{
  ℕ, zero, suc, ◌+◌, ◌-◌, ◌%◌, ◌^◌, ◌<◌, ◌≤◌, ◌≡◌, refl, ap, ◌∙◌, inl, inr, Option, none, some,
  List, [], ◌∷◌, arith, ltb, ◌==◌, if◌then◌else◌, length, get_elem?, set, Bool-cases, ◌&&◌, min,
}
use esp_dmx.Parameter.{
  Kind, null, dynamic, non_volatile, static, staged, other, kind_is_staged, Param, Device, Store,
  find_device, put_device, put_params,
}
use esp_dmx.Parameter.Access.{parameter_set, newly_staged, stage}
use esp_dmx.Parameter.Devices.{devices, devices-put_params, put_params-keeps}
use esp_dmx.Parameter.RoundTrip.{HasData, set-written, written}

-- 1 for an entry that is used and staged.
abbrev pub waits : Param → ℕ
waits p = if kind_is_staged p.kind && ltb 0 p.pid then 1 else 0

abbrev pub waiting_in : List Param → ℕ
waiting_in [] = 0
waiting_in (p ∷ ps) = waits p + waiting_in ps

abbrev pub waiting : List Device → ℕ
waiting [] = 0
waiting (d ∷ ds) = waiting_in d.params + waiting ds

-- `parameter_count.staged` counts the staged parameters of all devices.
abbrev pub IsCounted : Store → Type 0
IsCounted s = s.count_staged ≡ waiting (devices s)

waiting_in-set :
    (ps : List Param) (i : ℕ) (p p' : Param)
    → get_elem? ps i ≡ some p
    → waiting_in (set ps i p') + waits p ≡ waiting_in ps + waits p'
waiting_in-set [] i p p' e = absurd (ground arith)
waiting_in-set (q ∷ ps) zero p p' e =
    let same : waits q ≡ waits p =
      ap (λ (o : Option Param). elim o [ none ↦ 0 | some x ↦ waits x ]) e in
    omega (arith, same)
waiting_in-set (q ∷ ps) (suc i) p p' e = omega (arith, waiting_in-set ps i p p' e)

waiting-put_device :
    (ds : List Device) (d : Device) (n : ℕ) (ps : List Param)
    → find_device ds n ≡ some d
    → waiting (put_device ds n ps) + waiting_in d.params ≡ waiting ds + waiting_in ps
unfolding find_device put_device
waiting-put_device [] d n ps e = absurd (ground arith)
waiting-put_device (x ∷ ds) d n ps e = elim (Bool-cases (x.num == n)) [
  | inl here ↦
      let found : ◌≡◌ {A = Option Device} (some x) (some d) = rw here at e in
      let same : waiting_in x.params ≡ waiting_in d.params =
        ap (λ (o : Option Device). elim o [ none ↦ 0 | some y ↦ waiting_in y.params ]) found in
      rw here (omega (arith, same))
  | inr there ↦
      let later : find_device ds n ≡ some d = rw there at e in
      rw there (omega (arith, waiting-put_device ds d n ps later))
]

-- Replacing one entry of a device changes the number by the entries' difference.
pub waiting-replaced :
    (s : Store) (n i : ℕ) (d : Device) (p p' : Param)
    → find_device (devices s) n ≡ some d
    → get_elem? d.params i ≡ some p
    → waiting (devices (put_params s n (set d.params i p'))) + waits p
      ≡ waiting (devices s) + waits p'
waiting-replaced s n i d p p' found at = omega (
  arith,
  ap waiting (devices-put_params s n (set d.params i p')),
  waiting-put_device (devices s) d n (set d.params i p') found,
  waiting_in-set d.params i p p' at,
)

waits-stage :
    (p : Param) (k : Kind)
    → p.kind ≡ k
    → 0 < p.pid
    → waits (record p { kind = stage p.kind }) ≡ waits p + newly_staged p.kind
waits-stage p null e h = rw e (ground arith)
waits-stage p dynamic e h = rw e (ground arith)
waits-stage p non_volatile e h = rw e (ground arith)
waits-stage p static e h = rw e (ground arith)
waits-stage p staged e h = rw e (ground arith)
waits-stage p (other k) e h = rw e (ground arith)

newly_staged_le : (k : Kind) → newly_staged k ≤ 1
newly_staged_le null = omega arith
newly_staged_le dynamic = omega arith
newly_staged_le non_volatile = omega arith
newly_staged_le static = omega arith
newly_staged_le staged = omega arith
newly_staged_le (other k) = omega arith

count_up :
    (c w w' x x' n : ℕ)
    → c < 2 ^ 32 - 1
    → c ≡ w
    → w' + x ≡ w + x'
    → x' ≡ x + n
    → n ≤ 1
    → (c + n) % 2 ^ 32 ≡ w'
count_up c w w' x x' n few e f g h = omega arith

-- `dmx_parameter_set` of at least one octet to a parameter with data keeps the count of staged
-- parameters right, if there are fewer than 2 ^ 32 - 1 of them.
pub set-IsCounted :
    {s : Store} {n pid i b : ℕ} {d : Device} {p : Param} {block : List ℕ}
    → HasData s n pid i b d p block
    → (source : List ℕ) (size : ℕ) → 0 < size
    → size ≤ length source
    → s.count_staged < 2 ^ 32 - 1
    → IsCounted s
    → (s' : Store) × (parameter_set s n pid (some source) size ≡ some (min size p.size, s'))
      × IsCounted s'
set-IsCounted {s} {n} {pid} {i} {b} {d} {p} {block} has source size pos given few counted =
    (written s n i b d p block source size, set-written has source size pos given, kept)
  where
    kept : IsCounted (written s n i b d p block source size)
    kept =
        (put_params-keeps _ n (set d.params i (record p { kind = stage p.kind }))).3
        ∙ count_up _ _ _ _ _ _ few counted
            (waiting-replaced _ n i d p (record p { kind = stage p.kind }) has.device_found
              has.param_at)
            (waits-stage p p.kind refl (omega (arith, has.pid_is, has.pid_pos)))
            (newly_staged_le p.kind)
