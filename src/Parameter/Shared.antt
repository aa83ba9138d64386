-- ===== src/Parameter/Shared.antt =====
-- Two parameters of a device that share their data, as DISC_MUTE and DISC_UN_MUTE do.
use esp_dmx.Prelude.{
  ℕ, zero, suc, ◌+◌, ◌%◌, ◌^◌, ◌<◌, ◌≤◌, ◌≡◌, ◌≢◌, refl, sym, ap, ap₂, ◌∙◌, Option, some, none,
  List, [], ◌∷◌, arith, ◌==◌, if◌then◌else◌, length, length-write_at, get_elem?, set, take,
  write_at, min,
}
use esp_dmx.Parameter.{Param, Device, Store, find_device, find_param, param_count}
use esp_dmx.Parameter.Access.{parameter_set, parameter_copy, stage, newly_staged}
use esp_dmx.Parameter.Devices.{
  devices, devices-put_params, put_params-keeps, find_device-put_device, get_elem?-set,
  find_param-set,
}
use esp_dmx.Parameter.RoundTrip.{HasData, written, set-written, copy_HasData, prefix}

get_elem?-set_ne :
    {A : Type 0} (xs : List A) (i j : ℕ) (y : A) → i ≢ j → get_elem? (set xs i y) j ≡ get_elem? xs j
get_elem?-set_ne [] i j y h = refl
get_elem?-set_ne (x ∷ xs) zero zero y h = absurd (h refl)
get_elem?-set_ne (x ∷ xs) zero (suc j) y h = refl
get_elem?-set_ne (x ∷ xs) (suc i) zero y h = refl
get_elem?-set_ne (x ∷ xs) (suc i) (suc j) y h = get_elem?-set_ne xs i j y (λ e. h (ap suc e))

abbrev pid_or_zero : Option Param → ℕ
pid_or_zero none = 0
pid_or_zero (some p) = p.pid

module _ {s : Store} {n pid pid' i i' b : ℕ} {d : Device} {p p' : Param} {block : List ℕ}
    (has : HasData s n pid i b d p block) (has' : HasData s n pid' i' b d p' block)
    (other : pid ≢ pid') where
  entries_differ : i ≢ i'
  entries_differ e = other (
      sym has.pid_is
      ∙ ap pid_or_zero (sym has.param_at ∙ ap (get_elem? d.params) e ∙ has'.param_at)
      ∙ has'.pid_is)

  pub shared-HasData :
      (source : List ℕ) (size : ℕ)
      → HasData
          (written s n i b d p block source size)
          n
          pid'
          i'
          b
          (record d { params = set d.params i (record p { kind = stage p.kind }) })
          p'
          (write_at 0 (take (min size p.size) source) block)
  shared-HasData source size =
      let changed : Store = record s {
        heap = set s.heap b (write_at 0 (take (min size p.size) source) block);
        count_staged = (s.count_staged + newly_staged p.kind) % 2 ^ 32;
      } in
      let ps = set d.params i (record p { kind = stage p.kind }) in
      let (heap, roots, subs, _) = put_params-keeps changed n ps in
      record {
        num_fits = has.num_fits;
        pid_pos = has'.pid_pos;
        device_found =
            ap (λ ds. find_device ds n) (devices-put_params changed n ps)
            ∙ find_device-put_device (devices s) d n ps has.device_found;
        param_found =
            ap₂ (λ r c. find_param (if n == 0 then r else c) 0 ps pid') roots subs
            ∙ find_param-set (param_count s n) 0 i d.params pid' p
                (record p { kind = stage p.kind }) has.param_at refl
            ∙ has'.param_found;
        param_at = get_elem?-set_ne d.params i i' _ entries_differ ∙ has'.param_at;
        pid_is = has'.pid_is;
        data_at = has'.data_at;
        block_at = ap (λ h. get_elem? h b) heap ∙ get_elem?-set s.heap b block _ has.block_at;
        block_length =
            omega
              (arith, has'.block_length, length-write_at 0 (take (min size p.size) source) block);
      }

  -- What is written to one of two parameters that share their data is copied from the other one.
  pub copy-set-shared :
      (source : List ℕ) (size k : ℕ)
      → 0 < size
      → size ≤ length source
      → k ≤ min size p.size
      → k ≤ p'.size
      → (s' : Store) × (parameter_set s n pid (some source) size ≡ some (min size p.size, s'))
        × (parameter_copy s' n pid' k ≡ some (k, take k source))
  copy-set-shared source size k pos given h h' = (
    written s n i b d p block source size,
    set-written has source size pos given,
    copy_HasData (shared-HasData source size) k h'
        ∙ ap (λ xs. some (k, xs))
            (prefix k (min size p.size) source block h (omega arith)
              (omega (arith, has.block_length))),
  )
