-- ===== src/Parameter/RoundTrip.antt =====
-- Setting a parameter and reading it back.
use esp_dmx.Prelude.{
  ℕ, zero, suc, ◌+◌, ◌%◌, ◌^◌, ◌<◌, ◌≤◌, ◌≡◌, refl, ap, ap₂, ◌∙◌, inl, inr, false, some, List, [],
  ◌∷◌, arith, ltb, ◌==◌, if◌then◌else◌, length, get_elem?, set, take, write_at, min, Bool-cases,
  ne→==, ◌||◌, length-write_at,
}
use esp_dmx.Parameter.{
  Param, Device, Store, find_device, find_param, put_params, param_count, get_entry,
}
use esp_dmx.Parameter.Access.{
  get_data, parameter_set, parameter_copy, set_found, write_entry, stage, newly_staged,
}
use esp_dmx.Parameter.Devices.{
  devices, devices-put_params, put_params-keeps, find_device-put_device, get_entry-entry_in,
  get_elem?-set, find_param-set,
}

-- The parameter `pid` of device `n` is entry `i` of the device's array, `p`, with its data in block
-- `b` of the heap, which is at least as long as the entry says.
pub record HasData (s : Store) (n pid i b : ℕ) (d : Device) (p : Param) (block : List ℕ)
    : Type 0 where
  pub num_fits : n < 513
  pub pid_pos : 0 < pid
  pub device_found : find_device (devices s) n ≡ some d
  pub param_found : find_param (param_count s n) 0 d.params pid ≡ some (some i)
  pub param_at : get_elem? d.params i ≡ some p
  pub pid_is : p.pid ≡ pid
  pub data_at : p.data_ ≡ some b
  pub block_at : get_elem? s.heap b ≡ some block
  pub block_length : p.size ≤ length block

pub entry_found :
    {s : Store} {n pid i b : ℕ} {d : Device} {p : Param} {block : List ℕ}
    → HasData s n pid i b d p block
    → get_entry s n pid ≡ some (some (d.params, i))
entry_found {s} {n} {pid} {i} {b} {d} {p} {block} has =
    get_entry-entry_in s n pid has.num_fits has.pid_pos
    ∙ rw (has.device_found, has.param_found) refl

-- What `dmx_parameter_get_data` returns for such a parameter.
pub get_data-HasData :
    {s : Store} {n pid i b : ℕ} {d : Device} {p : Param} {block : List ℕ}
    → HasData s n pid i b d p block
    → get_data s n pid ≡ some (some b)
unfolding get_data
get_data-HasData has = rw (entry_found has, has.param_at, has.data_at) refl

-- A block of the same length in place of the parameter's.
pub modified-HasData :
    {s : Store} {n pid i b : ℕ} {d : Device} {p : Param} {block : List ℕ}
    → HasData s n pid i b d p block
    → (block' : List ℕ) → length block' ≡ length block
    → HasData (record s { heap = set s.heap b block' }) n pid i b d p block'
modified-HasData {s} {n} {pid} {i} {b} {d} {p} {block} has block' same = record {
  num_fits = has.num_fits;
  pid_pos = has.pid_pos;
  device_found = has.device_found;
  param_found = has.param_found;
  param_at = has.param_at;
  pid_is = has.pid_is;
  data_at = has.data_at;
  block_at = get_elem?-set s.heap b block block' has.block_at;
  block_length = omega (arith, has.block_length, same);
}

-- An entry with the same PID, size and data in place of the parameter's.
pub replaced-HasData :
    {s : Store} {n pid i b : ℕ} {d : Device} {p : Param} {block : List ℕ}
    → HasData s n pid i b d p block
    → (p' : Param) → p'.pid ≡ p.pid
    → p'.size ≡ p.size
    → p'.data_ ≡ p.data_
    → HasData
        (put_params s n (set d.params i p'))
        n
        pid
        i
        b
        (record d { params = set d.params i p' })
        p'
        block
replaced-HasData {s} {n} {pid} {i} {b} {d} {p} {block} has p' same_pid same_size same_data =
    let ps = set d.params i p' in
    let (heap, roots, subs, waiting_kept) = put_params-keeps s n ps in
    record {
      num_fits = has.num_fits;
      pid_pos = has.pid_pos;
      device_found =
          ap (λ ds. find_device ds n) (devices-put_params s n ps)
          ∙ find_device-put_device (devices s) d n ps has.device_found;
      param_found =
          ap₂ (λ r c. find_param (if n == 0 then r else c) 0 ps pid) roots subs
          ∙ find_param-set (param_count s n) 0 i d.params pid p p' has.param_at same_pid
          ∙ has.param_found;
      param_at = get_elem?-set d.params i p _ has.param_at;
      pid_is = same_pid ∙ has.pid_is;
      data_at = same_data ∙ has.data_at;
      block_at = ap (λ h. get_elem? h b) heap ∙ has.block_at;
      block_length = omega (arith, has.block_length, same_size);
    }

pub prefix :
    (k m : ℕ) (xs ys : List ℕ)
    → k ≤ m
    → m ≤ length xs
    → m ≤ length ys
    → take k (write_at 0 (take m xs) ys) ≡ take k xs
prefix zero m xs ys h g f = refl
prefix (suc k) zero xs ys h g f = absurd (omega arith)
prefix (suc k) (suc m) [] ys h g f = absurd (omega arith)
prefix (suc k) (suc m) (x ∷ xs) [] h g f = absurd (omega arith)
prefix (suc k) (suc m) (x ∷ xs) (y ∷ ys) h g f =
    ap (λ zs. x ∷ zs) (prefix k m xs ys (omega arith) (omega arith) (omega arith))

-- The table after `dmx_parameter_set` of `size` octets from `source`.
abbrev pub written : Store → ℕ → ℕ → ℕ → Device → Param → List ℕ → List ℕ → ℕ → Store
written s n i b d p block source size =
    put_params
      (record s {
        heap = set s.heap b (write_at 0 (take (min size p.size) source) block);
        count_staged = (s.count_staged + newly_staged p.kind) % 2 ^ 32;
      })
      n (set d.params i (record p { kind = stage p.kind }))

pub set-written :
    {s : Store} {n pid i b : ℕ} {d : Device} {p : Param} {block : List ℕ}
    → HasData s n pid i b d p block
    → (source : List ℕ) (size : ℕ) → 0 < size
    → size ≤ length source
    → parameter_set s n pid (some source) size
      ≡ some (min size p.size, written s n i b d p block source size)
unfolding parameter_set set_found write_entry
set-written {s} {n} {pid} {i} {b} {d} {p} {block} has source size pos given =
    rw (ne→== size 0 (omega arith), entry_found has, has.param_at, has.data_at, has.block_at, fits)
      refl
  where
    fits : (ltb (length block) (min size p.size) || ltb (length source) (min size p.size)) ≡ false
    fits = let h = has.block_length in ground arith

pub written-HasData :
    {s : Store} {n pid i b : ℕ} {d : Device} {p : Param} {block : List ℕ}
    → HasData s n pid i b d p block
    → (source : List ℕ) (size : ℕ)
    → HasData
        (written s n i b d p block source size)
        n
        pid
        i
        b
        (record d { params = set d.params i (record p { kind = stage p.kind }) })
        (record p { kind = stage p.kind })
        (write_at 0 (take (min size p.size) source) block)
written-HasData {s} {n} {pid} {i} {b} {d} {p} {block} has source size =
    let changed : Store = record s {
      heap = set s.heap b (write_at 0 (take (min size p.size) source) block);
      count_staged = (s.count_staged + newly_staged p.kind) % 2 ^ 32;
    } in
    let ps = set d.params i (record p { kind = stage p.kind }) in
    let (heap, roots, subs, waiting_kept) = put_params-keeps changed n ps in
    record {
      num_fits = has.num_fits;
      pid_pos = has.pid_pos;
      device_found =
          ap (λ ds. find_device ds n) (devices-put_params changed n ps)
          ∙ find_device-put_device (devices s) d n ps has.device_found;
      param_found =
          ap₂ (λ r c. find_param (if n == 0 then r else c) 0 ps pid) roots subs
          ∙ find_param-set (param_count s n) 0 i d.params pid p (record p { kind = stage p.kind })
              has.param_at refl
          ∙ has.param_found;
      param_at = get_elem?-set d.params i p _ has.param_at;
      pid_is = has.pid_is;
      data_at = has.data_at;
      block_at = ap (λ h. get_elem? h b) heap ∙ get_elem?-set s.heap b block _ has.block_at;
      block_length =
          omega (arith, has.block_length, length-write_at 0 (take (min size p.size) source) block);
    }

pub copy_HasData :
    {s : Store} {n pid i b : ℕ} {d : Device} {p : Param} {block : List ℕ}
    → HasData s n pid i b d p block
    → (k : ℕ) → k ≤ p.size
    → parameter_copy s n pid k ≡ some (k, take k block)
unfolding parameter_copy
copy_HasData {s} {n} {pid} {i} {b} {d} {p} {block} has k h = elim (Bool-cases (k == 0)) [
  | inl e ↦
      let zero_k : 0 ≡ k = ground arith in
      rw (entry_found has, has.param_at, clamped, e) (ap (λ m. some (m, take m block)) zero_k)
  | inr e ↦ rw (entry_found has, has.param_at, clamped, e, has.data_at, has.block_at, fits) refl
]
  where
    clamped : min k p.size ≡ k
    clamped = omega arith

    fits : ltb (length block) k ≡ false
    fits = let l = has.block_length in ground arith

-- `dmx_parameter_set` of at least one octet to a parameter with data returns the smaller of the two
-- sizes, and `dmx_parameter_copy` of that size or less then returns what was written; the parameter
-- still has its data, in the same block.
pub copy-set :
    {s : Store} {n pid i b : ℕ} {d : Device} {p : Param} {block : List ℕ}
    → HasData s n pid i b d p block
    → (source : List ℕ) (size k : ℕ) → 0 < size
    → size ≤ length source
    → k ≤ min size p.size
    → (s' : Store) × (parameter_set s n pid (some source) size ≡ some (min size p.size, s'))
      × (parameter_copy s' n pid k ≡ some (k, take k source))
      × HasData s' n pid i b
          (record d { params = set d.params i (record p { kind = stage p.kind }) })
          (record p { kind = stage p.kind })
          (write_at 0 (take (min size p.size) source) block)
copy-set {s} {n} {pid} {i} {b} {d} {p} {block} has source size k pos given h = (
  written s n i b d p block source size,
  set-written has source size pos given,
  copy_HasData (written-HasData has source size) k (omega arith)
      ∙ ap (λ xs. some (k, xs))
          (prefix k (min size p.size) source block h (omega arith)
            (omega (arith, has.block_length))),
  written-HasData has source size,
)
