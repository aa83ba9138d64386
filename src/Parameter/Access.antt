-- ===== src/Parameter/Access.antt =====
-- The functions of src/dmx/parameter.c that read and write parameters and commit them.
use esp_dmx.Prelude.{
  ℕ, zero, suc, ◌+◌, ◌-◌, ◌%◌, ◌^◌, Bool, true, false, ◌&&◌, ◌||◌, Option, none, some, List, [],
  ◌∷◌, min, ltb, ◌==◌, if◌then◌else◌, ◌>>=◌, assert, length, get_elem?, set, take, write_at,
}
use esp_dmx.Parameter.{
  Kind, non_volatile, staged, kind_is_staged, Param, Device, Store, sub_device_max, find_device,
  param_count, put_params, get_entry,
}

-- `dmx_parameter_exists`
unfoldable pub exists_ : Store → ℕ → ℕ → Option Bool
exists_ s n pid = get_entry s n pid >>= λ found. some (elim found [ none ↦ false | some at ↦ true ])

-- `dmx_parameter_at`, which lets the index be as large as the count.
unfoldable pub parameter_at : Store → ℕ → ℕ → Option ℕ
parameter_at s n index = assert (ltb n sub_device_max) (
    if ltb (param_count s n) index then some 0 else (elim (find_device (s.root ∷ s.subs) n) [
      | none ↦ some 0
      | some d ↦ get_elem? d.params index >>= λ p. some p.pid
    ]))

abbrev pub size_found : Option (List Param × ℕ) → Option ℕ
size_found none = some 0
size_found (some (ps, i)) = get_elem? ps i >>= λ p. some p.size

-- `dmx_parameter_size`
unfoldable pub parameter_size : Store → ℕ → ℕ → Option ℕ
parameter_size s n pid = get_entry s n pid >>= size_found

abbrev pub data_found : Option (List Param × ℕ) → Option (Option ℕ)
data_found none = some none
data_found (some (ps, i)) = get_elem? ps i >>= λ p. some p.data_

-- `dmx_parameter_get_data`
unfoldable pub get_data : Store → ℕ → ℕ → Option (Option ℕ)
get_data s n pid = get_entry s n pid >>= data_found

-- `memcpy` from or to the data of an entry faults behind the end of either block.
abbrev pub copy_entry : List (List ℕ) → ℕ → Param → Option (ℕ × List ℕ)
copy_entry heap size p =
    let k = min size p.size in
    if k == 0
    then some (0, [])
    else (p.data_ >>= λ b.
        get_elem? heap b >>= λ block. if ltb (length block) k then none else some (k, take k block))

abbrev pub copy_found : List (List ℕ) → ℕ → Option (List Param × ℕ) → Option (ℕ × List ℕ)
copy_found heap size none = some (0, [])
copy_found heap size (some (ps, i)) = get_elem? ps i >>= copy_entry heap size

-- `dmx_parameter_copy`: the size, and what is copied to the destination.
unfoldable pub parameter_copy : Store → ℕ → ℕ → ℕ → Option (ℕ × List ℕ)
parameter_copy s n pid size = get_entry s n pid >>= copy_found s.heap size

-- A write stages a non-volatile parameter.
abbrev pub stage : Kind → Kind
stage non_volatile = staged
stage k = k

abbrev pub newly_staged : Kind → ℕ
newly_staged non_volatile = 1
newly_staged _ = 0

-- The critical section of `dmx_parameter_set`, on an entry, its data and the memory at `source`.
unfoldable pub write_entry :
    Store → ℕ → List Param → ℕ → List ℕ → ℕ → Param → ℕ → List ℕ → Option (ℕ × Store)
write_entry s n ps i source size p b block =
    let k = min size p.size in
    if ltb (length block) k || ltb (length source) k
    then none
    else some (
      k,
      put_params
          (record s {
            heap = set s.heap b (write_at 0 (take k source) block);
            count_staged = (s.count_staged + newly_staged p.kind) % 2 ^ 32;
          })
          n (set ps i (record p { kind = stage p.kind })),
    )

unfoldable pub set_found : Store → ℕ → List ℕ → ℕ → Option (List Param × ℕ) → Option (ℕ × Store)
set_found s n source size none = some (0, s)
set_found s n source size (some (ps, i)) = get_elem? ps i >>= λ p.
    p.data_ >>= λ b. get_elem? s.heap b >>= λ block. write_entry s n ps i source size p b block

-- `dmx_parameter_set`, with the memory at `source`; `none` is a null source.
unfoldable pub parameter_set : Store → ℕ → ℕ → Option (List ℕ) → ℕ → Option (ℕ × Store)
parameter_set s n pid none size = assert (ltb n sub_device_max && ltb 0 pid) (some (0, s))
parameter_set s n pid (some source) size =
    if size == 0
    then assert (ltb n sub_device_max && ltb 0 pid) (some (0, s))
    else (get_entry s n pid >>= set_found s n source size)

-- The inner loop of `dmx_parameter_commit` over `n` entries: the first staged one and its index.
-- The outer `none` is a read behind the end of the array.
unfoldable pub find_staged : ℕ → ℕ → List Param → Option (Option (ℕ × Param))
find_staged zero i ps = some none
find_staged (suc n) i [] = none
find_staged (suc n) i (p ∷ ps) =
    let rest = find_staged n (i + 1) ps in
    if kind_is_staged p.kind then some (some (i, p)) else rest

-- The outer loop, which looks at `count_root` entries of every device: the number of the device,
-- its array, and the index and the entry found. The source would go on to the next device
-- behind a staged entry with PID 0; entries get their kind together with a PID above 0.
unfoldable pub find_commit : ℕ → List Device → Option (Option (ℕ × List Param × ℕ × Param))
find_commit n [] = some none
find_commit n (d ∷ ds) =
    let rest = find_commit n ds in
    find_staged n 0 d.params >>= λ at. elim at [
      | none ↦ rest
      | some (i, p) ↦ some (some (d.num, d.params, i, p))
    ]

-- What `dmx_nvs_set` is called with: the sub-device, the PID, the data and its size.
pub record Saved : Type 0 where
  pub sub_device : ℕ
  pub pid : ℕ
  pub data_ : Option ℕ
  pub size : ℕ

unfoldable pub commit_found :
    Store → Option (ℕ × List Param × ℕ × Param) → Option (ℕ × Option Saved × Store)
commit_found s none = some (0, none, s)
commit_found s (some (n, ps, i, p)) =
    let s' =
      put_params (record s { count_staged = (s.count_staged + 2 ^ 32 - 1) % 2 ^ 32 }) n
        (set ps i (record p { kind = non_volatile })) in
    if ltb 0 p.pid
    then (parameter_size s' n p.pid >>= λ size.
        some
          (p.pid, some (record { sub_device = n; pid = p.pid; data_ = p.data_; size = size }), s'))
    else some (0, none, s')

-- `dmx_parameter_commit`: the PID, the call of `dmx_nvs_set`, and the table.
unfoldable pub commit : Store → Option (ℕ × Option Saved × Store)
commit s =
    if s.count_staged == 0
    then some (0, none, s)
    else (find_commit s.count_root (s.root ∷ s.subs) >>= commit_found s)
