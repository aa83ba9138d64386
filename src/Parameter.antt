-- ===== src/Parameter.antt =====
-- The table of parameters: dmx_parameter_t and dmx_device_t of src/dmx/include/service.h,
-- src/dmx/service.c and src/dmx/parameter.c. `none` is a failed assertion, or a fault: a read or a
-- write through a null pointer or behind the end of an array.
pub mod Access
pub mod Devices
pub mod RoundTrip
pub mod Shared
pub mod Added
pub mod Staged
pub mod Commit
pub mod Callback
pub mod Bounds
pub mod Examples
use esp_dmx.Prelude.{
  ℕ, zero, suc, ◌+◌, ◌-◌, ◌%◌, ◌^◌, Bool, true, false, not, ◌&&◌, ◌||◌, Option, none, some, List,
  [], ◌∷◌, ◌++◌, ltb, leb, ◌==◌, if◌then◌else◌, ◌>>=◌, assert, length, get_elem?, set, take,
  replicate, write_at,
}

-- The members of `dmx_parameter_type_t`; the field is a uint8_t that could hold another value.
pub data Kind : Type 0 where
  null dynamic non_volatile static staged : Kind
  other : ℕ → Kind

abbrev pub kind_is_staged : Kind → Bool
kind_is_staged staged = true
kind_is_staged _ = false

-- `dmx_parameter_t`. A pointer to data is the number of a block of the heap, a pointer to a
-- definition, to a callback or to its context an address.
pub record Param : Type 0 where
  pub pid : ℕ
  pub size : ℕ
  pub data_ : Option ℕ
  pub kind : Kind
  pub definition : Option ℕ
  pub callback : Option ℕ
  pub context : Option ℕ

-- `dmx_device_t`, without the link to the next one.
pub record Device : Type 0 where
  pub num : ℕ
  pub params : List Param

-- `dmx_driver_device_t`: the counts, the root device and the list that it starts; and the memory
-- that the parameters' data lies in.
pub record Store : Type 0 where
  pub count_root : ℕ
  pub count_subs : ℕ
  pub count_staged : ℕ
  pub root : Device
  pub subs : List Device
  pub heap : List (List ℕ)

abbrev pub sub_device_max : ℕ
sub_device_max = 513

-- `dmx_sub_device_get_count`: the loop counts the devices from the root on, from -1.
unfoldable pub sub_device_get_count : Store → ℕ
sub_device_get_count s = length s.subs

-- The loop of `dmx_device_get` behind the root device.
unfoldable pub find_device : List Device → ℕ → Option Device
find_device [] n = none
find_device (d ∷ ds) n = let rest = find_device ds n in if d.num == n then some d else rest

-- `dmx_device_get`: the device, if there is one.
unfoldable pub device_get : Store → ℕ → Option (Option Device)
unfolding find_device
device_get s n = assert (ltb n sub_device_max) (some (find_device (s.root ∷ s.subs) n))

-- `dmx_sub_device_exists`
unfoldable pub sub_device_exists : Store → ℕ → Option Bool
sub_device_exists s n = device_get s n >>= λ d. some (elim d [ none ↦ false | some x ↦ true ])

-- The number of entries of a device's array.
abbrev pub param_count : Store → ℕ → ℕ
param_count s n = if n == 0 then s.count_root else s.count_subs

-- The loop of `dmx_parameter_get_entry` over `n` entries from index `i` on: the index found. The
-- outer `none` is a read behind the end of the array.
unfoldable pub find_param : ℕ → ℕ → List Param → ℕ → Option (Option ℕ)
find_param zero i ps pid = some none
find_param (suc n) i [] pid = none
find_param (suc n) i (p ∷ ps) pid =
    let rest = find_param n (i + 1) ps pid in if p.pid == pid then some (some i) else rest

-- Writing a device back to the list.
unfoldable pub put_device : List Device → ℕ → List Param → List Device
put_device [] n ps = []
put_device (d ∷ ds) n ps =
    let rest = put_device ds n ps in if d.num == n then record d { params = ps } ∷ ds else d ∷ rest

abbrev pub put_params : Store → ℕ → List Param → Store
put_params s n ps =
    if s.root.num == n
    then record s { root = record s.root { params = ps } }
    else record s { subs = put_device s.subs n ps }

abbrev pub entry_at : List Param → Option ℕ → Option (Option (List Param × ℕ))
entry_at ps none = some none
entry_at ps (some i) = some (some (ps, i))

abbrev pub entry_in : ℕ → ℕ → Option Device → Option (Option (List Param × ℕ))
entry_in count pid none = some none
entry_in count pid (some d) = find_param count 0 d.params pid >>= entry_at d.params

-- `dmx_parameter_get_entry`: the device's array and the index in it, if the parameter exists.
unfoldable pub get_entry : Store → ℕ → ℕ → Option (Option (List Param × ℕ))
get_entry s n pid =
    assert (ltb n sub_device_max && ltb 0 pid) (device_get s n >>= entry_in (param_count s n) pid)

-- `memset(data, 0, size)` or `memcpy(data, source, size)` to fresh memory.
abbrev pub initial : List (List ℕ) → Option ℕ → ℕ → Option (List ℕ)
initial heap none size = some (replicate size 0)
initial heap (some p) size =
    get_elem? heap p >>= λ block. if ltb (length block) size then none else some (take size block)

-- A fresh block with the initial data; `memory` says whether `malloc` succeeds. The inner `none`
-- is a failed allocation.
abbrev pub allocate :
    Bool → List (List ℕ) → Option ℕ → ℕ → Option (Option (Option ℕ × List (List ℕ)))
allocate false heap source size = some none
allocate true heap source size =
    initial heap source size >>= λ block. some (some (some (length heap), heap ++ (block ∷ [])))

-- The switch of `dmx_parameter_add`: the pointer to the data and the heap, or an early return.
abbrev pub add_data :
    Bool → Kind → List (List ℕ) → Option ℕ → ℕ → Option (Option (Option ℕ × List (List ℕ)))
add_data memory dynamic heap source size = allocate memory heap source size
add_data memory non_volatile heap source size = allocate memory heap source size
add_data memory static heap source size = some (some (source, heap))
add_data memory null heap source size = some (some (none, heap))
add_data memory _ heap source size = some none

-- The assignments to a new entry; its context is not set.
abbrev pub new_param : Param → ℕ → Kind → ℕ → Option ℕ → Param
new_param p pid kind size d = record p {
  pid = pid;
  size = size;
  data_ = d;
  kind = kind;
  definition = none;
  callback = none;
}

-- What becomes of the array at index `i` of the loop.
pub data Slot : Type 0 where
  exists_ full : Slot
  empty : ℕ → Param → Slot

-- The loop of `dmx_parameter_add`: an entry with the PID, or the first empty one before it.
unfoldable pub find_slot : ℕ → ℕ → List Param → ℕ → Option Slot
find_slot zero i ps pid = some full
find_slot (suc n) i [] pid = none
find_slot (suc n) i (p ∷ ps) pid =
    let rest = find_slot n (i + 1) ps pid in
    if p.pid == pid then some exists_ else if p.pid == 0 then some (empty i p) else rest

-- The end of `dmx_parameter_add`, on the device's entry that was found.
unfoldable pub add_at :
    Bool → Store → ℕ → ℕ → Kind → Option ℕ → ℕ → List Param → Slot → Option (Bool × Store)
add_at memory s n pid kind source size ps exists_ = some (true, s)
add_at memory s n pid kind source size ps full = some (false, s)
add_at memory s n pid kind source size ps (empty i p) =
    add_data memory kind s.heap source size >>= λ given. some (elim given [
      | none ↦ (false, s)
      | some (d, heap) ↦
          (true, put_params (record s { heap = heap }) n (set ps i (new_param p pid kind size d)))
    ])

-- `dmx_parameter_add`
unfoldable pub add : Bool → Store → ℕ → ℕ → Kind → Option ℕ → ℕ → Option (Bool × Store)
add memory s n pid kind source size = assert (ltb n sub_device_max && ltb 0 pid) (
    device_get s n >>= λ found. elim found [
      | none ↦ some (false, s)
      | some d ↦ find_slot (param_count s n) 0 d.params pid >>= λ slot.
          add_at memory s n pid kind source size d.params slot
    ])
