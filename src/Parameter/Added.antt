-- ===== src/Parameter/Added.antt =====
-- Adding a parameter and finding it.
use esp_dmx.Prelude.{
  ℕ, zero, suc, ◌+◌, ◌<◌, ◌≤◌, ◌≡◌, refl, sym, ap, ap₂, ◌∙◌, inl, inr, Bool, true, false, Option,
  none, some, List, [], ◌∷◌, ◌++◌, arith, ltb, ◌==◌, if◌then◌else◌, length, length-take, get_elem?,
  set, take, replicate, lt→ltb, Bool-cases, ==_refl, ◌&&◌, ◌⊎◌,
}
use esp_dmx.Parameter.{
  Kind, dynamic, non_volatile, Param, Device, Store, Slot, exists_, empty, find_device, device_get,
  find_param, find_slot, new_param, put_params, param_count, add_data, add_at, add,
}
use esp_dmx.Parameter.Devices.{
  devices, devices-put_params, put_params-keeps, find_device-put_device, get_elem?-set,
}
use esp_dmx.Parameter.RoundTrip.{HasData}

slot_index : Option Slot → ℕ
slot_index (some (empty i p)) = i
slot_index _ = 0

slot_param : Param → Option Slot → Param
slot_param q (some (empty i p)) = p
slot_param q _ = q

is_empty : Option Slot → Bool
is_empty (some (empty i p)) = true
is_empty _ = false

-- An empty entry that the loop stops at: it is in the array, and a parameter that is put there is
-- found there.
pub find_slot-empty :
    (n i : ℕ) (ps : List Param) (pid j : ℕ) (p : Param)
    → find_slot n i ps pid ≡ some (empty j p)
    → (k : ℕ) × (j ≡ i + k)
      × (get_elem? ps k ≡ some p)
      × (p.pid ≡ 0)
      × ((p' : Param) → p'.pid ≡ pid → find_param n i (set ps k p') pid ≡ some (some j))
unfolding find_slot find_param is_empty slot_index slot_param
find_slot-empty zero i ps pid j p e = absurd (ground (arith, ap is_empty e))
find_slot-empty (suc n) i [] pid j p e = absurd (ground (arith, ap is_empty e))
find_slot-empty (suc n) i (q ∷ ps) pid j p e = elim (Bool-cases (q.pid == pid)) [
  | inl same ↦
      let no : some exists_ ≡ some (empty j p) = rw same at e in
      absurd (ground (arith, ap is_empty no))
  | inr other ↦ elim (Bool-cases (q.pid == 0)) [
    | inl free ↦
        let here : some (empty i q) ≡ some (empty j p) = rw (other, free) at e in
        let q_is : q ≡ p = ap (slot_param q) here in
        let at : i ≡ j = ap slot_index here in
        (
          0,
          omega (arith, at),
          ap some q_is,
          ap (λ (x : Param). x.pid) (sym q_is) ∙ ground arith,
          λ p' is. rw (is, ==_refl) (ap (λ m. some (some m)) at),
        )
    | inr used ↦
        let later : find_slot n (i + 1) ps pid ≡ some (empty j p) = rw (other, used) at e in
        let (k, at, here, zero_pid, found) = find_slot-empty n (i + 1) ps pid j p later in
        (suc k, omega (arith, at), here, zero_pid, λ p' is. rw (other, found p' is) refl)
  ]
]

get_elem?-append_last :
    {A : Type 0} (xs : List A) (x : A) → get_elem? (xs ++ (x ∷ [])) (length xs) ≡ some x
get_elem?-append_last [] x = refl
get_elem?-append_last (y ∷ xs) x = get_elem?-append_last xs x

-- The table with the new parameter, its data in a new block.
abbrev added : Store → ℕ → ℕ → ℕ → Kind → ℕ → Device → Param → List ℕ → Store
added s n pid i kind size d p block =
    put_params (record s { heap = s.heap ++ (block ∷ []) }) n
      (set d.params i (new_param p pid kind size (some (length s.heap))))

added-HasData :
    (s : Store) (n pid i : ℕ) (kind : Kind) (size : ℕ) (d : Device) (p : Param) (block : List ℕ)
    → n < 513
    → 0 < pid
    → find_device (devices s) n ≡ some d
    → find_slot (param_count s n) 0 d.params pid ≡ some (empty i p)
    → size ≤ length block
    → let p' = new_param p pid kind size (some (length s.heap)) in
      HasData
        (added s n pid i kind size d p block)
        n
        pid
        i
        (length s.heap)
        (record d { params = set d.params i p' })
        p'
        block
added-HasData s n pid i kind size d p block h k found slot fits =
    let (j, at, here, zero_pid, there) =
      find_slot-empty (param_count s n) 0 d.params pid i p slot in
    let p' = new_param p pid kind size (some (length s.heap)) in
    let i_is : i ≡ j = omega (arith, at) in
    let here' : get_elem? d.params i ≡ some p = ap (get_elem? d.params) i_is ∙ here in
    let changed : Store = record s { heap = s.heap ++ (block ∷ []) } in
    let ps = set d.params i p' in
    let (heap, roots, subs, waiting_kept) = put_params-keeps changed n ps in
    record {
      num_fits = h;
      pid_pos = k;
      device_found =
          ap (λ ds. find_device ds n) (devices-put_params changed n ps)
          ∙ find_device-put_device (devices s) d n ps found;
      param_found =
          ap₂ (λ r c. find_param (if n == 0 then r else c) 0 ps pid) roots subs
          ∙ ap (λ m. find_param (param_count s n) 0 (set d.params m p') pid) i_is
          ∙ there p' refl;
      param_at = get_elem?-set d.params i p _ here';
      pid_is = refl;
      data_at = refl;
      block_at = ap (λ hp. get_elem? hp (length s.heap)) heap ∙ get_elem?-append_last s.heap block;
      block_length = fits;
    }

-- `dmx_parameter_add` of a new dynamic or non-volatile parameter with initial data that is at least as
-- long as the parameter returns true, if the memory is there and the loop stops at an empty entry of
-- the device: the parameter then exists, in that entry, and its data, in a new block, is a copy of
-- the initial data.
pub add-HasData :
    {d : Device} {p : Param} {block : List ℕ} (s : Store) (n pid i : ℕ) (kind : Kind)
    (source size : ℕ)
    → n < 513
    → 0 < pid
    → find_device (devices s) n ≡ some d
    → find_slot (param_count s n) 0 d.params pid ≡ some (empty i p)
    → (kind ≡ dynamic) ⊎ (kind ≡ non_volatile)
    → get_elem? s.heap source ≡ some block
    → size ≤ length block
    → let p' = new_param p pid kind size (some (length s.heap)) in
      (s' : Store) × (add true s n pid kind (some source) size ≡ some (true, s'))
      × HasData s' n pid i
          (length s.heap)
          (record d { params = set d.params i p' })
          p'
          (take size block)
unfolding add add_at device_get
add-HasData {d} {p} {block} s n pid i kind source size h k found slot allocates given fits = (
  added s n pid i kind size d p (take size block),
  rw (checks, small, found, slot, by_kind allocates) refl,
  added-HasData s n pid i kind size d p (take size block) h k found slot
      (omega (arith, length-take size block)),
)
  where
    checks : (ltb n 513 && ltb 0 pid) ≡ true
    checks = ground arith

    small : ltb n 513 ≡ true
    small = ground arith

    enough : ltb (length block) size ≡ false
    enough = ground arith

    by_kind :
        (kind ≡ dynamic) ⊎ (kind ≡ non_volatile)
        → add_data true kind s.heap (some source) size
          ≡ some (some (some (length s.heap), s.heap ++ (take size block ∷ [])))
    by_kind (inl e) = rw (e, given, enough) refl
    by_kind (inr e) = rw (e, given, enough) refl

-- The root device has room for the parameter `pid`, which it does not have yet.
pub record HasRoom (s : Store) (pid : ℕ) : Type 0 where
  pub i : ℕ
  pub device : Device
  pub param : Param
  pub device_found : find_device (devices s) 0 ≡ some device
  pub slot_found : find_slot (param_count s 0) 0 device.params pid ≡ some (empty i param)

pub length-replicate : (n x : ℕ) → length (replicate n x) ≡ n
length-replicate zero x = refl
length-replicate (suc n) x = ap suc (length-replicate n x)

-- A new parameter of the root device with allocated data and no initial data holds zeros.
pub add-zeros :
    {s : Store} {pid : ℕ} (size : ℕ)
    → (room : HasRoom s pid) → 0 < pid
    → let p' = new_param room.param pid dynamic size (some (length s.heap)) in
      (s' : Store) × (d' : Device) × (add true s 0 pid dynamic none size ≡ some (true, s'))
      × HasData s' 0 pid room.i (length s.heap) d' p' (replicate size 0)
unfolding add add_at device_get
add-zeros {s} {pid} size room pos = (
  _,
  _,
  rw (lt→ltb 0 pid pos, room.device_found, room.slot_found) refl,
  added-HasData s 0 pid room.i dynamic size room.device room.param (replicate size 0) (omega arith)
      pos room.device_found room.slot_found (omega (arith, length-replicate size 0)),
)
