-- ===== src/Install.antt =====
-- Installing and deleting a driver: dmx_driver_install and dmx_driver_delete of src/dmx/driver.c,
-- and the registration of src/rdm/responder/queue_status.c.
pub mod Parameters
pub mod Table
pub mod Sequence
pub mod Registered
pub mod Fresh
pub mod Examples
use esp_dmx.Prelude.{
  ℕ, zero, suc, ◌+◌, ◌*◌, ◌/◌, ◌%◌, ◌^◌, Bool, true, false, not, ◌&&◌, ◌||◌, Option, none, some,
  List, [], ◌∷◌, ◌++◌, ltb, leb, ◌==◌, if◌then◌else◌, ◌>>=◌, get_elem?, replicate,
}
use esp_dmx.Uid.{Uid}
use esp_dmx.Buffer.{Status, idle}
use esp_dmx.Send.{Progress, stale}
use esp_dmx.Parameter.{Param, Device, Store, Kind, dynamic}
use esp_dmx.Sensors.{write_octets, modify, each_up}
use esp_dmx.Setup.{dmx_packet_size_max, description_size, word_at}
use esp_dmx.Install.Parameters.{Config, Platform, Step, register_each, default_parameters}

-- The loop that checks the footprints of `n` personalities from index `i` on.
unfoldable pub footprints_are_ok : ℕ → ℕ → List ℕ → Option Bool
footprints_are_ok zero i block = some true
footprints_are_ok (suc n) i block =
    let rest = footprints_are_ok n (i + 1) block in
    word_at block (i * description_size + 1) >>= λ footprint.
    if ltb 0 footprint && ltb footprint dmx_packet_size_max then rest else some false

abbrev pub personalities_checked : List (List ℕ) → Option ℕ → ℕ → Option Bool
personalities_checked heap at zero = some true
personalities_checked heap none (suc n) = none
personalities_checked heap (some b) (suc n) =
    get_elem? heap b >>= λ block. footprints_are_ok (suc n) 0 block

-- The count of entries that are allocated for the root device, and the smallest one.
abbrev pub required_count : Bool → ℕ
required_count uses_dmx = if uses_dmx then 7 else 6

abbrev pub allocated_count : Config → Bool → ℕ
allocated_count c uses_dmx =
    if ltb 0 c.root_count && ltb c.root_count (required_count uses_dmx)
    then required_count uses_dmx
    else c.root_count

-- The loop that clears the PIDs, which goes by the count of the configuration.
unfoldable pub clear_pids : ℕ → List Param → Option (List Param)
clear_pids zero ps = some ps
clear_pids (suc n) [] = none
clear_pids (suc n) (p ∷ ps) = clear_pids n ps >>= λ rest. some (record p { pid = 0 } ∷ rest)

-- The personalities are numbered from 1 on, in place.
unfoldable pub put_personality_number : ℕ → List ℕ → Option (List ℕ)
put_personality_number i block = write_octets (i * description_size) (((i + 1) % 256) ∷ []) block

abbrev pub number_personalities : Store → Option ℕ → ℕ → Option Store
number_personalities s at zero = some s
number_personalities s none (suc n) = none
number_personalities s (some b) (suc n) = modify s b (each_up put_personality_number (suc n) 0)

-- The fields of `dmx_driver_t` that are set; a head of -1 is `none`, and so is a time of -1. Of a
-- union it is the member that is set: `last_request_was_broadcast` is the first octet of
-- `last_request_pid`, `boot_loader` is `tn`.
pub record Driver : Type 0 where
  pub uid : Uid
  pub break_len : ℕ
  pub mab_len : ℕ
  pub parameters : Store
  pub is_controller : Bool
  pub is_enabled : Bool
  pub head : Option ℕ
  pub size : ℕ
  pub data_ : List ℕ
  pub status : Status
  pub progress : Progress
  pub last_controller_pid : ℕ
  pub controller_eop_timestamp : ℕ
  pub last_responder_pid : ℕ
  pub responder_sent_last : Bool
  pub last_request_pid : ℕ
  pub last_request_pid_repeats : ℕ
  pub tn : ℕ
  pub sniffer_is_enabled : Bool
  pub sniffer_buffer_index : ℕ
  pub last_pos_edge_ts : Option ℕ
  pub last_neg_edge_ts : Option ℕ

abbrev pub blank_store : Config → List Param → List (List ℕ) → Store
blank_store c params heap = record {
  count_root = c.root_count;
  count_subs = c.sub_count;
  count_staged = 0;
  root = record { num = 0; params = params };
  subs = [];
  heap = heap;
}

-- The UID: the last octet of the device's number is raised by the number of the port.
abbrev pub port_uid : Platform → Uid
port_uid p = record {
  man_id = p.man_id;
  dev_id = p.dev_id / 256 * 256 + (p.dev_id % 256 + p.dmx_num) % 256;
}

abbrev pub installed_driver : Platform → Store → Driver
installed_driver p s = record {
  uid = port_uid p;
  break_len = 176;
  mab_len = 12;
  parameters = s;
  is_controller = false;
  is_enabled = true;
  head = none;
  size = dmx_packet_size_max;
  data_ = replicate 513 0;
  status = idle;
  progress = stale;
  last_controller_pid = 0;
  controller_eop_timestamp = 0;
  last_responder_pid = 0;
  responder_sent_last = false;
  last_request_pid = 0;
  last_request_pid_repeats = 0;
  tn = 0;
  sniffer_is_enabled = false;
  sniffer_buffer_index = 0;
  last_pos_edge_ts = none;
  last_neg_edge_ts = none;
}

-- The root device's array of `n` entries from index `i` on, with what their memory held.
unfoldable pub entries : (ℕ → Param) → ℕ → ℕ → List Param
entries old zero i = []
entries old (suc n) i = old i ∷ entries old n (i + 1)

-- The parameters of a fresh driver.
unfoldable pub install_parameters : Platform → Config → Option ℕ → ℕ → List (List ℕ) → Option Store
install_parameters p c at count heap =
    clear_pids c.root_count (entries p.old_param (allocated_count c (ltb 0 count)) 0) >>= λ params.
    number_personalities (blank_store c params heap) at count >>= λ s.
    register_each (default_parameters p c (ltb 0 count) at count) s

-- What follows the allocation of the mutex. A UART or a timer that cannot be initialised makes the
-- function delete the driver and return false.
unfoldable pub install_allocated :
    Platform → Config → Option ℕ → ℕ → List (List ℕ) → Option (Option Driver)
install_allocated p c at count heap = install_parameters p c at count heap >>= λ s.
    some (if p.uart_ready && p.timer_ready then some (installed_driver p s) else none)

-- `dmx_driver_install` on a port without a driver, with personalities in a block of the heap: the
-- inner `none` is the value false. Without memory for the mutex it deletes the driver, which takes
-- the null mutex, a failed assertion.
unfoldable pub install : Platform → Config → Option ℕ → ℕ → List (List ℕ) → Option (Option Driver)
install p c at count heap =
    if ltb 255 count
    then some none
    else (personalities_checked heap at count >>= λ ok.
        if not ok || not p.driver_memory
        then some none
        else if not p.mutex_memory
        then none
        else install_allocated p c at count heap)

abbrev pub is_dynamic : Kind → Bool
is_dynamic dynamic = true
is_dynamic _ = false

-- The loop of `dmx_driver_delete` over `n` parameters of a device: the pointers that are freed. A
-- read behind the array is a fault.
unfoldable pub freed : ℕ → List Param → Option (List (Option ℕ))
freed zero ps = some []
freed (suc n) [] = none
freed (suc n) (p ∷ ps) =
    let rest = freed n ps in
    if p.pid == 0
    then some []
    else if not (is_dynamic p.kind)
    then rest
    else (rest >>= λ more. some (p.data_ ∷ more))

-- The loop over the devices.
unfoldable pub freed_devices : Store → List Device → Option (List (Option ℕ))
freed_devices s [] = some []
freed_devices s (d ∷ ds) =
    let rest = freed_devices s ds in
    freed (if d.num == 0 then s.count_root else s.count_subs) d.params >>= λ first.
    rest >>= λ more. some (first ++ more)

-- `dmx_driver_delete` of a driver that is installed: the data of parameters that is freed, or
-- `none` where the mutex is not taken and the value is false. The driver, its mutex and the
-- sub-devices are freed besides.
unfoldable pub driver_delete : Bool → Store → Option (Option (List (Option ℕ)))
driver_delete mutex_taken s =
    if mutex_taken
    then (freed_devices s (s.root ∷ s.subs) >>= λ pointers. some (some pointers))
    else some none
