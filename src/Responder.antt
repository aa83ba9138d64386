-- ===== src/Responder.antt =====
-- A device that answers requests: its state, the definitions of its parameters and the handlers of
-- src/rdm/responder/utils.c and src/rdm/responder/discovery.c.
pub mod Dispatch
pub mod Refusal
pub mod Mute
pub mod Register
pub mod Fresh
pub mod Branch
pub mod Octet
pub mod Defined
pub mod Examples
use esp_dmx.Prelude.{
  ℕ, zero, suc, ◌+◌, ◌-◌, ◌*◌, ◌/◌, ◌%◌, ◌^◌, Bool, true, false, not, ◌&&◌, ◌||◌, Option, none,
  some, List, [], ◌∷◌, ◌++◌, ltb, leb, ◌==◌, if◌then◌else◌, ◌>>=◌, assert, length, get_or,
  get_elem?, take, drop, write_at,
}
use esp_dmx.Uid.{Uid, uid_null, uid_is_lt, uid_is_gt}
use esp_dmx.Format.{Encoded, finished}
use esp_dmx.Packet.{
  Header, get_command, sub_device_all, sub_device_root, pid_disc_unique_branch, uid_bytes, be16,
  be32,
}
use esp_dmx.Packet.Read.{read_pd, filled}
use esp_dmx.Parameter.{Store, sub_device_exists, sub_device_get_count}
use esp_dmx.Parameter.Access.{exists_, parameter_size, get_data, parameter_copy, parameter_set}
use esp_dmx.Response.{write_ack, write_nack_reason}
use esp_dmx.Send.{Driver}

-- `rdm_pid_cc_t`
pub data PidCc : Type 0 where
  disc get set_ get_set : PidCc

-- What a definition's pointer to a handler points to: a handler of this library that is modelled,
-- or another function.
pub data Handler : Type 0 where
  discovery simple sensor_value record_sensors sensor_definition : Handler
  personality personality_description supported_parameters parameter_description : Handler
  reset_device device_info language : Handler
  custom : ℕ → Handler

-- `rdm_command_t`; a format is its characters.
pub record Command : Type 0 where
  pub handler : Option Handler
  pub request_format : Option (List ℕ)
  pub response_format : Option (List ℕ)

-- `rdm_parameter_definition_t`; a description is the memory at its address.
pub record Definition : Type 0 where
  pub pid_cc : PidCc
  pub get_ : Command
  pub set_command : Command
  pub ds : ℕ
  pub pdl_size : ℕ
  pub max_value : ℕ
  pub min_value : ℕ
  pub default_value : ℕ
  pub units : ℕ
  pub prefix : ℕ
  pub description : Option (List ℕ)

-- The driver of a responder: its UID, parameters, boot-loader flag, the PID of the last request and
-- how often it was repeated, how many messages are queued and how often the task holds its mutex;
-- and the fields that sending uses, the buffer among them.
pub record Responder : Type 0 where
  pub uid : Uid
  pub parameters : Store
  pub boot_loader : Bool
  pub last_request_pid : ℕ
  pub last_request_pid_repeats : ℕ
  pub queued : ℕ
  pub mux : ℕ
  pub driver : Driver

-- The rest of the program: the fuel for the encoder, the definitions by address, the UIDs of the
-- ports that are installed, first one first, and the octets that a handler's variables hold before
-- they are set.
pub record Program : Type 0 where
  pub fuel : ℕ
  pub definitions : ℕ → Option Definition
  pub ports : List Uid
  pub stack : List ℕ

abbrev pub pid_disc_mute : ℕ
pid_disc_mute = 0x0002

abbrev pub nr_unknown_pid : ℕ
nr_unknown_pid = 0x0000

abbrev pub nr_format_error : ℕ
nr_format_error = 0x0001

abbrev pub nr_hardware_fault : ℕ
nr_hardware_fault = 0x0002

abbrev pub nr_unsupported_command_class : ℕ
nr_unsupported_command_class = 0x0005

abbrev pub nr_sub_device_out_of_range : ℕ
nr_sub_device_out_of_range = 0x0009

-- `rdm_set_boot_loader`
unfoldable pub set_boot_loader : Responder → Responder
set_boot_loader r = record r { boot_loader = true }

abbrev pub with_buffer : Responder → ℕ × List ℕ → ℕ × Responder
with_buffer r (n, buf) = (n, record r { driver = record r.driver { data_ = buf } })

-- The two replies, written to the buffer.
unfoldable pub ack :
    Program → Header → Option (List ℕ) → Option (List ℕ) → ℕ → Responder → Option (ℕ × Responder)
ack p h format pd pdl r =
    write_ack p.fuel r.uid r.queued h format pd pdl r.driver.data_ >>= λ w. some (with_buffer r w)

unfoldable pub nack : Program → Header → ℕ → Responder → Option (ℕ × Responder)
nack p h reason r =
    write_nack_reason p.fuel r.uid r.queued h reason r.driver.data_ >>= λ w. some (with_buffer r w)

-- `rdm_read_pd` to a variable of `size` octets: the value returned and the variable.
unfoldable pub read_request : Program → Option (List ℕ) → ℕ → ℕ → Responder → Option (ℕ × List ℕ)
read_request p format size space r = read_pd p.fuel r.driver.data_ format size >>= λ (n, e).
    filled (take space p.stack) e >>= λ memory. some (n, memory)

-- The octets at a pointer to the data of a parameter.
abbrev pub block_of : Store → Option ℕ → Option (Option (List ℕ))
block_of s none = some none
block_of s (some b) = get_elem? s.heap b >>= λ block. some (some block)

-- The loop over the sub-devices: `n` of them from `i` on.
unfoldable pub set_all : ℕ → ℕ → ℕ → List ℕ → ℕ → Store → Option Store
set_all zero i pid pd size s = some s
set_all (suc n) i pid pd size s =
    parameter_set s i pid (some pd) size >>= λ (k, s'). set_all n (i + 1) pid pd size s'

-- The branch of `rdm_simple_response_handler` for one device that has the parameter.
unfoldable pub simple_one : Program → Definition → Header → Responder → Option (ℕ × Responder)
simple_one p d h r =
    if h.cc == get_command
    then (parameter_size r.parameters h.sub_device h.pid >>= λ pdl.
        get_data r.parameters h.sub_device h.pid >>= λ at.
        block_of r.parameters at >>= λ pd. ack p h d.get_.response_format pd pdl r)
    else (read_request p d.set_command.request_format h.pdl 231 r >>= λ (size, pd).
        parameter_set r.parameters h.sub_device h.pid (some pd) size >>= λ (k, s).
        ack p h none none 0 (record r { parameters = s }))

-- `rdm_simple_response_handler`
unfoldable pub simple_response_handler :
    Program → Definition → Header → Responder → Option (ℕ × Responder)
simple_response_handler p d h r =
    if not (h.sub_device == sub_device_all)
    then (sub_device_exists r.parameters h.sub_device >>= λ there.
        if not there
        then nack p h nr_sub_device_out_of_range r
        else (exists_ r.parameters h.sub_device h.pid >>= λ has.
            if has then simple_one p d h r else nack p h nr_sub_device_out_of_range r))
    else if h.cc == get_command
    then nack p h nr_sub_device_out_of_range r
    else (read_request p d.set_command.request_format h.pdl 231 r >>= λ (size, pd).
        set_all 513 0 h.pid pd size r.parameters >>= λ s.
        ack p h none none 0 (record r { parameters = s }))

-- The two UIDs of a `rdm_disc_unique_branch_t` in memory.
abbrev pub uid_in : List ℕ → ℕ → Uid
uid_in m i = record {
  man_id = be16 (get_or m (i + 1) 0) (get_or m i 0);
  dev_id = be32 (get_or m (i + 5) 0) (get_or m (i + 4) 0) (get_or m (i + 3) 0) (get_or m (i + 2) 0);
}

-- Whether the device is muted, 1 if the parameter cannot be copied.
unfoldable pub is_muted : Store → Option Bool
is_muted s = parameter_copy s sub_device_root pid_disc_mute 1 >>= λ (k, octets).
    some (not (get_or octets 0 1 == 0))

-- The branch of `rdm_rhd_discovery` for DISC_UNIQUE_BRANCH.
unfoldable pub answer_branch : Program → Definition → Header → Responder → Option (ℕ × Responder)
answer_branch p d h r = is_muted r.parameters >>= λ muted.
    if muted
    then some (0, r)
    else (read_request p d.get_.request_format 12 12 r >>= λ (n, m).
        if n == 0
        then some (0, r)
        else if uid_is_lt r.uid (uid_in m 0) || uid_is_gt r.uid (uid_in m 6)
        then some (0, r)
        else ack p h none none 0 r)

-- The UID in a mute response: the one of the first port, if there are several.
abbrev pub binding_uid : List Uid → Uid
binding_uid [] = uid_null
binding_uid (u ∷ []) = uid_null
binding_uid (u ∷ v ∷ us) = u

-- A `rdm_disc_mute_t` in memory. Only the lowest four bits of its control field are set.
unfoldable pub mute_bytes : Program → Responder → List ℕ
mute_bytes p r =
    let sub : ℕ = if ltb 0 (sub_device_get_count r.parameters) then 2 else 0 in
    let boot : ℕ = if r.boot_loader then 4 else 0 in
    (get_or p.stack 0 0 / 16 * 16 + sub + boot)
    ∷ get_or p.stack 1 0
    ∷ uid_bytes (binding_uid p.ports)

-- The branch for DISC_MUTE and DISC_UN_MUTE.
unfoldable pub answer_mute : Program → Definition → Header → Responder → Option (ℕ × Responder)
answer_mute p d h r =
    let value : List ℕ = (if h.pid == pid_disc_mute then 1 else 0) ∷ [] in
    parameter_set r.parameters sub_device_root h.pid (some value) 1 >>= λ (k, s).
    let r' = record r { parameters = s } in
    ack p h d.get_.response_format (some (mute_bytes p r')) 8 r'

-- `rdm_rhd_discovery`
unfoldable pub rhd_discovery : Program → Definition → Header → Responder → Option (ℕ × Responder)
rhd_discovery p d h r =
    if not (h.sub_device == sub_device_root)
    then some (0, r)
    else if h.pid == pid_disc_unique_branch
    then answer_branch p d h r
    else answer_mute p d h r
