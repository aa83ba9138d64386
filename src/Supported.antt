-- ===== src/Supported.antt =====
-- The parameters of a device and their descriptions: src/rdm/responder/rdm_info.c.
pub mod Register
pub mod Reported
pub mod Examples
use esp_dmx.Prelude.{
  ℕ, zero, suc, ◌+◌, ◌-◌, ◌*◌, ◌/◌, ◌%◌, Bool, true, false, not, ◌&&◌, ◌||◌, Option, none, some,
  List, [], ◌∷◌, ◌++◌, ltb, leb, ◌==◌, if◌then◌else◌, ◌>>=◌, length, get_or, take, drop, replicate,
  write_at,
}
use esp_dmx.Packet.{Header, sub_device_root}
use esp_dmx.Parameter.{Store, static, param_count, add}
use esp_dmx.Parameter.Access.{parameter_at}
use esp_dmx.Parameter.Callback.{definition_get}
use esp_dmx.Responder.{
  PidCc, disc, get, set_, get_set, supported_parameters, parameter_description, Command, Definition,
  Responder, Program, ack, nack, read_request, nr_format_error, nr_sub_device_out_of_range,
}
use esp_dmx.Responder.Register.{define_added, no_command}
use esp_dmx.Sensors.{le16}
use esp_dmx.Sensors.Handle.{nr_data_out_of_range}

abbrev pub pid_supported_parameters : ℕ
pid_supported_parameters = 0x0050

abbrev pub pid_parameter_description : ℕ
pid_parameter_description = 0x0051

-- The cases of the two switches: the PIDs that every responder has.
unfoldable pub is_required : ℕ → Bool
is_required pid =
    leb 0x0001 pid && leb pid 0x0003
    || leb 0x0050 pid && leb pid 0x0051
    || (pid == 0x0060 || pid == 0x00c0 || (pid == 0x00f0 || pid == 0x1000))

-- The loop of `rdm_rhd_get_supported_parameters` for `n` indices from `i` on.
unfoldable pub collect : ℕ → Store → ℕ → ℕ → Option (List ℕ)
collect zero s n i = some []
collect (suc k) s n i =
    let rest = collect k s n (i + 1) in
    parameter_at s n i >>= λ pid.
    if pid == 0
    then some []
    else if is_required pid
    then rest
    else (rest >>= λ pids. some (pid ∷ pids))

-- An array of words in memory.
abbrev pub words : List ℕ → List ℕ
words [] = []
words (x ∷ xs) = le16 x ++ words xs

-- `rdm_rhd_get_supported_parameters`
unfoldable pub rhd_get_supported_parameters :
    Program → Definition → Header → Responder → Option (ℕ × Responder)
rhd_get_supported_parameters p d h r = collect 115 r.parameters h.sub_device 0 >>= λ pids.
    ack p h d.get_.response_format (some (words pids)) (length pids * 2) r

-- The first loop of `rdm_get_supported_parameters`, which has room for `k` PIDs, with the index and
-- the count where it ends. A `continue` leaves the index as it is.
unfoldable pub fill : ℕ → Store → ℕ → ℕ → Option (List ℕ × ℕ × ℕ)
fill zero s i count = some ([], i, count)
fill (suc k) s i count =
    let again = fill k s i count in
    let next = fill k s (i + 1) (count + 1) in
    parameter_at s sub_device_root i >>= λ pid.
    if pid == 0
    then some ([], i, count)
    else if is_required pid
    then again
    else (next >>= λ (pids, j, total). some (pid ∷ pids, j, total))

-- The second loop, from index `i` on. There are `k` indices left, behind which
-- `dmx_parameter_at` returns 0.
unfoldable pub count_rest : ℕ → Store → ℕ → Option ℕ
count_rest zero s i = some 0
count_rest (suc k) s i =
    let rest = count_rest k s (i + 1) in
    parameter_at s sub_device_root i >>= λ pid.
    if pid == 0 then some 0 else (rest >>= λ n. some (suc n))

-- `rdm_get_supported_parameters` with a destination of `size` octets, 0 for a null pointer: the
-- PIDs written and the value returned. An odd size is one octet less.
unfoldable pub get_supported_parameters : Store → ℕ → Option (List ℕ × ℕ)
get_supported_parameters s size = fill (size / 2) s 0 0 >>= λ (pids, i, count).
    count_rest (param_count s 0 + 1 - i) s i >>= λ rest. some (pids, (count + rest) * 2)

-- The value of a `rdm_pid_cc_t`.
abbrev pub cc_value : PidCc → ℕ
cc_value disc = 0
cc_value get = 1
cc_value set_ = 2
cc_value get_set = 3

abbrev pub le32 : ℕ → List ℕ
le32 v = le16 v ++ le16 (v / 65536)

-- `strncpy(dest, source, n)`: the characters up to the terminator, and zeros.
unfoldable pub copied_text : ℕ → List ℕ → Option (List ℕ)
copied_text zero octets = some []
copied_text (suc n) [] = none
copied_text (suc n) (c ∷ octets) =
    let rest = copied_text n octets in
    if c == 0 then some (replicate (suc n) 0) else (rest >>= λ text. some (c ∷ text))

-- A `rdm_parameter_description_t`, of which the octet for the type is not set. The text of a null
-- pointer is a fault.
unfoldable pub description_of : List ℕ → ℕ → Definition → Option (List ℕ)
description_of stack pid d = d.description >>= λ memory. copied_text 33 memory >>= λ text. some (
    le16 pid
    ++ (d.pdl_size
        ∷ d.ds
        ∷ cc_value d.pid_cc
        ∷ get_or stack 5 0
        ∷ d.units
        ∷ d.prefix
        ∷ (le32 d.min_value ++ (le32 d.max_value ++ (le32 d.default_value ++ text)))))

abbrev pub describe_pid :
    Program → Definition → Header → ℕ → Option Definition → Responder → Option (ℕ × Responder)
describe_pid p d h pid none r = nack p h nr_data_out_of_range r
describe_pid p d h pid (some requested) r =
    description_of p.stack pid requested >>= λ pd. ack p h d.get_.response_format (some pd) 53 r

-- The definition at a pointer.
abbrev pub pointed_definition : Program → Option ℕ → Option (Option Definition)
pointed_definition p none = some none
pointed_definition p (some address) = p.definitions address >>= λ d. some (some d)

-- What the handler does with the PID of a request.
unfoldable pub describe_parameter :
    Program → Definition → Header → ℕ → Responder → Option (ℕ × Responder)
describe_parameter p d h pid r =
    if ltb pid d.min_value || ltb d.max_value pid
    then nack p h nr_data_out_of_range r
    else (definition_get r.parameters h.sub_device pid >>= λ at.
        pointed_definition p at >>= λ requested. describe_pid p d h pid requested r)

-- `rdm_rhd_get_parameter_description`
unfoldable pub rhd_get_parameter_description :
    Program → Definition → Header → Responder → Option (ℕ × Responder)
rhd_get_parameter_description p d h r =
    if not (h.sub_device == sub_device_root)
    then nack p h nr_sub_device_out_of_range r
    else (read_request p d.get_.request_format 2 2 r >>= λ (n, m).
        if n == 0
        then nack p h nr_format_error r
        else describe_parameter p d h (get_or m 1 0 * 256 + get_or m 0 0) r)

-- `rdm_get_parameter_description` with a destination that holds `memory`.
unfoldable pub get_parameter_description : Program → Store → ℕ → List ℕ → Option (ℕ × List ℕ)
get_parameter_description p s pid memory =
    if ltb pid 0x8000 || ltb 0xffdf pid
    then some (0, memory)
    else (definition_get s sub_device_root pid >>= λ at. pointed_definition p at >>= λ requested.
        elim requested [
          | none ↦ some (0, memory)
          | some d ↦ description_of memory pid d >>= λ pd. some (53, pd)
        ])
