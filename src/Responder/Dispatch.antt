-- ===== src/Responder/Dispatch.antt =====
-- rdm_send_response of src/rdm/responder.c.
use esp_dmx.Prelude.{
  ℕ, ◌+◌, ◌%◌, ◌^◌, Bool, true, false, not, ◌&&◌, ◌||◌, Option, none, some, List, ltb, leb, ◌==◌,
  if◌then◌else◌, ◌>>=◌, get_elem?,
}
use esp_dmx.Uid.{uid_null, uid_is_target, uid_is_broadcast}
use esp_dmx.Packet.{
  Header, disc_command, get_command, set_command, sub_device_max, sub_device_all,
  pid_disc_unique_branch, cc_is_valid,
}
use esp_dmx.Packet.Read.{read_header}
use esp_dmx.Parameter.{Param, get_entry}
use esp_dmx.Parameter.Callback.{definition_get}
use esp_dmx.Send.{Driver, send_num}
use esp_dmx.Send as Sending
use esp_dmx.Responder.{
  PidCc, disc, get, set_, get_set, Handler, discovery, simple, sensor_value, record_sensors,
  sensor_definition, personality, personality_description, supported_parameters,
  parameter_description, reset_device, device_info, language, custom, Definition, Responder,
  Program, nack, set_boot_loader, rhd_discovery, simple_response_handler, nr_unknown_pid,
  nr_format_error, nr_unsupported_command_class, nr_hardware_fault,
}
use esp_dmx.Sensors.Handle.{
  rhd_get_set_sensor_value, rhd_set_record_sensors, rhd_get_sensor_definition,
}
use esp_dmx.Supported.{rhd_get_supported_parameters, rhd_get_parameter_description}
use esp_dmx.Product.{rhd_get_device_info, rhd_get_set_language}
use esp_dmx.Control.{rhd_set_reset_device}
use esp_dmx.Setup.Handle.{rhd_set_dmx_personality, rhd_get_dmx_personality_description}

-- What a call of `rdm_send_response` meets: whether the mutex is taken, the answers while a packet
-- is sent, the discovery's transaction spacing, what the interrupts make of the driver while
-- `dmx_wait_sent` waits for the end of the response, and the handlers that are not modelled.
pub record World : Type 0 where
  pub mutex_taken : Bool
  pub sending : Sending.World
  pub spacing : ℕ
  pub behind_wait : Driver → Driver
  pub handle : ℕ → Definition → Header → Responder → Option (ℕ × Responder)

-- A call of a callback: the function, the two headers and the context.
pub record Call : Type 0 where
  pub callback : ℕ
  pub request : Header
  pub response : Header
  pub context : Option ℕ

-- The value returned, the size that `dmx_send_num` was called with, the driver as that call leaves
-- it, whether the driver waits for a
-- break behind its response, the callback that is called, and the driver.
pub record Outcome : Type 0 where
  pub responded : Bool
  pub given : Option ℕ
  pub sent : Option Driver
  pub awaits_break : Bool
  pub call : Option Call
  pub responder : Responder

-- The packet in the buffer, if it is RDM with a valid command class.
abbrev pub valid_packet : Option Header → Option Header
valid_packet none = none
valid_packet (some h) = if cc_is_valid h.cc then some h else none

-- The record of the request.
unfoldable pub count_request : Header → Responder → Responder
count_request h r =
    let n = if h.pid == r.last_request_pid then (r.last_request_pid_repeats + 1) % 2 ^ 8 else 0 in
    record r { last_request_pid_repeats = n; last_request_pid = h.pid }

-- The responder when it begins to answer.
abbrev pub begun : Header → Responder → Responder
begun h r = count_request h (record r { mux = r.mux + 1 })

-- What is done with a request of a command class for a parameter.
pub data Support : Type 0 where
  silent refused supported : Support

unfoldable pub support : PidCc → ℕ → Support
support disc cc = if cc == disc_command then supported else silent
support get_set cc = if cc == disc_command then refused else supported
support get cc = if cc == get_command then supported else refused
support set_ cc = if cc == set_command then supported else refused

-- The handler that the command class needs; a null pointer is a fault.
unfoldable pub call_handler :
    World → Program → Definition → Header → Option Handler → Responder → Option (ℕ × Responder)
call_handler w p d h none r = none
call_handler w p d h (some discovery) r = rhd_discovery p d h r
call_handler w p d h (some simple) r = simple_response_handler p d h r
call_handler w p d h (some sensor_value) r = rhd_get_set_sensor_value p d h r
call_handler w p d h (some record_sensors) r = rhd_set_record_sensors p d h r
call_handler w p d h (some sensor_definition) r = rhd_get_sensor_definition p d h r
call_handler w p d h (some personality) r = rhd_set_dmx_personality p d h r
call_handler w p d h (some personality_description) r = rhd_get_dmx_personality_description p d h r
call_handler w p d h (some supported_parameters) r = rhd_get_supported_parameters p d h r
call_handler w p d h (some parameter_description) r = rhd_get_parameter_description p d h r
call_handler w p d h (some reset_device) r = rhd_set_reset_device p d h r
call_handler w p d h (some device_info) r = rhd_get_device_info p d h r
call_handler w p d h (some language) r = rhd_get_set_language p d h r
call_handler w p d h (some (custom f)) r = w.handle f d h r

abbrev pub handler_for : Definition → ℕ → Option Handler
handler_for d cc = if cc == set_command then d.set_command.handler else d.get_.handler

-- A handler's size that cannot be sent is answered for.
unfoldable pub validate : Program → Header → ℕ × Responder → Option (ℕ × Responder)
validate p h (size, r) =
    if h.pid == pid_disc_unique_branch && ((ltb 0 size && ltb size 17) || ltb 24 size)
    then some (0, set_boot_loader r)
    else if ltb 255 size || (size == 0 && not (uid_is_broadcast h.dest_uid))
    then (nack p h nr_hardware_fault r >>= λ (n, r'). some (n, set_boot_loader r'))
    else some (size, r)

unfoldable pub handle_request :
    World → Program → Definition → Header → Support → Responder → Option (ℕ × Responder)
handle_request w p d h silent r = some (0, r)
handle_request w p d h refused r = nack p h nr_unsupported_command_class r
handle_request w p d h supported r =
    call_handler w p d h (handler_for d h.cc) r >>= λ z. validate p h z

-- The response to a request, on the definition that was looked up.
unfoldable pub respond : World → Program → Header → Option ℕ → Responder → Option (ℕ × Responder)
respond w p h none r = nack p h nr_unknown_pid r
respond w p h (some address) r =
    if (leb sub_device_max h.sub_device && not (h.sub_device == sub_device_all)) || leb 232 h.pdl
    then nack p h nr_format_error r
    else (p.definitions address >>= λ d. handle_request w p d h (support d.pid_cc h.cc) r)

abbrev pub no_header : Header
no_header = record {
  message_len = 0;
  dest_uid = uid_null;
  src_uid = uid_null;
  tn = 0;
  port_id = 0;
  message_count = 0;
  sub_device = 0;
  cc = 0;
  pid = 0;
  pdl = 0;
}

abbrev pub header_or_zero : Option Header → Header
header_or_zero none = no_header
header_or_zero (some h) = h

-- The callback of an entry.
abbrev pub callback_of : Header → Responder → Param → Option Call
callback_of h r e = elim e.callback [
  | none ↦ none
  | some f ↦ some (record {
    callback = f;
    request = h;
    response = header_or_zero (read_header r.driver.data_);
    context = e.context;
  })
]

abbrev pub call_found : Header → Responder → Option (List Param × ℕ) → Option (Option Call)
call_found h r none = some none
call_found h r (some (ps, i)) = get_elem? ps i >>= λ e. some (callback_of h r e)

unfoldable pub after_response : Header → Responder → Option (Option Call)
after_response h r = get_entry r.parameters h.sub_device h.pid >>= call_found h r

-- Sending the response, with the driver as `dmx_send_num` leaves it; when it is sent, the driver
-- waits for a break.
unfoldable pub send_packet : World → ℕ → Responder → Option (Driver × Bool × Responder)
send_packet w size r = send_num w.sending w.spacing r.driver size >>= λ (n, d). some (
  d,
  not (n == 0),
  if n == 0
      then set_boot_loader (record r { driver = d })
      else record r { driver = record (w.behind_wait d) { rts = 1 } },
)

-- No response to a broadcast, but to DISC_UNIQUE_BRANCH.
unfoldable pub allowed : Header → ℕ → ℕ
allowed h size =
    if uid_is_broadcast h.dest_uid && not (h.pid == pid_disc_unique_branch) then 0 else size

unfoldable pub conclude : World → Header → ℕ → Responder → Option Outcome
conclude w h size r =
    if ltb 0 size
    then (send_packet w size r >>= λ (d, rearmed, r'). after_response h r' >>= λ c. some (record {
      responded = true;
      given = some size;
      sent = some d;
      awaits_break = rearmed;
      call = c;
      responder = r';
    }))
    else (after_response h r >>= λ c. some (record {
      responded = false;
      given = none;
      sent = none;
      awaits_break = false;
      call = c;
      responder = r;
    }))

-- A request to this device; the mutex is taken.
unfoldable pub answer : World → Program → Header → Responder → Option Outcome
answer w p h r = definition_get r.parameters h.sub_device h.pid >>= λ def.
    respond w p h def (begun h r) >>= λ (size, r'). conclude w h (allowed h size) r'

abbrev pub ignored : Responder → Outcome
ignored r = record {
  responded = false;
  given = none;
  sent = none;
  awaits_break = false;
  call = none;
  responder = r;
}

unfoldable pub on_packet : World → Program → Option Header → Responder → Option Outcome
on_packet w p none r = some (ignored r)
on_packet w p (some h) r =
    if uid_is_target r.uid h.dest_uid then answer w p h r else some (ignored r)

-- `rdm_send_response`, which gives the mutex back only where it ignores the packet. `none` is a
-- failed assertion or a fault.
unfoldable pub send_response : World → Program → Responder → Option Outcome
send_response w p r =
    if w.mutex_taken
    then on_packet w p (valid_packet (read_header r.driver.data_)) r
    else some (ignored r)
