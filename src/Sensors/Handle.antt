-- ===== src/Sensors/Handle.antt =====
-- The handlers of src/rdm/responder/sensor_parameter.c.
use esp_dmx.Prelude.{
  ℕ, not, ◌&&◌, Option, none, some, List, ltb, ◌==◌, if◌then◌else◌, ◌>>=◌, get_or, get_elem?,
}
use esp_dmx.Packet.{Header, get_command, set_command}
use esp_dmx.Responder.{
  Definition, Responder, Program, ack, nack, read_request, nr_format_error, nr_hardware_fault,
  nr_unsupported_command_class,
}
use esp_dmx.Sensors.{
  sensor_num_max, value_size, value_at, definition_size, read_octets, modify, get_sensors, count_at,
  sensor_get_count, reset_one, each_up, sensor_record, sensor_definition_get,
}

abbrev pub nr_data_out_of_range : ℕ
nr_data_out_of_range = 0x0006

-- The sensor's number in a request, or the reason for which it is refused.
pub data Number : Type 0 where
  number refused : ℕ → Number

-- The number read and its test, with which the three handlers begin.
unfoldable pub read_number : Program → Header → Option (List ℕ) → Responder → Option Number
read_number p h format r = read_request p format 1 1 r >>= λ (n, m).
    if n == 0
    then some (refused nr_format_error)
    else (sensor_get_count r.parameters h.sub_device >>= λ count.
        let k = get_or m 0 0 in
        some (
          if ltb count k && not (k == sensor_num_max)
          then refused nr_data_out_of_range
          else number k))

-- The acknowledgement with the octets at a pointer into a block.
unfoldable pub ack_octets :
    Program → Header → Option (List ℕ) → ℕ → ℕ → ℕ → Responder → Option (ℕ × Responder)
ack_octets p h format b i size r = get_elem? r.parameters.heap b >>= λ block.
    read_octets i size block >>= λ octets. ack p h format (some octets) size r

-- The sensors that a SET resets, and the sensor in the response to it.
unfoldable pub reset_from : ℕ → ℕ → List ℕ → Option (List ℕ)
reset_from k count = if k == sensor_num_max then each_up reset_one count 0 else reset_one k

abbrev pub answered_sensor : ℕ → ℕ
answered_sensor k = if k == sensor_num_max then 0 else k

unfoldable pub sensor_answer :
    Program → Definition → Header → ℕ → ℕ → Responder → Option (ℕ × Responder)
sensor_answer p d h k b r =
    if h.cc == get_command
    then if k == sensor_num_max
      then nack p h nr_unsupported_command_class r
      else ack_octets p h d.get_.response_format b (value_at k) value_size r
    else (count_at r.parameters b >>= λ count. modify r.parameters b (reset_from k count) >>= λ s.
        ack_octets p h
          (if h.cc == set_command then d.set_command.response_format else d.get_.response_format) b
          (value_at (answered_sensor k)) value_size (record r { parameters = s }))

-- A device with no sensors fails the assertion.
unfoldable pub value_checked :
    Program → Definition → Header → Number → Responder → Option (ℕ × Responder)
value_checked p d h (refused reason) r = nack p h reason r
value_checked p d h (number k) r =
    get_sensors r.parameters h.sub_device >>= λ at. at >>= λ b. sensor_answer p d h k b r

-- `rdm_rhd_get_set_sensor_value`
unfoldable pub rhd_get_set_sensor_value :
    Program → Definition → Header → Responder → Option (ℕ × Responder)
rhd_get_set_sensor_value p d h r =
    read_number p h
      (if h.cc == set_command then d.set_command.request_format else d.get_.request_format) r
    >>= λ k. value_checked p d h k r

unfoldable pub record_checked : Program → Header → Number → Responder → Option (ℕ × Responder)
record_checked p h (refused reason) r = nack p h reason r
record_checked p h (number k) r = sensor_record r.parameters h.sub_device k >>= λ (done, s).
    if done
    then ack p h none none 0 (record r { parameters = s })
    else nack p h nr_data_out_of_range (record r { parameters = s })

-- `rdm_rhd_set_record_sensors`
unfoldable pub rhd_set_record_sensors :
    Program → Definition → Header → Responder → Option (ℕ × Responder)
rhd_set_record_sensors p d h r =
    read_number p h d.set_command.request_format r >>= λ k. record_checked p h k r

abbrev pub definition_answer :
    Program → Definition → Header → Option (ℕ × ℕ) → Responder → Option (ℕ × Responder)
definition_answer p d h none r = nack p h nr_hardware_fault r
definition_answer p d h (some (b, i)) r =
    ack_octets p h d.get_.response_format b i definition_size r

unfoldable pub definition_checked :
    Program → Definition → Header → Number → Responder → Option (ℕ × Responder)
definition_checked p d h (refused reason) r = nack p h reason r
definition_checked p d h (number k) r =
    sensor_definition_get r.parameters h.sub_device k >>= λ at. definition_answer p d h at r

-- `rdm_rhd_get_sensor_definition`, which reads the request by the format of SET.
unfoldable pub rhd_get_sensor_definition :
    Program → Definition → Header → Responder → Option (ℕ × Responder)
rhd_get_sensor_definition p d h r =
    read_number p h d.set_command.request_format r >>= λ k. definition_checked p d h k r
