-- ===== src/Sensors/Requests.antt =====
-- The requests of a controller about the sensors of a device.
use esp_dmx.Prelude.{
  ℕ, ◌<◌, ◌≡◌, refl, true, false, not, ◌&&◌, none, some, List, [], arith, ltb, ◌==◌, if◌then◌else◌,
  length, get_elem?,
}
use esp_dmx.Packet.{Header, get_command}
use esp_dmx.Parameter.{Store}
use esp_dmx.Parameter.RoundTrip.{get_data-HasData}
use esp_dmx.Responder.{Responder, Program, ack, read_request}
use esp_dmx.Responder.Octet.{HasOctet, read_request-octet}
use esp_dmx.Sensors.{sensor_get_count, get_sensors}
use esp_dmx.Sensors.Values.{Sensor, value_bytes, update, with_recorded}
use esp_dmx.Sensors.Refine.{HasSensors, run, record_, run-refines}
use esp_dmx.Sensors.Sequence.{value_octets}
use esp_dmx.Sensors.Past.{record_all-past_end}
use esp_dmx.Sensors.Register.{
  number_format, value_format, value_definition, record_definition, sensor_definition_definition,
}
use esp_dmx.Format.{format_is_valid, format_encode}
use esp_dmx.Packet.Read.{read_pd}
use esp_dmx.Sensors.Handle.{
  rhd_get_set_sensor_value, value_checked, sensor_answer, ack_octets, rhd_get_sensor_definition,
  number, refused, read_number, record_checked, rhd_set_record_sensors, nr_data_out_of_range,
}

get_count-HasSensors :
    {s : Store} {n : ℕ} {xs : List Sensor}
    → HasSensors s n xs
    → sensor_get_count s n ≡ some (length xs)
unfolding sensor_get_count get_sensors
get_count-HasSensors {s} {n} h = rw (small, get_data-HasData h.data_, h.data_.block_at) refl
  where
    small : ltb n 513 ≡ true
    small = let fits = h.data_.num_fits in ground arith

-- The number of the request, or its refusal.
read_number-octet :
    {p : Program} {r : Responder} {k n : ℕ} {xs : List Sensor} (h : Header)
    → HasOctet p r k
    → h.sub_device ≡ n
    → HasSensors r.parameters n xs
    → read_number p h (some number_format) r
      ≡ some
          (if ltb (length xs) k && not (k == 255) then refused nr_data_out_of_range else number k)
unfolding read_number
read_number-octet h asked at has = rw (read_request-octet asked, at, get_count-HasSensors has) refl

-- A request to record all sensors makes the handler access memory behind the end of the sensors'
-- data, whatever the sensors are.
pub rhd_set_record_sensors-all :
    {p : Program} {r : Responder} {n : ℕ} {xs : List Sensor} (h : Header)
    → HasOctet p r 255
    → h.sub_device ≡ n
    → HasSensors r.parameters n xs
    → rhd_set_record_sensors p record_definition h r ≡ none
unfolding rhd_set_record_sensors record_checked
rhd_set_record_sensors-all {p} {r} {n} {xs} h asked at has =
    let (fault, _) = record_all-past_end has in
    rw (read_number-octet h asked at has, allowed, at, fault) refl
  where
    allowed : (ltb (length xs) 255 && not (255 == 255)) ≡ false
    allowed = ground arith

-- The handler of a request to record the sensor `k` copies its present value to its recorded one
-- and acknowledges, if there is such a sensor; it refuses a number above the count, except 255.
pub rhd_set_record_sensors-one :
    {p : Program} {r : Responder} {n k : ℕ} {xs : List Sensor} (h : Header)
    → HasOctet p r k
    → h.sub_device ≡ n
    → HasSensors r.parameters n xs
    → k < length xs
    → (s' : Store) × (rhd_set_record_sensors p record_definition h r
        ≡ ack p h none none 0 (record r { parameters = s' }))
      × HasSensors s' n (update xs k with_recorded)
unfolding rhd_set_record_sensors record_checked run
rhd_set_record_sensors-one {p} {r} {n} {k} {xs} h asked at has lt =
    let (s', e, has') = run-refines record_ k has lt in
    (s', rw (read_number-octet h asked at has, allowed, at, e) refl, has')
  where
    allowed : (ltb (length xs) k && not (k == 255)) ≡ false
    allowed = ground arith

-- The handler of a request to get the value of the sensor `k` acknowledges with the nine octets of
-- the sensor, if there is such a sensor, and changes nothing but the buffer.
pub rhd_get_sensor_value-one :
    {p : Program} {r : Responder} {n k : ℕ} {xs : List Sensor} (h : Header) (x : Sensor)
    → HasOctet p r k
    → h.sub_device ≡ n
    → h.cc ≡ get_command
    → HasSensors r.parameters n xs
    → k < length xs
    → get_elem? xs k ≡ some x
    → rhd_get_set_sensor_value p value_definition h r
      ≡ ack p h (some value_format) (some (value_bytes x [])) 9 r
unfolding rhd_get_set_sensor_value value_checked sensor_answer get_sensors ack_octets read_number
    ack
rhd_get_sensor_value-one {p} {r} {n} {k} {xs} h x asked at is_get has lt e =
    rw
      (
        is_get,
        read_number-octet h asked at has,
        allowed,
        at,
        get_data-HasData has.data_,
        one_,
        has.data_.block_at,
        value_octets xs k x lt e,
      )
      refl
  where
    allowed : (ltb (length xs) k && not (k == 255)) ≡ false
    allowed = ground arith

    one_ : (k == 255) ≡ false
    one_ = let few = has.few in ground arith

-- A request for the definition of a sensor, with one octet of data, makes the handler that
-- `rdm_register_sensor_definition` defines read through a null pointer.
pub rhd_get_sensor_definition-null :
    {p : Program} {r : Responder} {k : ℕ} (h : Header)
    → HasOctet p r k
    → rhd_get_sensor_definition p sensor_definition_definition h r ≡ none
unfolding rhd_get_sensor_definition read_number read_request read_pd format_is_valid format_encode
rhd_get_sensor_definition-null h asked = rw (asked.pdl_is) refl
