-- ===== src/Sensors/Examples.antt =====
-- A device with two sensors.
use esp_dmx.Prelude.{ℕ, ◌≡◌, refl, true, false, none, some, List, [], ◌∷◌, arith, replicate, ◌++◌}
use esp_dmx.Uid.{uid_null}
use esp_dmx.Packet.{Header}
use esp_dmx.Parameter.{Param, Device, Store, dynamic, find_device, find_param, find_slot}
use esp_dmx.Parameter.Added.{HasRoom}
use esp_dmx.Parameter.Callback.{definition_get}
use esp_dmx.Responder.{Program, Responder}
use esp_dmx.Responder.Octet.{HasOctet}
use esp_dmx.Responder.Fresh.{fresh, empty_param}
use esp_dmx.Buffer.{idle}
use esp_dmx.Send.{complete}
use esp_dmx.Send.Examples as Sent
use esp_dmx.Sensors.{sensor_get}
use esp_dmx.Sensors.Values.{Sensor, value_bytes, table}
use esp_dmx.Sensors.Refine.{HasSensors, Step, present_, record_, reset_, run}
use esp_dmx.Sensors.Sequence.{run_all, effects, sensors-refine}
use esp_dmx.Sensors.Past.{run-past_end}
use esp_dmx.Sensors.Registered.{numbered, register_sensor_value-HasSensors}
use esp_dmx.Sensors.Register.{record_definition, register_sensor_value}
use esp_dmx.Sensors.Handle.{rhd_set_record_sensors}
use esp_dmx.Sensors.Requests.{rhd_set_record_sensors-all}

abbrev cold : Sensor
cold = record { num = 0; present = 5; lowest = 1; highest = 9; recorded = 0 }

abbrev hot : Sensor
hot = record { num = 1; present = 700; lowest = 300; highest = 900; recorded = 0 }

abbrev two : List Sensor
two = cold ∷ hot ∷ []

abbrev entry : Param
entry = record empty_param { pid = 0x0201; size = 19; data_ = some 0; kind = dynamic }

abbrev root : Device
root = record { num = 0; params = entry ∷ [] }

abbrev with_two : Store
with_two = record {
  count_root = 1;
  count_subs = 0;
  count_staged = 0;
  root = root;
  subs = [];
  heap = table 2 two ∷ [];
}

two-HasSensors : HasSensors with_two 0 two
unfolding find_device find_param
two-HasSensors = record {
  i = 0;
  b = 0;
  device = root;
  param = entry;
  few = omega arith;
  data_ = record {
    num_fits = omega arith;
    pid_pos = omega arith;
    device_found = refl;
    param_found = refl;
    param_at = refl;
    pid_is = refl;
    data_at = refl;
    block_at = refl;
    block_length = omega arith;
  };
}

abbrev steps : List (Step × ℕ)
steps = (present_ 710, 1) ∷ (record_, 1) ∷ (present_ 650, 1) ∷ (reset_, 0) ∷ []

sensors-refine_example :
    (s' : Store) × (run_all steps with_two 0 ≡ some s')
    × (sensor_get s' 0 1
        ≡ some (
          9,
          some (
              value_bytes
                (record { num = 1; present = 650; lowest = 300; highest = 900; recorded = 710 })
                []),
        ))
    × HasSensors s' 0 (effects steps two)
sensors-refine_example =
    sensors-refine steps 1
      (record { num = 1; present = 650; lowest = 300; highest = 900; recorded = 710 })
      two-HasSensors (omega arith, (omega arith, (omega arith, (omega arith, tt)))) (omega arith)
      refl

run-past_end_example : run (present_ 3) with_two 0 2 ≡ none
run-past_end_example = run-past_end (present_ 3) two-HasSensors (omega arith)

room : HasRoom (fresh 0 []) 0x0201
unfolding find_device find_slot
room = record {
  i = 0;
  device = (fresh 0 []).root;
  param = empty_param;
  device_found = refl;
  slot_found = refl;
}

register_sensor_value-HasSensors_example :
    (s' : Store) × (register_sensor_value true (fresh 0 []) 2 40 none none ≡ some (true, s'))
    × (definition_get s' 0 0x0201 ≡ some (some 40))
    × HasSensors s' 0 (numbered 0 2)
register_sensor_value-HasSensors_example =
    register_sensor_value-HasSensors 2 40 none none room (omega arith)

-- A program, and a responder whose buffer holds a request with one octet.
abbrev program : Program
program = record {
  fuel = 2;
  definitions = λ a. some record_definition;
  ports = uid_null ∷ [];
  stack = 0xaa ∷ [];
}

abbrev request : ℕ → Header
request cc = record {
  message_len = 25;
  dest_uid = uid_null;
  src_uid = uid_null;
  tn = 0;
  port_id = 1;
  message_count = 0;
  sub_device = 0;
  cc = cc;
  pid = 0x0202;
  pdl = 1;
}

abbrev asked : ℕ → Responder
asked x = record {
  uid = uid_null;
  parameters = with_two;
  boot_loader = false;
  last_request_pid = 0;
  last_request_pid_repeats = 0;
  queued = 0;
  mux = 0;
  driver = Sent.driver (replicate 23 0 ++ (1 ∷ x ∷ replicate 488 0)) idle complete;
}

asked-HasOctet : (x : ℕ) → HasOctet program (asked x) x
asked-HasOctet x = record {
  rest = replicate 488 0;
  first = 0xaa;
  others = [];
  fuel_is = refl;
  stack_is = refl;
  pdl_is = refl;
  pd_is = refl;
}

rhd_set_record_sensors-all_example :
    rhd_set_record_sensors program record_definition (request 0x30) (asked 255) ≡ none
rhd_set_record_sensors-all_example =
    rhd_set_record_sensors-all (request 0x30) (asked-HasOctet 255) refl two-HasSensors
