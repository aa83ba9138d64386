-- ===== src/Sensors/Register.antt =====
-- The registrations of src/rdm/responder/sensor_parameter.c.
use esp_dmx.Prelude.{
  ℕ, ◌+◌, ◌*◌, ◌%◌, Bool, true, false, Option, none, some, List, [], ◌∷◌, not, if◌then◌else◌, ◌>>=◌,
}
use esp_dmx.Parameter.{Store, dynamic, static, add}
use esp_dmx.Parameter.Access.{exists_, get_data}
use esp_dmx.Responder.{get, set_, Definition, sensor_value, record_sensors, sensor_definition}
use esp_dmx.Responder.Register.{define_added, no_command}
use esp_dmx.Sensors.{
  pid_sensor_definition, pid_sensor_value, value_size, value_at, definition_size, write_octets,
  modify, get_sensors, count_at, each_up,
}

abbrev pub pid_record_sensors : ℕ
pid_record_sensors = 0x0202

-- "b$", and the formats of the responses.
abbrev pub number_format : List ℕ
number_format = b'b' ∷ b'$' ∷ []

abbrev pub value_format : List ℕ
value_format = b'b' ∷ b'w' ∷ b'w' ∷ b'w' ∷ b'w' ∷ b'$' ∷ []

abbrev pub sensor_format : List ℕ
sensor_format = b'b' ∷ b'b' ∷ b'b' ∷ b'b' ∷ b'w' ∷ b'w' ∷ b'w' ∷ b'w' ∷ b'b' ∷ b'a' ∷ []

abbrev pub value_definition : Definition
value_definition = record {
  pid_cc = get;
  get_ = record {
    handler = some sensor_value;
    request_format = some number_format;
    response_format = some value_format;
  };
  set_command = record {
    handler = some sensor_value;
    request_format = some number_format;
    response_format = some value_format;
  };
  ds = 0;
  pdl_size = 1;
  max_value = 0;
  min_value = 0;
  default_value = 0;
  units = 0;
  prefix = 0;
  description = none;
}

abbrev pub record_definition : Definition
record_definition = record {
  pid_cc = set_;
  get_ = no_command;
  set_command = record {
    handler = some record_sensors;
    request_format = some number_format;
    response_format = none;
  };
  ds = 0;
  pdl_size = 1;
  max_value = 0;
  min_value = 0;
  default_value = 0;
  units = 0;
  prefix = 0;
  description = none;
}

abbrev pub sensor_definition_definition : Definition
sensor_definition_definition = record {
  pid_cc = get;
  get_ = record {
    handler = some sensor_definition;
    request_format = some number_format;
    response_format = some sensor_format;
  };
  set_command = no_command;
  ds = 0;
  pdl_size = 1;
  max_value = 0;
  min_value = 0;
  default_value = 0;
  units = 0;
  prefix = 0;
  description = none;
}

-- `sensor_count` and the number of each sensor; the loop's counter is stored in an octet.
unfoldable pub put_number : ℕ → List ℕ → Option (List ℕ)
put_number k block = write_octets (value_at k) ((k % 256) ∷ []) block

unfoldable pub number_sensors : ℕ → List ℕ → Option (List ℕ)
number_sensors count block =
    write_octets 0 (count ∷ []) block >>= λ block'. each_up put_number count 0 block'

-- What `rdm_register_sensor_value` does with an added parameter; no data is a failed assertion.
unfoldable pub values_added : ℕ → ℕ → Option ℕ → Option ℕ → Bool × Store → Option (Bool × Store)
values_added count address callback context (added, s) =
    if not added
    then some (false, s)
    else (get_sensors s 0 >>= λ at. at >>= λ b. modify s b (number_sensors count) >>= λ s'.
        define_added pid_sensor_value address value_definition callback context (true, s'))

-- `rdm_register_sensor_value`
unfoldable pub register_sensor_value :
    Bool → Store → ℕ → ℕ → Option ℕ → Option ℕ → Option (Bool × Store)
register_sensor_value memory s count address callback context =
    add memory s 0 pid_sensor_value dynamic none (1 + value_size * count) >>= λ x.
    values_added count address callback context x

-- `rdm_register_record_sensors`
unfoldable pub register_record_sensors :
    Bool → Store → ℕ → Option ℕ → Option ℕ → Option (Bool × Store)
register_record_sensors memory s address callback context =
    add memory s 0 pid_record_sensors static none 0 >>= λ x.
    define_added pid_record_sensors address record_definition callback context x

-- The loop that marks the sensors as not defined.
unfoldable pub unset_one : ℕ → List ℕ → Option (List ℕ)
unset_one k block = write_octets (k * definition_size) (0xff ∷ []) block

abbrev pub unset_all : Bool → ℕ → Store → Option Store
unset_all false count s = some s
unset_all true count s =
    get_data s 0 pid_sensor_definition >>= λ at. at >>= λ b. modify s b (each_up unset_one count 0)

unfoldable pub definitions_added :
    Bool → ℕ → ℕ → Option ℕ → Option ℕ → Bool × Store → Option (Bool × Store)
definitions_added first count address callback context (added, s) =
    if not added
    then some (false, s)
    else (unset_all first count s >>= λ s'.
        define_added pid_sensor_definition address sensor_definition_definition callback context
          (true, s'))

abbrev pub definitions_for :
    Bool → Store → ℕ → Option ℕ → Option ℕ → Option ℕ → Option (Bool × Store)
definitions_for memory s address callback context none = some (false, s)
definitions_for memory s address callback context (some b) =
    exists_ s 0 pid_sensor_definition >>= λ first. count_at s b >>= λ count.
    add memory s 0 pid_sensor_definition dynamic none (definition_size * count) >>= λ x.
    definitions_added first count address callback context x

-- `rdm_register_sensor_definition`, where `first_time_func_called` is whether the parameter exists.
unfoldable pub register_sensor_definition :
    Bool → Store → ℕ → Option ℕ → Option ℕ → Option (Bool × Store)
register_sensor_definition memory s address callback context =
    get_sensors s 0 >>= λ at. definitions_for memory s address callback context at
