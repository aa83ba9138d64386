-- ===== src/Control.antt =====
-- Identification, reset and the hours of a device: src/rdm/responder/device_control.c and
-- src/rdm/responder/power_lamp.c. What `dmx_nvs_get` leaves in a variable is an argument, `none`
-- where it returns 0.
use esp_dmx.Prelude.{
  ℕ, ◌/◌, Bool, false, not, ◌&&◌, Option, none, some, List, [], ◌∷◌, ◌++◌, ◌==◌, if◌then◌else◌,
  ◌>>=◌, get_or,
}
use esp_dmx.Packet.{Header, sub_device_root}
use esp_dmx.Parameter.{Store, non_volatile}
use esp_dmx.Parameter.Access.{parameter_copy, parameter_set}
use esp_dmx.Responder.{
  set_, get_set, simple, reset_device, Definition, Responder, Program, pid_disc_mute, ack, nack,
  read_request, nr_format_error,
}
use esp_dmx.Responder.Register.{define_added, no_command}
use esp_dmx.Sensors.{le16}
use esp_dmx.Sensors.Handle.{nr_data_out_of_range}
use esp_dmx.Sensors.Register.{number_format}
use esp_dmx.Setup.{Setting, setting}
use esp_dmx.Setup.Register.{add_local}

abbrev pub pid_device_hours : ℕ
pid_device_hours = 0x0400

abbrev pub pid_lamp_hours : ℕ
pid_lamp_hours = 0x0401

abbrev pub pid_identify_device : ℕ
pid_identify_device = 0x1000

abbrev pub pid_reset_device : ℕ
pid_reset_device = 0x1001

-- RDM_RESET_TYPE_WARM and RDM_RESET_TYPE_COLD
abbrev pub is_reset : ℕ → Bool
is_reset x = not (not (x == 0x01) && not (x == 0xff))

-- What the handler does with the reset type of a request.
unfoldable pub reset : Program → Header → ℕ → Responder → Option (ℕ × Responder)
reset p h x r =
    if not (is_reset x)
    then nack p h nr_data_out_of_range r
    else (parameter_set r.parameters sub_device_root h.pid (some (x ∷ [])) 1 >>= λ (n, s).
        parameter_set s sub_device_root pid_disc_mute (some (0 ∷ [])) 1 >>= λ (m, s').
        ack p h none none 0 (record r { parameters = s' }))

-- `rdm_rhd_set_reset_device`
unfoldable pub rhd_set_reset_device :
    Program → Definition → Header → Responder → Option (ℕ × Responder)
rhd_set_reset_device p d h r = read_request p d.set_command.request_format 1 1 r >>= λ (n, m).
    if n == 0 then nack p h nr_format_error r else reset p h (get_or m 0 0) r

abbrev pub identify_definition : Definition
identify_definition = record {
  pid_cc = get_set;
  get_ = record {
    handler = some simple;
    request_format = none;
    response_format = some number_format;
  };
  set_command = record {
    handler = some simple;
    request_format = some number_format;
    response_format = none;
  };
  ds = 3;
  pdl_size = 1;
  max_value = 1;
  min_value = 0;
  default_value = 0;
  units = 0;
  prefix = 0;
  description = none;
}

abbrev pub reset_definition : Definition
reset_definition = record {
  pid_cc = set_;
  get_ = no_command;
  set_command = record {
    handler = some reset_device;
    request_format = some number_format;
    response_format = none;
  };
  ds = 3;
  pdl_size = 1;
  max_value = 0;
  min_value = 0;
  default_value = 0;
  units = 0;
  prefix = 0;
  description = none;
}

-- "d$"
abbrev pub hours_format : List ℕ
hours_format = b'd' ∷ b'$' ∷ []

-- The definition of both hours, as it is with SET of the device's hours enabled.
abbrev pub hours_definition : Definition
hours_definition = record {
  pid_cc = get_set;
  get_ = record {
    handler = some simple;
    request_format = none;
    response_format = some hours_format;
  };
  set_command = record {
    handler = some simple;
    request_format = some hours_format;
    response_format = none;
  };
  ds = 7;
  pdl_size = 4;
  max_value = 0xffffffff;
  min_value = 0;
  default_value = 0;
  units = 0;
  prefix = 0;
  description = none;
}

-- `rdm_register_identify_device`, which wants a callback.
unfoldable pub register_identify_device :
    Bool → Store → ℕ → Option ℕ → Option ℕ → Option (Bool × Store)
register_identify_device memory s address none context = some (false, s)
register_identify_device memory s address (some callback) context =
    add_local memory s 0 pid_identify_device non_volatile (0 ∷ []) 1 >>= λ x.
    define_added pid_identify_device address identify_definition (some callback) context x

-- `rdm_get_identify_device` with a destination.
unfoldable pub get_identify_device : Store → Option (ℕ × List ℕ)
get_identify_device s = parameter_copy s sub_device_root pid_identify_device 1

-- `rdm_set_identify_device`
unfoldable pub set_identify_device : Store → Bool → Option Setting
set_identify_device s on =
    parameter_set s sub_device_root pid_identify_device (some ((if on then 1 else 0) ∷ [])) 1
    >>= λ written. some (setting pid_identify_device written)

-- `rdm_register_reset_device`
unfoldable pub register_reset_device :
    Bool → Store → ℕ → Option ℕ → Option ℕ → Option (Bool × Store)
register_reset_device memory s address none context = some (false, s)
register_reset_device memory s address (some callback) context =
    add_local memory s 0 pid_reset_device non_volatile (0 ∷ []) 1 >>= λ x.
    define_added pid_reset_device address reset_definition (some callback) context x

-- `rdm_get_reset_device` with a destination.
unfoldable pub get_reset_device : Store → Option (ℕ × List ℕ)
get_reset_device s = parameter_copy s sub_device_root pid_reset_device 1

abbrev pub saved_hours : Option (List ℕ) → List ℕ
saved_hours none = 0 ∷ 0 ∷ 0 ∷ 0 ∷ []
saved_hours (some octets) = octets

unfoldable pub register_hours :
    Bool → Store → ℕ → Option (List ℕ) → ℕ → Option ℕ → Option ℕ → Option (Bool × Store)
register_hours memory s pid saved address callback context =
    add_local memory s 0 pid non_volatile (saved_hours saved) 4 >>= λ x.
    define_added pid address hours_definition callback context x

-- `rdm_register_device_hours`
unfoldable pub register_device_hours :
    Bool → Store → Option (List ℕ) → ℕ → Option ℕ → Option ℕ → Option (Bool × Store)
register_device_hours memory s saved address callback context =
    register_hours memory s pid_device_hours saved address callback context

-- `rdm_register_lamp_hours`
unfoldable pub register_lamp_hours :
    Bool → Store → Option (List ℕ) → ℕ → Option ℕ → Option ℕ → Option (Bool × Store)
register_lamp_hours memory s saved address callback context =
    register_hours memory s pid_lamp_hours saved address callback context

unfoldable pub set_hours : Store → ℕ → ℕ → Option Setting
set_hours s pid v =
    parameter_set s sub_device_root pid (some (le16 v ++ le16 (v / 65536))) 4 >>= λ written.
    some (setting pid written)

-- `rdm_get_device_hours` and `rdm_get_lamp_hours` with a destination.
unfoldable pub get_device_hours : Store → Option (ℕ × List ℕ)
get_device_hours s = parameter_copy s sub_device_root pid_device_hours 4

unfoldable pub get_lamp_hours : Store → Option (ℕ × List ℕ)
get_lamp_hours s = parameter_copy s sub_device_root pid_lamp_hours 4

-- `rdm_set_device_hours` and `rdm_set_lamp_hours`
unfoldable pub set_device_hours : Store → ℕ → Option Setting
set_device_hours s v = set_hours s pid_device_hours v

unfoldable pub set_lamp_hours : Store → ℕ → Option Setting
set_lamp_hours s v = set_hours s pid_lamp_hours v
