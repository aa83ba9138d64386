-- ===== src/Supported/Register.antt =====
-- The registrations of src/rdm/responder/rdm_info.c.
use esp_dmx.Prelude.{ℕ, Bool, Option, none, some, [], ◌∷◌, List, ◌>>=◌}
use esp_dmx.Parameter.{Store, static, add}
use esp_dmx.Responder.{get, supported_parameters, parameter_description, Definition}
use esp_dmx.Responder.Register.{define_added, no_command}
use esp_dmx.Supported.{pid_supported_parameters, pid_parameter_description}

abbrev pub supported_definition : Definition
supported_definition = record {
  pid_cc = get;
  get_ = record {
    handler = some supported_parameters;
    request_format = none;
    response_format = some (b'w' ∷ []);
  };
  set_command = no_command;
  ds = 5;
  pdl_size = 0;
  max_value = 0;
  min_value = 0;
  default_value = 0;
  units = 0;
  prefix = 0;
  description = none;
}

-- "wbbbx00bbddda"
abbrev pub description_format : List ℕ
description_format =
    b'w' ∷ b'b' ∷ b'b' ∷ b'b' ∷ b'x' ∷ b'0' ∷ b'0' ∷ b'b' ∷ b'b' ∷ b'd' ∷ b'd' ∷ b'd' ∷ b'a' ∷ []

abbrev pub parameter_definition : Definition
parameter_definition = record {
  pid_cc = get;
  get_ = record {
    handler = some parameter_description;
    request_format = some (b'w' ∷ b'$' ∷ []);
    response_format = some description_format;
  };
  set_command = no_command;
  ds = 2;
  pdl_size = 2;
  max_value = 0xffdf;
  min_value = 0x8000;
  default_value = 0;
  units = 0;
  prefix = 0;
  description = none;
}

-- `rdm_register_supported_parameters`
unfoldable pub register_supported_parameters :
    Bool → Store → ℕ → Option ℕ → Option ℕ → Option (Bool × Store)
register_supported_parameters memory s address callback context =
    add memory s 0 pid_supported_parameters static none 0 >>= λ x.
    define_added pid_supported_parameters address supported_definition callback context x

-- `rdm_register_parameter_description`
unfoldable pub register_parameter_description :
    Bool → Store → ℕ → Option ℕ → Option ℕ → Option (Bool × Store)
register_parameter_description memory s address callback context =
    add memory s 0 pid_parameter_description static none 0 >>= λ x.
    define_added pid_parameter_description address parameter_definition callback context x
