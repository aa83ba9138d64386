-- ===== src/Supported/Examples.antt =====
-- A device with three parameters and room for a fourth.
use esp_dmx.Prelude.{ℕ, ◌≡◌, refl, none, some, List, [], ◌∷◌, ◌*◌, arith, length, false}
use esp_dmx.Uid.{uid_null}
use esp_dmx.Packet.{Header}
use esp_dmx.Parameter.{Param, Store, find_device}
use esp_dmx.Responder.{Program, Responder, ack}
use esp_dmx.Responder.Fresh.{empty_param}
use esp_dmx.Buffer.{idle}
use esp_dmx.Send.{complete}
use esp_dmx.Send.Examples as Sent
use esp_dmx.Supported.{words, rhd_get_supported_parameters, get_supported_parameters}
use esp_dmx.Supported.Register.{supported_definition}
use esp_dmx.Supported.Reported.{
  HasParams, optional, pids, rhd_get_supported_parameters-optional,
  get_supported_parameters-required,
}

abbrev with_pid : ℕ → Param
with_pid pid = record empty_param { pid = pid }

abbrev front : List Param
front = with_pid 1 ∷ with_pid 0x00e0 ∷ with_pid 0x8001 ∷ []

abbrev three_params : Store
three_params = record {
  count_root = 4;
  count_subs = 0;
  count_staged = 0;
  root = record {
    num = 0;
    params = with_pid 1 ∷ with_pid 0x00e0 ∷ with_pid 0x8001 ∷ empty_param ∷ [];
  };
  subs = [];
  heap = [];
}

has_params : HasParams three_params 0 front
unfolding find_device
has_params = record {
  device = three_params.root;
  end = empty_param;
  rest = [];
  num_fits = omega arith;
  device_found = refl;
  params_are = refl;
  all_used = (omega arith, (omega arith, (omega arith, tt)));
  end_is = refl;
  few = omega arith;
}

abbrev program : Program
program = record { fuel = 3; definitions = λ a. none; ports = []; stack = [] }

abbrev request : Header
request = record {
  message_len = 24;
  dest_uid = uid_null;
  src_uid = uid_null;
  tn = 0;
  port_id = 1;
  message_count = 0;
  sub_device = 0;
  cc = 0x20;
  pid = 0x0050;
  pdl = 0;
}

abbrev responder : Responder
responder = record {
  uid = uid_null;
  parameters = three_params;
  boot_loader = false;
  last_request_pid = 0;
  last_request_pid_repeats = 0;
  queued = 0;
  mux = 0;
  driver = Sent.driver [] idle complete;
}

rhd_get_supported_parameters-optional_example :
    let reported = optional (pids front) in
    rhd_get_supported_parameters program supported_definition request responder
    ≡ ack program request (some (b'w' ∷ [])) (some (words reported)) (length reported * 2) responder
rhd_get_supported_parameters-optional_example =
    rhd_get_supported_parameters-optional program supported_definition request responder has_params
      (omega arith)

get_supported_parameters-required_example : get_supported_parameters three_params 20 ≡ some ([], 6)
get_supported_parameters-required_example = get_supported_parameters-required 20 has_params refl
