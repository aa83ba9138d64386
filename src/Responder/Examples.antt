-- ===== src/Responder/Examples.antt =====
-- The responder's theorems at a device with the parameters of discovery.
use esp_dmx.Prelude.{
  ℕ, ◌<◌, ◌≡◌, refl, true, false, Option, none, some, List, [], ◌∷◌, arith, replicate, inl,
}
use esp_dmx.Uid.{
  uid_is_null, Uid, IsUid, uid_null, uid_max, uid_is_lt, uid_is_gt, uid_is_eq, uid_is_target,
  uid_is_broadcast,
}
use esp_dmx.Packet.{Header, IsHeader, cc_is_valid, cc_is_request}
use esp_dmx.Packet.Read.{read_header}
use esp_dmx.Packet.Frame.{packet, read_header-packet}
use esp_dmx.Packet.Discovery.{response_from}
use esp_dmx.Packet.Examples.{set_address, get_address, get_address-IsHeader, responder}
use esp_dmx.Buffer.{idle, sending}
use esp_dmx.Send.{Driver, complete}
use esp_dmx.Send.Examples as Sent
use esp_dmx.Send.Sizes.{IsReady}
use esp_dmx.Parameter.{Param, static, Store, find_device, find_param, device_get, get_entry}
use esp_dmx.Parameter.Access.{parameter_copy}
use esp_dmx.Response.{write_nack_reason}
use esp_dmx.Response.Reply.{IsRequest}
use esp_dmx.Responder.{
  Definition, Responder, Program, disc, Handler, is_muted, rhd_discovery, nr_unknown_pid,
}
use esp_dmx.Parameter.Callback.{definition_get}
use esp_dmx.Responder.Fresh.{fresh, register_discovery, register_discovery-HasMute}
use esp_dmx.Responder.Dispatch.{World, Outcome, send_response}
use esp_dmx.Responder.Branch.Request.{Stamp, Asked, branch_packet, branch_format, in_range}
use esp_dmx.Responder.Branch.Found.{send_response-found, send_response-silent}
use esp_dmx.Responder.Refusal.{IsMissing, refusal, send_response-unknown}
use esp_dmx.Responder.Mute.{HasMute, mute_format, mute_reply, rhd_discovery-mute}

abbrev param : ℕ → ℕ → Option ℕ → Param
param pid size data_ = record {
  pid = pid;
  size = size;
  data_ = data_;
  kind = static;
  definition = some pid;
  callback = none;
  context = none;
}

-- DISC_UNIQUE_BRANCH, DISC_MUTE and DISC_UN_MUTE; the octet is whether the device is muted.
abbrev table : ℕ → Store
table muted = record {
  count_root = 3;
  count_subs = 0;
  count_staged = 0;
  root = record { num = 0; params = param 1 0 none ∷ param 2 1 (some 0) ∷ param 3 1 (some 0) ∷ [] };
  subs = [];
  heap = (muted ∷ []) ∷ [];
}

abbrev definition : Definition
definition = record {
  pid_cc = disc;
  get_ = record {
    handler = some Handler.discovery;
    request_format = some branch_format;
    response_format = some mute_format;
  };
  set_command = record { handler = none; request_format = none; response_format = none };
  ds = 0;
  pdl_size = 12;
  max_value = 0;
  min_value = 0;
  default_value = 0;
  units = 0;
  prefix = 0;
  description = none;
}

abbrev program : Program
program = record {
  fuel = 2;
  definitions = λ a. some definition;
  ports = responder ∷ [];
  stack = replicate 12 0;
}

abbrev device : ℕ → List ℕ → Responder
device muted data_ = record {
  uid = responder;
  parameters = table muted;
  boot_loader = false;
  last_request_pid = 0;
  last_request_pid_repeats = 0;
  queued = 0;
  mux = 0;
  driver = Sent.driver data_ idle complete;
}

abbrev world : World
world = record {
  mutex_taken = true;
  sending = record Sent.world { now = 1500 };
  spacing = 5800;
  behind_wait = λ d. record d { status = idle; progress = complete };
  handle = λ f d h r. none;
}

abbrev controller : Uid
controller = set_address.src_uid

abbrev second_port : Stamp
second_port = record { tn = 9; port_id = 2; message_count = 0 }

abbrev asked : ℕ → Responder
asked muted = device muted (branch_packet controller second_port uid_null uid_max (replicate 475 0))

fits : (u : Uid) → u.man_id < 65536 → u.dev_id < 4294967296 → IsUid u
fits u h k = record { man_fits = h; dev_fits = k }

asked_lem :
    (muted : ℕ)
    → Asked program controller second_port uid_null uid_max (replicate 475 0) (asked muted)
unfolding get_entry device_get find_device find_param
asked_lem muted = record {
  fuel = 1;
  fuel_is = refl;
  stack_fits = omega arith;
  buffer_is = refl;
  buffer_fits = refl;
  uid_fits = fits responder (omega arith) (omega arith);
  src_fits = fits controller (omega arith) (omega arith);
  lo_fits = fits uid_null (omega arith) (omega arith);
  hi_fits = fits uid_max (omega arith) (omega arith);
  stamp_fits = record {
    tn_fits = omega arith;
    port_id_fits = omega arith;
    message_count_fits = omega arith;
  };
  params = (table muted).root.params;
  index = 0;
  entry = param 1 0 none;
  address = 1;
  definition = definition;
  entry_found = refl;
  entry_at = refl;
  defined = refl;
  definition_at = refl;
  is_disc = refl;
  handled = refl;
  format_is = refl;
}

muted_lem : is_muted (table 1) ≡ some true
unfolding is_muted parameter_copy get_entry device_get find_device find_param
muted_lem = refl

un_muted_lem : is_muted (table 0) ≡ some false
unfolding is_muted parameter_copy get_entry device_get find_device find_param
un_muted_lem = refl

within : in_range uid_null uid_max responder ≡ true
unfolding uid_is_lt uid_is_gt
within = refl

ready : (data_ : List ℕ) → IsReady world.sending (Sent.driver data_ idle complete) false
ready data_ = record { taken = refl; quiet = refl; wakes = refl; in_time = λ e. omega arith }

send_response-found_example :
    (o : Outcome) × (d : Driver) × (send_response world program (asked 0) ≡ some o)
    × (o.responded ≡ true)
    × (o.sent ≡ some d)
    × (read_header d.data_ ≡ some (response_from responder))
    × (d.status ≡ sending)
    × (d.size ≡ 24)
    × (o.responder.driver ≡ record (world.behind_wait d) { rts = 1 })
    × (o.awaits_break ≡ true)
send_response-found_example =
    send_response-found world program controller second_port uid_null uid_max (replicate 475 0)
      (asked 0) (asked_lem 0) refl un_muted_lem within (ready (asked 0).driver.data_)

send_response-silent_example :
    (o : Outcome) × (send_response world program (asked 1) ≡ some o)
    × (o.responded ≡ false)
    × (o.given ≡ none)
    × (o.responder.driver ≡ (asked 1).driver)
    × (o.responder.parameters ≡ table 1)
send_response-silent_example =
    send_response-silent world program controller second_port uid_null uid_max (replicate 475 0)
      (asked 1) true (asked_lem 1) refl muted_lem refl

changed-IsHeader :
    (cc port_id pid : ℕ)
    → cc < 256
    → port_id < 256
    → pid < 65536
    → IsHeader (record get_address { cc = cc; port_id = port_id; pid = pid })
changed-IsHeader cc port_id pid a b c = record {
  message_len_fits = omega arith;
  dest_fits = get_address-IsHeader.dest_fits;
  src_fits = get_address-IsHeader.src_fits;
  tn_fits = omega arith;
  port_id_fits = b;
  message_count_fits = omega arith;
  sub_device_fits = omega arith;
  cc_fits = a;
  pid_fits = c;
  pdl_fits = omega arith;
}

-- A packet with GET DMX_START_ADDRESS to the device, or the response to it.
abbrev response : Header
response = record get_address { cc = 0x21; port_id = 0 }

abbrev holds : Header → Responder
holds h = device 0 (packet h [] (replicate 487 0))

missing : get_entry (table 0) 0 0xf0 ≡ some none
unfolding get_entry device_get find_device find_param
missing = refl

to_responder : uid_is_target responder responder ≡ true
unfolding uid_is_target uid_is_eq
to_responder = refl

response-IsMissing : IsMissing world response (holds response)
unfolding cc_is_valid
response-IsMissing = record {
  taken = refl;
  is_rdm =
      read_header-packet response [] (replicate 487 0)
        (changed-IsHeader 0x21 0 0xf0 (omega arith) (omega arith) (omega arith)) refl;
  cc_valid = refl;
  to_me = to_responder;
  missing = missing;
}

response_odd : cc_is_request 0x21 ≡ false
unfolding cc_is_request
response_odd = refl

get-IsMissing : IsMissing world get_address (holds get_address)
unfolding cc_is_valid
get-IsMissing = record {
  taken = refl;
  is_rdm = read_header-packet get_address [] (replicate 487 0) get_address-IsHeader refl;
  cc_valid = refl;
  to_me = to_responder;
  missing = missing;
}

get-IsRequest : IsRequest get_address responder 0
unfolding cc_is_valid cc_is_request
get-IsRequest = record {
  fits = get_address-IsHeader;
  uid_fits = fits responder (omega arith) (omega arith);
  queued_fits = omega arith;
  cc_valid = refl;
  cc_request = refl;
  sub_device_ok = inl (omega arith);
  not_unique_branch = refl;
}

one_device : uid_is_broadcast responder ≡ false
unfolding uid_is_broadcast
one_device = refl

send_response-unknown_example :
    (o : Outcome) × (d : Driver) × (send_response world program (holds get_address) ≡ some o)
    × (o.responded ≡ true)
    × (o.sent ≡ some d)
    × (d.status ≡ sending)
    × (d.size ≡ 28)
    × (write_nack_reason 2 responder 0 get_address nr_unknown_pid (holds get_address).driver.data_
        ≡ some (28, d.data_))
    × (read_header d.data_ ≡ some (refusal get_address (holds get_address)))
    × (o.responder.driver ≡ record (world.behind_wait d) { rts = 1 })
    × (o.awaits_break ≡ true)
send_response-unknown_example =
    send_response-unknown world program get_address (holds get_address) get-IsMissing get-IsRequest
      (omega arith) one_device refl refl (ready (holds get_address).driver.data_)

-- DISC_MUTE to the device.
abbrev mute : Header
mute = record get_address { cc = 0x10; pid = 2 }

mute-IsRequest : IsRequest mute responder 0
unfolding cc_is_valid cc_is_request
mute-IsRequest = record {
  fits = changed-IsHeader 0x10 1 2 (omega arith) (omega arith) (omega arith);
  uid_fits = fits responder (omega arith) (omega arith);
  queued_fits = omega arith;
  cc_valid = refl;
  cc_request = refl;
  sub_device_ok = inl (omega arith);
  not_unique_branch = refl;
}

table-HasMute : HasMute (table 0)
unfolding find_device find_param
table-HasMute = record {
  i = 1;
  j = 2;
  b = 0;
  device = (table 0).root;
  mute = param 2 1 (some 0);
  un_mute = param 3 1 (some 0);
  block = 0 ∷ [];
  has_mute = record {
    num_fits = omega arith;
    pid_pos = omega arith;
    device_found = refl;
    param_found = refl;
    param_at = refl;
    pid_is = refl;
    data_at = refl;
    block_at = refl;
    block_length = omega arith;
  };
  has_un_mute = record {
    num_fits = omega arith;
    pid_pos = omega arith;
    device_found = refl;
    param_found = refl;
    param_at = refl;
    pid_is = refl;
    data_at = refl;
    block_at = refl;
    block_length = omega arith;
  };
  mute_size = refl;
  un_mute_size = refl;
}

rhd_discovery-mute_example :
    (r' : Responder) × (rhd_discovery program definition mute (device 0 (replicate 513 0))
      ≡ some (28, r'))
    × (is_muted r'.parameters ≡ some true)
    × (read_header r'.driver.data_ ≡ some (mute_reply mute (device 0 (replicate 513 0)) 2))
unfolding uid_is_null
rhd_discovery-mute_example =
    rhd_discovery-mute program definition mute (device 0 (replicate 513 0)) true mute-IsRequest refl
      refl refl refl (fits uid_null (omega arith) (omega arith)) table-HasMute refl

no_param : find_param 0 3 [] 3 ≡ some none
unfolding find_param
no_param = refl

register_discovery-HasMute_example :
    (s : Store) × (register_discovery (fresh 0 []) 1 2 3 ≡ some (true, s))
    × HasMute s
    × (is_muted s ≡ some false)
    × (definition_get s 0 1 ≡ some (some 1))
register_discovery-HasMute_example = register_discovery-HasMute 0 [] 1 2 3 no_param
