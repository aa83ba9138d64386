-- ===== src/Responder/Register.antt =====
-- Defining a parameter and registering those of discovery: rdm_definition_set of
-- src/rdm/responder/utils.c and the functions of src/rdm/responder/discovery.c.
use esp_dmx.Prelude.{
  ℕ, Bool, true, false, ◌&&◌, ◌||◌, Option, none, some, List, [], ◌∷◌, ltb, leb, if◌then◌else◌,
  ◌>>=◌, assert, get_elem?, set,
}
use esp_dmx.Format.{format_is_valid}
use esp_dmx.Packet.Write.{is_some}
use esp_dmx.Parameter.{Param, Store, dynamic, static, get_entry, put_params, add}
use esp_dmx.Parameter.Access.{get_data}
use esp_dmx.Parameter.Callback.{callback_set}
use esp_dmx.Responder.{PidCc, disc, get, set_, get_set, discovery, Command, Definition}

-- A definition has the handlers that its command classes need.
unfoldable pub has_handlers : Definition → PidCc → Bool
has_handlers d disc = is_some d.get_.handler
has_handlers d get = is_some d.get_.handler
has_handlers d set_ = is_some d.set_command.handler
has_handlers d get_set = is_some d.get_.handler && is_some d.set_command.handler

-- The assertions that need no format.
unfoldable pub definition_is_ok : Definition → Bool
definition_is_ok d =
    (leb d.ds 0x08 || (leb 0x80 d.ds && leb d.ds 0xdf))
    && has_handlers d d.pid_cc
    && ltb d.pdl_size 232
    && (leb d.units 0x1c || (leb 0x80 d.units && leb d.units 0xff))
    && (leb d.prefix 0x0a || (leb 0x11 d.prefix && leb d.prefix 0x1a))

abbrev pub define_found : Store → ℕ → ℕ → Option (List Param × ℕ) → Option (Bool × Store)
define_found s n address none = some (false, s)
define_found s n address (some (ps, i)) = get_elem? ps i >>= λ p.
    some (true, put_params s n (set ps i (record p { definition = some address })))

-- `rdm_definition_set` of a definition that stands at an address.
unfoldable pub definition_set : Store → ℕ → ℕ → ℕ → Definition → Option (Bool × Store)
definition_set s n pid address d = format_is_valid d.get_.request_format >>= λ a.
    format_is_valid d.get_.response_format >>= λ b.
    format_is_valid d.set_command.request_format >>= λ c.
    format_is_valid d.set_command.response_format >>= λ e.
    assert (definition_is_ok d && (a && b) && (c && e))
      (get_entry s n pid >>= define_found s n address)

abbrev pub no_command : Command
no_command = record { handler = none; request_format = none; response_format = none }

abbrev pub branch_definition : Definition
branch_definition = record {
  pid_cc = disc;
  get_ = record {
    handler = some discovery;
    request_format = some (b'u' ∷ b'u' ∷ b'$' ∷ []);
    response_format = none;
  };
  set_command = no_command;
  ds = 0;
  pdl_size = 12;
  max_value = 0;
  min_value = 0;
  default_value = 0;
  units = 0;
  prefix = 0;
  description = none;
}

abbrev pub mute_definition : Definition
mute_definition = record {
  pid_cc = disc;
  get_ = record {
    handler = some discovery;
    request_format = none;
    response_format = some (b'w' ∷ b'v' ∷ []);
  };
  set_command = no_command;
  ds = 0;
  pdl_size = 0;
  max_value = 0;
  min_value = 0;
  default_value = 0;
  units = 0;
  prefix = 0;
  description = none;
}

-- What follows the addition of the parameter.
unfoldable pub define_added :
    ℕ → ℕ → Definition → Option ℕ → Option ℕ → Bool × Store → Option (Bool × Store)
define_added pid address d callback context (added, s) =
    if added
    then (definition_set s 0 pid address d >>= λ (defined, s').
        callback_set s' 0 pid callback context)
    else some (false, s)

-- `rdm_register_disc_unique_branch`; `address` is where the function's static definition stands,
-- and `memory` says whether `malloc` succeeds.
unfoldable pub register_disc_unique_branch :
    Bool → Store → ℕ → Option ℕ → Option ℕ → Option (Bool × Store)
register_disc_unique_branch memory s address callback context =
    add memory s 0 1 static none 0 >>= define_added 1 address branch_definition callback context

-- The parameter is added as an alias of its counterpart's data, or with an octet of its own, which
-- is 0 as fresh memory is.
unfoldable pub add_mute : Bool → Store → ℕ → Option ℕ → Option (Bool × Store)
add_mute memory s pid none = add memory s 0 pid dynamic none 1
add_mute memory s pid (some b) = add memory s 0 pid static (some b) 1

-- `rdm_register_disc_mute`
unfoldable pub register_disc_mute : Bool → Store → ℕ → Option ℕ → Option ℕ → Option (Bool × Store)
register_disc_mute memory s address callback context = get_data s 0 3 >>= λ un_mute.
    add_mute memory s 2 un_mute >>= define_added 2 address mute_definition callback context

-- `rdm_register_disc_un_mute`
unfoldable pub register_disc_un_mute :
    Bool → Store → ℕ → Option ℕ → Option ℕ → Option (Bool × Store)
register_disc_un_mute memory s address callback context = get_data s 0 2 >>= λ mute.
    add_mute memory s 3 mute >>= define_added 3 address mute_definition callback context
