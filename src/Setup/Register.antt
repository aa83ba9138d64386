-- ===== src/Setup/Register.antt =====
-- The registrations of src/rdm/responder/dmx_setup.c. What `dmx_nvs_get` leaves in a variable is an
-- argument: the octets that were saved, or `none` where it returns 0.
use esp_dmx.Prelude.{
  ℕ, zero, suc, ◌+◌, ◌*◌, Bool, true, false, not, ◌&&◌, Option, none, some, List, [], ◌∷◌, ◌++◌,
  ltb, ◌==◌, if◌then◌else◌, ◌>>=◌, length, get_elem?,
}
use esp_dmx.Parameter.{Kind, dynamic, non_volatile, Store, add}
use esp_dmx.Parameter.Access.{exists_}
use esp_dmx.Responder.{get, get_set, simple, personality, personality_description, Definition}
use esp_dmx.Responder.Register.{define_added, no_command}
use esp_dmx.Sensors.{le16}
use esp_dmx.Sensors.Register.{number_format}
use esp_dmx.Setup.{
  pid_dmx_personality, pid_dmx_personality_description, pid_dmx_start_address, dmx_packet_size_max,
  description_size, word_at, get_current_personality, get_footprint,
}

-- `dmx_parameter_add` with a copy of a local variable, which is a block that nothing points to
-- afterwards.
unfoldable pub add_local : Bool → Store → ℕ → ℕ → Kind → List ℕ → ℕ → Option (Bool × Store)
add_local memory s n pid kind octets size =
    add memory (record s { heap = s.heap ++ (octets ∷ []) }) n pid kind (some (length s.heap)) size

abbrev pub personality_definition : Definition
personality_definition = record {
  pid_cc = get_set;
  get_ = record {
    handler = some simple;
    request_format = none;
    response_format = some (b'b' ∷ b'b' ∷ b'$' ∷ []);
  };
  set_command = record {
    handler = some personality;
    request_format = some number_format;
    response_format = none;
  };
  ds = 0;
  pdl_size = 2;
  max_value = 0;
  min_value = 0;
  default_value = 0;
  units = 0;
  prefix = 0;
  description = none;
}

abbrev pub description_definition : Definition
description_definition = record {
  pid_cc = get;
  get_ = record {
    handler = some personality_description;
    request_format = some number_format;
    response_format = some (b'b' ∷ b'w' ∷ b'a' ∷ []);
  };
  set_command = no_command;
  ds = 0;
  pdl_size = 0;
  max_value = 0;
  min_value = 0;
  default_value = 0;
  units = 0;
  prefix = 0;
  description = none;
}

-- "w$"
abbrev pub word_format : List ℕ
word_format = b'w' ∷ b'$' ∷ []

abbrev pub start_address_definition : Definition
start_address_definition = record {
  pid_cc = get_set;
  get_ = record {
    handler = some simple;
    request_format = none;
    response_format = some word_format;
  };
  set_command = record {
    handler = some simple;
    request_format = some word_format;
    response_format = none;
  };
  ds = 5;
  pdl_size = 2;
  max_value = 512;
  min_value = 1;
  default_value = 0;
  units = 0;
  prefix = 0;
  description = none;
}

-- The personality that was saved, if it was saved with the same count.
abbrev pub loaded_personality : Option (List ℕ) → ℕ → Option (List ℕ)
loaded_personality none count = some (1 ∷ count ∷ [])
loaded_personality (some saved) count =
    get_elem? saved 1 >>= λ old. some (if old == count then saved else 1 ∷ count ∷ [])

-- `rdm_register_dmx_personality`
unfoldable pub register_dmx_personality :
    Bool → Store → Option (List ℕ) → ℕ → ℕ → Option ℕ → Option ℕ → Option (Bool × Store)
register_dmx_personality memory s saved count address callback context =
    loaded_personality saved count >>= λ octets.
    add_local memory s 0 pid_dmx_personality non_volatile octets 2 >>= λ x.
    define_added pid_dmx_personality address personality_definition callback context x

-- The loop that checks `n` descriptions in a block from index `i` on.
unfoldable pub descriptions_are_ok : ℕ → ℕ → List ℕ → Option Bool
descriptions_are_ok zero i block = some true
descriptions_are_ok (suc n) i block =
    let rest = descriptions_are_ok n (i + 1) block in
    get_elem? block (i * description_size) >>= λ num.
    word_at block (i * description_size + 1) >>= λ footprint.
    if num == i + 1 && (ltb 0 footprint && ltb footprint dmx_packet_size_max)
    then rest
    else some false

-- The check of the caller's array, which a parameter that exists does without.
abbrev pub descriptions_checked : Bool → Store → Option ℕ → ℕ → Option Bool
descriptions_checked true s at count = some true
descriptions_checked false s none zero = some true
descriptions_checked false s none (suc n) = none
descriptions_checked false s (some b) count =
    get_elem? s.heap b >>= λ block. descriptions_are_ok count 0 block

-- `rdm_register_dmx_personality_description`
unfoldable pub register_dmx_personality_description :
    Bool → Store → Option ℕ → ℕ → ℕ → Option ℕ → Option ℕ → Option (Bool × Store)
register_dmx_personality_description memory s at count address callback context =
    exists_ s 0 pid_dmx_personality_description >>= λ known.
    descriptions_checked known s at count >>= λ ok.
    if not ok
    then some (false, s)
    else (add memory s 0 pid_dmx_personality_description dynamic at (count * description_size)
        >>= λ x.
            define_added pid_dmx_personality_description address description_definition callback
              context x)

abbrev pub loaded_address : Option (List ℕ) → Option ℕ
loaded_address none = some 1
loaded_address (some saved) = word_at saved 0

-- The start address is 1 where the footprint does not fit behind the one that was saved.
unfoldable pub fitting_address : Store → ℕ → Option ℕ
fitting_address s a = get_current_personality s >>= λ current.
    if ltb 0 current
    then (get_footprint s current >>= λ footprint.
        some (if ltb dmx_packet_size_max (a + footprint) then 1 else a))
    else some a

-- `rdm_register_dmx_start_address`
unfoldable pub register_dmx_start_address :
    Bool → Store → Option (List ℕ) → ℕ → Option ℕ → Option ℕ → Option (Bool × Store)
register_dmx_start_address memory s saved address callback context = loaded_address saved >>= λ a.
    fitting_address s a >>= λ a'.
    add_local memory s 0 pid_dmx_start_address non_volatile (le16 a') 2 >>= λ x.
    define_added pid_dmx_start_address address start_address_definition callback context x
