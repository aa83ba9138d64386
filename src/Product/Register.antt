-- ===== src/Product/Register.antt =====
-- The registrations of src/rdm/responder/product_info.c.
use esp_dmx.Prelude.{
  ℕ, Bool, true, false, not, Option, none, some, List, [], ◌∷◌, ◌++◌, ltb, if◌then◌else◌, ◌>>=◌,
  get_elem?,
}
use esp_dmx.Format.{strnlen}
use esp_dmx.Parameter.{Store, dynamic, non_volatile, static, add}
use esp_dmx.Parameter.Access.{exists_, get_data}
use esp_dmx.Responder.{get, get_set, simple, device_info, language, Definition, block_of}
use esp_dmx.Responder.Register.{define_added, no_command}
use esp_dmx.Sensors.{le16}
use esp_dmx.Setup.Register.{add_local}
use esp_dmx.Supported.{le32, copied_text}
use esp_dmx.Product.{
  pid_device_info, pid_device_model_description, pid_manufacturer_label, pid_device_label,
  pid_language, pid_software_version_label, language_passes,
}

-- "x01x00wwdwbbwwb$"
abbrev pub info_format : List ℕ
info_format =
    b'x' ∷ b'0' ∷ b'1' ∷ b'x' ∷ b'0' ∷ b'0' ∷ b'w' ∷ b'w' ∷ b'd' ∷ b'w' ∷ b'b' ∷ b'b' ∷ b'w' ∷ b'w'
    ∷ b'b' ∷ b'$' ∷ []

abbrev pub info_definition : Definition
info_definition = record {
  pid_cc = get;
  get_ = record {
    handler = some device_info;
    request_format = none;
    response_format = some info_format;
  };
  set_command = no_command;
  ds = 0;
  pdl_size = 0;
  max_value = 0;
  min_value = 0;
  default_value = 0;
  units = 0;
  prefix = 0;
  description = none;
}

-- "a$"
abbrev pub text_format : List ℕ
text_format = b'a' ∷ b'$' ∷ []

-- The definition of the labels that a controller cannot set.
abbrev pub text_definition : Definition
text_definition = record {
  pid_cc = get;
  get_ = record {
    handler = some simple;
    request_format = none;
    response_format = some text_format;
  };
  set_command = no_command;
  ds = 2;
  pdl_size = 33;
  max_value = 0;
  min_value = 0;
  default_value = 0;
  units = 0;
  prefix = 0;
  description = none;
}

abbrev pub label_definition : Definition
label_definition = record {
  pid_cc = get_set;
  get_ = record {
    handler = some simple;
    request_format = none;
    response_format = some (b'a' ∷ []);
  };
  set_command = record {
    handler = some simple;
    request_format = some (b'a' ∷ []);
    response_format = none;
  };
  ds = 2;
  pdl_size = 32;
  max_value = 0;
  min_value = 0;
  default_value = 0;
  units = 0;
  prefix = 0;
  description = none;
}

abbrev pub language_definition : Definition
language_definition = record {
  pid_cc = get_set;
  get_ = record {
    handler = some language;
    request_format = none;
    response_format = some text_format;
  };
  set_command = record {
    handler = some language;
    request_format = some text_format;
    response_format = none;
  };
  ds = 2;
  pdl_size = 2;
  max_value = 0;
  min_value = 0;
  default_value = 0;
  units = 0;
  prefix = 0;
  description = none;
}

-- `rdm_register_device_info`
unfoldable pub register_device_info :
    Bool → Store → ℕ → ℕ → ℕ → ℕ → Option ℕ → Option ℕ → Option (Bool × Store)
register_device_info memory s model category version address callback context =
    add_local memory s 0 pid_device_info dynamic (le16 model ++ (le16 category ++ le32 version)) 8
    >>= λ x. define_added pid_device_info address info_definition callback context x

-- A text is checked only where the parameter is new.
abbrev pub text_passes : Bool → Option (List ℕ) → Option Bool
text_passes true text = some true
text_passes false none = some false
text_passes false (some text) = strnlen 33 text >>= λ n. some (ltb n 33)

-- `rdm_register_device_label`; `last_` is what the last character of the array held.
unfoldable pub register_device_label :
    Bool → Store → Option (List ℕ) → ℕ → ℕ → Option ℕ → Option ℕ → Option (Bool × Store)
register_device_label memory s label last_ address callback context =
    exists_ s 0 pid_device_label >>= λ known. text_passes known label >>= λ passes.
    if not passes
    then some (false, s)
    else (label >>= λ text. copied_text 32 text >>= λ value.
        add_local memory s 0 pid_device_label non_volatile (value ++ (last_ ∷ [])) 33 >>= λ x.
        define_added pid_device_label address label_definition callback context x)

-- Whether the data of a parameter is not null.
abbrev pub has_data : Store → ℕ → Option Bool
has_data s pid = get_data s 0 pid >>= λ at. some (elim at [ none ↦ false | some b ↦ true ])

-- What the registrations of two labels share.
unfoldable pub register_text :
    Bool → Store → ℕ → Option (List ℕ) → ℕ → Option ℕ → Option ℕ → Option (Bool × Store)
register_text memory s pid label address callback context = has_data s pid >>= λ known.
    text_passes known label >>= λ passes.
    if not passes
    then some (false, s)
    else (label >>= λ text. copied_text 33 text >>= λ value. strnlen 33 text >>= λ size.
        add_local memory s 0 pid dynamic value size >>= λ x.
        define_added pid address text_definition callback context x)

-- `rdm_register_software_version_label`
unfoldable pub register_software_version_label :
    Bool → Store → Option (List ℕ) → ℕ → Option ℕ → Option ℕ → Option (Bool × Store)
register_software_version_label memory s label address callback context =
    register_text memory s pid_software_version_label label address callback context

-- `rdm_register_device_model_description`
unfoldable pub register_device_model_description :
    Bool → Store → Option (List ℕ) → ℕ → Option ℕ → Option ℕ → Option (Bool × Store)
register_device_model_description memory s label address callback context =
    register_text memory s pid_device_model_description label address callback context

-- `rdm_register_manufacturer_label`, of a label in a block, which asks whether the device has a
-- software version label.
unfoldable pub register_manufacturer_label :
    Bool → Store → Option ℕ → ℕ → Option ℕ → Option ℕ → Option (Bool × Store)
register_manufacturer_label memory s at address callback context =
    has_data s pid_software_version_label >>= λ known. block_of s at >>= λ label.
    text_passes known label >>= λ passes.
    if not passes
    then some (false, s)
    else (label >>= λ text. strnlen 33 text >>= λ size.
        add memory s 0 pid_manufacturer_label static at size >>= λ x.
        define_added pid_manufacturer_label address text_definition callback context x)

abbrev pub language_ok : Bool → Option (List ℕ) → Option Bool
language_ok true text = some true
language_ok false none = some false
language_ok false (some text) = language_passes text

-- `rdm_register_language`
unfoldable pub register_language :
    Bool → Store → Option (List ℕ) → ℕ → Option ℕ → Option ℕ → Option (Bool × Store)
register_language memory s code address callback context = has_data s pid_language >>= λ known.
    language_ok known code >>= λ passes.
    if not passes
    then some (false, s)
    else (code >>= λ text. get_elem? text 0 >>= λ a. get_elem? text 1 >>= λ b.
        add_local memory s 0 pid_language dynamic (a ∷ b ∷ 0 ∷ []) 3 >>= λ x.
        define_added pid_language address language_definition callback context x)
