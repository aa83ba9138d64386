-- ===== src/Product.antt =====
-- What a device says about itself: src/rdm/responder/product_info.c. Text that a program passes is
-- the memory at its address, `none` for a null pointer.
pub mod Register
pub mod Language
pub mod Label
pub mod Examples
use esp_dmx.Prelude.{
  ℕ, ◌+◌, ◌%◌, ◌/◌, Bool, true, false, not, ◌&&◌, Option, none, some, List, [], ◌∷◌, ◌++◌, ltb,
  ◌==◌, if◌then◌else◌, ◌>>=◌, get_or, get_elem?, replicate, take,
}
use esp_dmx.Format.{strnlen}
use esp_dmx.Packet.{Header, get_command, sub_device_root}
use esp_dmx.Parameter.{Store, sub_device_get_count}
use esp_dmx.Parameter.Access.{get_data, parameter_size, parameter_copy, parameter_set}
use esp_dmx.Responder.{
  Definition, Responder, Program, ack, nack, read_request, block_of, nr_format_error,
  nr_hardware_fault,
}
use esp_dmx.Sensors.{le16, read_octets, sensor_get_count}
use esp_dmx.Setup.{Setting, not_set, setting, get_dmx_personality, get_footprint, get_start_address}
use esp_dmx.Supported.{copied_text}

abbrev pub pid_device_info : ℕ
pid_device_info = 0x0060

abbrev pub pid_device_model_description : ℕ
pid_device_model_description = 0x0080

abbrev pub pid_manufacturer_label : ℕ
pid_manufacturer_label = 0x0081

abbrev pub pid_device_label : ℕ
pid_device_label = 0x0082

abbrev pub pid_language : ℕ
pid_language = 0x00b0

abbrev pub pid_software_version_label : ℕ
pid_software_version_label = 0x00c0

-- The stored product info, or what -1 is in its fields.
abbrev pub product_found : Store → Option ℕ → Option (List ℕ)
product_found s none = some (replicate 8 0xff)
product_found s (some b) = get_elem? s.heap b >>= λ block. read_octets 0 8 block

-- The two octets of the personality, or zeros.
abbrev pub personality_found : ℕ × List ℕ → Option (ℕ × ℕ)
personality_found (size, octets) =
    if size == 0
    then some (0, 0)
    else (get_elem? octets 0 >>= λ current. get_elem? octets 1 >>= λ count. some (current, count))

abbrev pub footprint_now : Store → ℕ → Option ℕ
footprint_now s current = if ltb 0 current then get_footprint s current else some 0

-- `rdm_get_device_info` with a destination that held `memory`: the size, and the
-- `rdm_device_info_t` there, of which the two octets of the version are not set.
unfoldable pub get_device_info : Store → List ℕ → Option (ℕ × List ℕ)
get_device_info s memory =
    get_data s sub_device_root pid_device_info >>= product_found s >>= λ product.
    get_dmx_personality s >>= personality_found >>= λ (current, count).
    footprint_now s current >>= λ footprint. get_start_address s >>= λ start.
    sensor_get_count s sub_device_root >>= λ sensors. some (
      19,
      (get_or memory 0 0 ∷ get_or memory 1 0 ∷ product)
          ++ (le16 footprint
              ++ (current
                  ∷ count
                  ∷ (le16 start ++ (le16 (sub_device_get_count s) ++ (sensors ∷ []))))),
    )

-- `rdm_rhd_get_device_info`
unfoldable pub rhd_get_device_info :
    Program → Definition → Header → Responder → Option (ℕ × Responder)
rhd_get_device_info p d h r = get_device_info r.parameters p.stack >>= λ (pdl, info).
    if not (pdl == 19)
    then nack p h nr_hardware_fault r
    else ack p h d.get_.response_format (some info) pdl r

-- The branch of `rdm_rhd_get_set_language` for SET.
unfoldable pub write_language : Program → Definition → Header → Responder → Option (ℕ × Responder)
write_language p d h r =
    if not (h.pdl == 2)
    then nack p h nr_format_error r
    else (read_request p d.set_command.request_format 3 3 r >>= λ (n, m).
        if n == 0
        then nack p h nr_format_error r
        else (parameter_set r.parameters sub_device_root h.pid (some m) 3 >>= λ (k, s).
            ack p h none none 0 (record r { parameters = s })))

-- `rdm_rhd_get_set_language`
unfoldable pub rhd_get_set_language :
    Program → Definition → Header → Responder → Option (ℕ × Responder)
rhd_get_set_language p d h r =
    if h.cc == get_command
    then (parameter_size r.parameters h.sub_device h.pid >>= λ pdl.
        get_data r.parameters h.sub_device h.pid >>= λ at.
        block_of r.parameters at >>= λ pd. ack p h d.get_.response_format pd pdl r)
    else write_language p d h r

-- `rdm_get_device_label`, with a destination of `size` octets, and those of the other labels, which
-- want a size above 0.
unfoldable pub get_device_label : Store → ℕ → Option (ℕ × List ℕ)
get_device_label s size = parameter_copy s sub_device_root pid_device_label size

abbrev pub label_copy : Store → ℕ → ℕ → Option (ℕ × List ℕ)
label_copy s pid size =
    if ltb 0 size then parameter_copy s sub_device_root pid size else some (0, [])

unfoldable pub get_software_version_label : Store → ℕ → Option (ℕ × List ℕ)
get_software_version_label s size = label_copy s pid_software_version_label size

unfoldable pub get_manufacturer_label : Store → ℕ → Option (ℕ × List ℕ)
get_manufacturer_label s size = label_copy s pid_manufacturer_label size

unfoldable pub get_device_model_description : Store → ℕ → Option (ℕ × List ℕ)
get_device_model_description s size = label_copy s pid_device_model_description size

-- `rdm_get_language` with a destination.
unfoldable pub get_language : Store → Option (ℕ × List ℕ)
get_language s = parameter_copy s sub_device_root pid_language 3

-- `rdm_set_device_label`
unfoldable pub set_device_label : Store → Option (List ℕ) → ℕ → Option Setting
set_device_label s label size =
    parameter_set s sub_device_root pid_device_label label size >>= λ written.
    some (setting pid_device_label written)

-- The check of a language: its length is not 2.
abbrev pub language_passes : List ℕ → Option Bool
language_passes text = strnlen 3 text >>= λ n. some (not (n == 2))

-- `rdm_set_language`, which writes the parameter DEVICE_LABEL.
unfoldable pub set_language : Store → Option (List ℕ) → Option Setting
set_language s none = none
set_language s (some text) = language_passes text >>= λ passes.
    if not passes
    then some (not_set s)
    else (copied_text 2 text >>= λ two.
        parameter_set s sub_device_root pid_device_label (some (two ++ (0 ∷ []))) 3 >>= λ written.
        some (setting pid_device_label written))
