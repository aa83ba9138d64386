-- ===== src/Setup.antt =====
-- The DMX start address and the personalities of a device: src/dmx/device.c and the functions of
-- src/rdm/responder/dmx_setup.c that a program calls. `none` is a failed assertion, or a read of
-- what is not there or was not set.
pub mod Handle
pub mod Register
pub mod Personality
pub mod Address
pub mod Registered
pub mod StartAddress
pub mod Examples
use esp_dmx.Prelude.{
  ℕ, ◌+◌, ◌-◌, ◌*◌, ◌/◌, ◌%◌, Bool, true, false, not, ◌&&◌, ◌||◌, Option, none, some, List, [], ◌∷◌,
  ltb, leb, ◌==◌, if◌then◌else◌, ◌>>=◌, get_elem?, set,
}
use esp_dmx.Packet.{sub_device_root}
use esp_dmx.Parameter.{Store}
use esp_dmx.Parameter.Access.{parameter_size, get_data, parameter_copy, parameter_set}
use esp_dmx.Sensors.{le16, read_octets}

abbrev pub pid_dmx_personality : ℕ
pid_dmx_personality = 0x00e0

abbrev pub pid_dmx_personality_description : ℕ
pid_dmx_personality_description = 0x00e1

abbrev pub pid_dmx_start_address : ℕ
pid_dmx_start_address = 0x00f0

abbrev pub dmx_packet_size_max : ℕ
dmx_packet_size_max = 513

abbrev pub start_address_none : ℕ
start_address_none = 0xffff

-- The size of a `rdm_dmx_personality_description_t`: a number, a word and 33 characters.
abbrev pub description_size : ℕ
description_size = 36

-- A uint16_t in memory.
abbrev pub word_at : List ℕ → ℕ → Option ℕ
word_at octets i =
    get_elem? octets i >>= λ low. get_elem? octets (i + 1) >>= λ high. some (high * 256 + low)

-- `rdm_get_dmx_personality` with a destination: the size, and what is copied.
unfoldable pub get_dmx_personality : Store → Option (ℕ × List ℕ)
get_dmx_personality s = parameter_copy s sub_device_root pid_dmx_personality 2

-- One of the two octets of a `rdm_dmx_personality_t`, 0 if there is none.
abbrev pub octet_or_zero : ℕ → ℕ × List ℕ → Option ℕ
octet_or_zero i (size, octets) = if size == 0 then some 0 else get_elem? octets i

-- `dmx_get_current_personality`
unfoldable pub get_current_personality : Store → Option ℕ
get_current_personality s = get_dmx_personality s >>= octet_or_zero 0

-- `dmx_get_personality_count`
unfoldable pub get_personality_count : Store → Option ℕ
get_personality_count s = get_dmx_personality s >>= octet_or_zero 1

-- A number from 1 to the count.
abbrev pub is_personality : ℕ → ℕ → Bool
is_personality num count = ltb 0 num && leb num count

abbrev pub description_found : Store → ℕ → Option ℕ → Option (ℕ × List ℕ)
description_found s num none = some (0, [])
description_found s num (some b) = get_elem? s.heap b >>= λ block.
    read_octets ((num - 1) * description_size) description_size block >>= λ octets.
    some (description_size, octets)

-- `rdm_get_dmx_personality_description`: the size, and what is copied to the destination.
unfoldable pub get_dmx_personality_description : Store → ℕ → Option (ℕ × List ℕ)
get_dmx_personality_description s num =
    parameter_size s sub_device_root pid_dmx_personality_description >>= λ size.
    if num == 0 || ltb (size / description_size) num
    then some (0, [])
    else (get_data s sub_device_root pid_dmx_personality_description >>= description_found s num)

abbrev pub footprint_of : ℕ × List ℕ → Option ℕ
footprint_of (size, octets) = if size == 0 then some 0 else word_at octets 1

-- `dmx_get_footprint`
unfoldable pub get_footprint : Store → ℕ → Option ℕ
get_footprint s num = get_personality_count s >>= λ count.
    if is_personality num count
    then (get_dmx_personality_description s num >>= footprint_of)
    else some 0

abbrev pub characters_at : ℕ → Option ℕ → Option (ℕ × ℕ)
characters_at num none = none
characters_at num (some b) = some (b, (num - 1) * description_size + 3)

-- `dmx_get_personality_description`: a null pointer, or a block and an offset.
unfoldable pub get_personality_description : Store → ℕ → Option (Option (ℕ × ℕ))
get_personality_description s num = get_personality_count s >>= λ count.
    if is_personality num count
    then (get_data s sub_device_root pid_dmx_personality_description >>= λ at.
        some (characters_at num at))
    else some none

-- A setter's result: the value returned, the PID that `rdm_queue_push` is called with, if it is, and
-- the parameters.
pub record Setting : Type 0 where
  pub done : Bool
  pub pushed : Option ℕ
  pub parameters : Store

abbrev pub not_set : Store → Setting
not_set s = record { done = false; pushed = none; parameters = s }

abbrev pub setting : ℕ → ℕ × Store → Setting
setting pid (size, s) =
    if size == 0 then not_set s else record { done = true; pushed = some pid; parameters = s }

-- `personality.current` replaced in the copy of the parameter, which is written back.
abbrev pub write_current : Store → ℕ → ℕ → ℕ → ℕ × List ℕ → Option (ℕ × Store)
write_current s n pid num (size, octets) =
    if size == 0 then some (0, s) else parameter_set s n pid (some (set octets 0 num)) 2

-- `rdm_set_dmx_personality`
unfoldable pub set_dmx_personality : Store → ℕ → Option Setting
set_dmx_personality s num = get_personality_count s >>= λ count.
    if is_personality num count
    then (parameter_copy s sub_device_root pid_dmx_personality 2 >>= λ copied.
        write_current s sub_device_root pid_dmx_personality num copied >>= λ written.
        some (setting pid_dmx_personality written))
    else some (not_set s)

-- `dmx_set_current_personality`
unfoldable pub set_current_personality : Store → ℕ → Option Setting
set_current_personality s num = get_personality_count s >>= λ count.
    if is_personality num count then set_dmx_personality s num else some (not_set s)

-- `rdm_get_dmx_start_address` with a destination.
unfoldable pub get_dmx_start_address : Store → Option (ℕ × List ℕ)
get_dmx_start_address s = parameter_copy s sub_device_root pid_dmx_start_address 2

abbrev pub address_of : ℕ × List ℕ → Option ℕ
address_of (size, octets) = if size == 0 then some start_address_none else word_at octets 0

-- `dmx_get_start_address`
unfoldable pub get_start_address : Store → Option ℕ
get_start_address s = get_dmx_start_address s >>= address_of

abbrev pub is_address : ℕ → Bool
is_address a = ltb 0 a && ltb a dmx_packet_size_max

-- `rdm_set_dmx_start_address`
unfoldable pub set_dmx_start_address : Store → ℕ → Option Setting
set_dmx_start_address s a =
    if is_address a
    then (parameter_set s sub_device_root pid_dmx_start_address (some (le16 a)) 2 >>= λ written.
        some (setting pid_dmx_start_address written))
    else some (not_set s)

-- `dmx_set_start_address`
unfoldable pub set_start_address : Store → ℕ → Option Setting
set_start_address s a =
    if is_address a
    then (get_start_address s >>= λ old.
        if old == start_address_none then some (not_set s) else set_dmx_start_address s a)
    else some (not_set s)
