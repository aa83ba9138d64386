-- ===== src/Packet/Write.antt =====
-- `rdm_write` of src/rdm/driver.c on the data of an installed driver.
use esp_dmx.Prelude.{
  ℕ, ◌+◌, ◌-◌, ◌/◌, ◌%◌, ◌^◌, Bool, true, false, Option, none, some, List, [], ◌∷◌, ◌++◌, ltb, leb,
  ◌==◌, if◌then◌else◌, ◌&&◌, ◌||◌, bit_or, set, drop, write_at, replicate, ◌>>=◌,
}
use esp_dmx.Format.{Encoded, finished, format_is_valid, format_encode}
use esp_dmx.Packet.{
  Header, response_type, sc, sub_sc, preamble, delimiter, sub_device_max, sub_device_all,
  disc_command_response, pid_disc_unique_branch, cc_is_valid, cc_is_request, response_type_is_valid,
  header_bytes,
}
use esp_dmx.Packet.Read.{checksum}

abbrev pub is_some {ℓ} : {A : Type ℓ} → Option A → Bool
is_some none = false
is_some (some x) = true

-- The checks that stand before the one of the format.
unfoldable pub header_is_ok : Header → Bool
header_is_ok h =
    leb 24 h.message_len
    && h.message_len == 24 + h.pdl
    && (ltb h.sub_device sub_device_max || h.sub_device == sub_device_all)
    && cc_is_valid h.cc
    && ltb h.pdl 231
    && (if cc_is_request h.cc then ltb 0 h.port_id else response_type_is_valid (response_type h))

-- A UID's six octets in network order.
abbrev pub uid_octets : Header → List ℕ
uid_octets h =
    let m = h.src_uid.man_id in
    let d = h.src_uid.dev_id in
    m / 256 % 256 ∷ m % 256 ∷ d / 16777216 % 256 ∷ d / 65536 % 256 ∷ d / 256 % 256 ∷ d % 256 ∷ []

-- Each octet twice, with the bits of 0xaa and of 0x55 forced to 1.
unfoldable pub doubled : List ℕ → List ℕ
doubled [] = []
doubled (x ∷ xs) = bit_or x 0xaa ∷ bit_or x 0x55 ∷ doubled xs

unfoldable pub doubled_sum : List ℕ → ℕ → ℕ
doubled_sum [] acc = acc
doubled_sum (x ∷ xs) acc = doubled_sum xs ((acc + x + bit_or 0xaa 0x55) % 2 ^ 16)

-- The branch for a discovery response: 24 octets.
unfoldable pub discovery_response : Header → List ℕ
discovery_response h =
    let cs = doubled_sum (uid_octets h) 0 in
    replicate 7 preamble
    ++ (delimiter ∷ doubled (uid_octets h))
    ++ doubled (cs / 2 ^ 8 % 256 ∷ cs % 256 ∷ [])

-- "xCCx01buubbbwbwb"
abbrev pub header_format : List ℕ
header_format =
    b'x' ∷ b'C' ∷ b'C' ∷ b'x' ∷ b'0' ∷ b'1' ∷ b'b' ∷ b'u' ∷ b'u' ∷ b'b' ∷ b'b' ∷ b'b' ∷ b'w' ∷ b'b'
    ∷ b'w' ∷ b'b' ∷ []

-- The checksum over the octets from index 2 up to the message length, high octet first.
unfoldable pub append_checksum : ℕ → ℕ → List ℕ → List ℕ
append_checksum message_len offset data_ =
    let cs = checksum (message_len - 2) (drop 2 data_) (sc + sub_sc) in
    write_at offset (cs / 256 ∷ cs % 256 ∷ []) data_

-- What follows the encoding of the parameter data: the two lengths are corrected if the data has
-- another length than the header says.
unfoldable pub finish_body : Header → List ℕ → Encoded → Option (ℕ × List ℕ)
finish_body h data_ (finished out n) =
    let data' = write_at 24 out data_ in
    some (
      if h.pdl == n then (h.message_len + 2, append_checksum h.message_len (24 + n) data') else (
        24 + n + 2,
        append_checksum (24 + n) (24 + n) (set (set data' 2 ((24 + n) % 256)) 23 (n % 256)),
      ))
finish_body h data_ _ = none

-- The branch for every other packet, behind the encoded header.
unfoldable pub write_body :
    ℕ → Header → Option (List ℕ) → Option (List ℕ) → List ℕ → Option (ℕ × List ℕ)
write_body fuel h format none data_ = some (26, append_checksum 24 24 data_)
write_body fuel h format (some pd) data_ =
    if ltb 0 h.pdl
    then finish_body h data_ (format_encode fuel format pd h.pdl false)
    else some (26, append_checksum 24 24 data_)

unfoldable pub finish_header :
    ℕ → Header → Option (List ℕ) → Option (List ℕ) → List ℕ → Encoded → Option (ℕ × List ℕ)
finish_header fuel h format pd data_ (finished out n) =
    write_body fuel h format pd (write_at 0 out data_)
finish_header fuel h format pd data_ _ = none

-- `rdm_write`: the size written, 0 if a check refuses the call, and the buffer. `none` is a fault:
-- a trap in the validity check, or an encoder that does not finish.
unfoldable pub write : ℕ → Header → Option (List ℕ) → Option (List ℕ) → List ℕ → Option (ℕ × List ℕ)
write fuel h format pd data_ =
    if header_is_ok h
    then (format_is_valid format >>= λ valid.
        if valid && (h.pdl == 0 || (is_some format && is_some pd))
        then if h.cc == disc_command_response && h.pid == pid_disc_unique_branch
          then some (24, write_at 0 (discovery_response h) data_)
          else finish_header fuel h format pd data_
              (format_encode 2 (some header_format) (header_bytes h) 24 false)
        else some (0, data_))
    else some (0, data_)
