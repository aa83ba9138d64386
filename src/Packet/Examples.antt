-- ===== src/Packet/Examples.antt =====
-- The theorems on packets at concrete ones.
use esp_dmx.Prelude.{
  ℕ, ◌<◌, ◌≡◌, ◌≢◌, refl, true, false, some, none, List, [], ◌∷◌, arith, length, replicate, drop,
}
use esp_dmx.Uid.{Uid, IsUid}
use esp_dmx.Format.{finished, format_encode, format_is_valid, check}
use esp_dmx.Packet.{Header, IsHeader, sc, sub_sc, cc_is_valid, cc_is_request}
use esp_dmx.Packet.Read.{read_header}
use esp_dmx.Packet.Write.{write, header_is_ok}
use esp_dmx.Packet.Standard.{Accepts, write-packet, read_header-write}
use esp_dmx.Packet.Discovery.{read_header-write_discovery, response_from}
use esp_dmx.Packet.Corruption.{read_header-set-none}
use esp_dmx.Packet.Frame.{packet}

abbrev controller : Uid
controller = record { man_id = 0x05e0; dev_id = 0x4402_c71a }

abbrev pub responder : Uid
responder = record { man_id = 0x02b0; dev_id = 17 }

-- SET DMX_START_ADDRESS with two octets of parameter data.
abbrev pub set_address : Header
set_address = record {
  message_len = 26;
  dest_uid = responder;
  src_uid = controller;
  tn = 3;
  port_id = 1;
  message_count = 0;
  sub_device = 0;
  cc = 0x30;
  pid = 0x00f0;
  pdl = 2;
}

-- GET DMX_START_ADDRESS.
abbrev pub get_address : Header
get_address = record set_address { message_len = 24; cc = 0x20; pdl = 0 }

-- A response to DISC_UNIQUE_BRANCH.
abbrev found : Header
found = record get_address { src_uid = responder; cc = 0x11; pid = 1; port_id = 0 }

uid_fits : (u : Uid) → u.man_id < 65536 → u.dev_id < 4294967296 → IsUid u
uid_fits u h k = record { man_fits = h; dev_fits = k }

pub set_address-IsHeader : IsHeader set_address
set_address-IsHeader = record {
  message_len_fits = omega arith;
  dest_fits = uid_fits responder (omega arith) (omega arith);
  src_fits = uid_fits controller (omega arith) (omega arith);
  tn_fits = omega arith;
  port_id_fits = omega arith;
  message_count_fits = omega arith;
  sub_device_fits = omega arith;
  cc_fits = omega arith;
  pid_fits = omega arith;
  pdl_fits = omega arith;
}

pub get_address-IsHeader : IsHeader get_address
get_address-IsHeader = record {
  message_len_fits = omega arith;
  dest_fits = uid_fits responder (omega arith) (omega arith);
  src_fits = uid_fits controller (omega arith) (omega arith);
  tn_fits = omega arith;
  port_id_fits = omega arith;
  message_count_fits = omega arith;
  sub_device_fits = omega arith;
  cc_fits = omega arith;
  pid_fits = omega arith;
  pdl_fits = omega arith;
}

pub set_address-Accepts : Accepts set_address (some (b'w' ∷ [])) (some (1 ∷ 0 ∷ []))
unfolding header_is_ok format_is_valid check cc_is_valid cc_is_request
set_address-Accepts = (refl, refl, refl, refl)

get_address-Accepts : Accepts get_address none none
unfolding header_is_ok format_is_valid check cc_is_valid cc_is_request
get_address-Accepts = (refl, refl, refl, refl)

pub encoded_address :
    format_encode 2 (some (b'w' ∷ [])) (1 ∷ 0 ∷ []) 2 false ≡ finished (0 ∷ 1 ∷ []) 2
unfolding format_encode esp_dmx.Format.encode_loop esp_dmx.Format.encode_tokens format_is_valid
    check
encoded_address = refl

pub responder-IsUid : IsUid responder
responder-IsUid = uid_fits responder (omega arith) (omega arith)

found_ok : header_is_ok found ≡ true
unfolding header_is_ok cc_is_valid cc_is_request esp_dmx.Packet.response_type_is_valid
found_ok = refl

no_format : format_is_valid none ≡ some true
unfolding format_is_valid
no_format = refl

-- A short packet: five octets and their checksum.
abbrev short_body : List ℕ
short_body = 0x10 ∷ 0x20 ∷ 1 ∷ 2 ∷ []

short_accepted : read_header (sc ∷ sub_sc ∷ 5 ∷ short_body) ≢ none
unfolding read_header esp_dmx.Packet.Read.read_standard esp_dmx.Packet.Read.checksum
short_accepted e = ground arith

abbrev pub blank : List ℕ
blank = replicate 513 0

pub set_address-written :
    write 2 set_address (some (b'w' ∷ [])) (some (1 ∷ 0 ∷ [])) blank
    ≡ some (28, packet set_address (0 ∷ 1 ∷ []) (drop 28 blank))
set_address-written =
    write-packet 2 set_address (some (b'w' ∷ [])) (1 ∷ 0 ∷ []) (0 ∷ 1 ∷ []) blank
      set_address-Accepts set_address-IsHeader (omega arith) refl encoded_address (omega arith)

read_header-write_example :
    (buf' : List ℕ) × (write 2 set_address (some (b'w' ∷ [])) (some (1 ∷ 0 ∷ [])) blank
      ≡ some (28, buf'))
    × (length buf' ≡ 513)
    × (read_header buf' ≡ some set_address)
read_header-write_example =
    read_header-write 2 set_address (some (b'w' ∷ [])) (1 ∷ 0 ∷ []) (0 ∷ 1 ∷ []) blank
      set_address-Accepts set_address-IsHeader (omega arith) refl encoded_address (omega arith)

read_header-write_discovery_example :
    (buf' : List ℕ) × (write 2 found none none blank ≡ some (24, buf'))
    × (length buf' ≡ 513)
    × (read_header buf' ≡ some (response_from responder))
read_header-write_discovery_example =
    read_header-write_discovery 2 found none none blank found_ok no_format refl refl refl
      (uid_fits responder (omega arith) (omega arith)) refl

read_header-set-none_example : read_header (sc ∷ sub_sc ∷ 5 ∷ 0x10 ∷ 0x21 ∷ 1 ∷ 2 ∷ []) ≡ none
read_header-set-none_example =
    read_header-set-none 5 1 0x21 short_body short_accepted (omega arith) (omega arith)
      (omega arith) (omega arith) (omega arith)
