-- ===== src/Packet/Read.antt =====
-- `rdm_read_header` and `rdm_read_pd` of src/rdm/driver.c.
use esp_dmx.Prelude.{
  ℕ, zero, suc, ◌+◌, ◌*◌, ◌%◌, ◌^◌, true, false, Option, none, some, List, [], ◌∷◌, ltb, ◌==◌,
  if◌then◌else◌, ◌&&◌, ◌||◌, bit_and, bit_or, get_or, drop, write_at,
}
use esp_dmx.Uid.{uid_broadcast_all}
use esp_dmx.Format.{Encoded, finished, format_is_valid, format_encode}
use esp_dmx.Packet.{
  Header, sc, sub_sc, preamble, delimiter, be16, be32, response_ack, sub_device_root,
  disc_command_response, pid_disc_unique_branch,
}

-- A uint16_t sum of the first `n` octets.
unfoldable pub checksum : ℕ → List ℕ → ℕ → ℕ
checksum zero xs acc = acc
checksum (suc n) [] acc = acc
checksum (suc n) (x ∷ xs) acc = checksum n xs ((acc + x) % 2 ^ 16)

-- The first 24 octets as a header, the numbers turned from network order.
unfoldable pub decode_header : List ℕ → Header
decode_header data_ = record {
  message_len = at 2;
  dest_uid = record { man_id = be16 (at 3) (at 4); dev_id = be32 (at 5) (at 6) (at 7) (at 8) };
  src_uid = record { man_id = be16 (at 9) (at 10); dev_id = be32 (at 11) (at 12) (at 13) (at 14) };
  tn = at 15;
  port_id = at 16;
  message_count = at 17;
  sub_device = be16 (at 18) (at 19);
  cc = at 20;
  pid = be16 (at 21) (at 22);
  pdl = at 23;
}
  where
    at : ℕ → ℕ
    at i = get_or data_ i 0

-- The branch for the start codes RDM_SC, RDM_SUB_SC.
unfoldable pub read_standard : List ℕ → Option Header
read_standard data_ =
    let len = get_or data_ 2 0 in
    if checksum len data_ 0 == be16 (get_or data_ len 0) (get_or data_ (len + 1) 0)
    then some (decode_header data_)
    else none

-- The index of the first delimiter, looked for in `n` octets from index `i` on.
unfoldable pub preamble_len : ℕ → ℕ → List ℕ → Option ℕ
preamble_len zero i data_ = none
preamble_len (suc n) i data_ =
    let rest = preamble_len n (i + 1) data_ in
    if get_or data_ i 0 == delimiter then some i else rest

-- The header that stands for a discovery response whose encoded UID starts at `slots`.
unfoldable pub discovery_header : ℕ → List ℕ → Header
discovery_header len slots = record {
  message_len = (len + 17) % 256;
  dest_uid = uid_broadcast_all;
  src_uid = record {
    man_id = be16 (euid 0) (euid 2);
    dev_id = be32 (euid 4) (euid 6) (euid 8) (euid 10);
  };
  tn = 0;
  port_id = response_ack;
  message_count = 0;
  sub_device = sub_device_root;
  cc = disc_command_response;
  pid = pid_disc_unique_branch;
  pdl = 0;
}
  where
    euid : ℕ → ℕ
    euid i = bit_and (get_or slots i 0) (get_or slots (i + 1) 0)

-- The checksum in a discovery response: two octets, each sent twice with bits forced to 1.
unfoldable pub discovery_checksum : List ℕ → ℕ
discovery_checksum slots =
    bit_or (bit_and (get_or slots 12 0) (get_or slots 13 0) * 2 ^ 8)
      (bit_and (get_or slots 14 0) (get_or slots 15 0))

unfoldable pub read_discovery : List ℕ → Option Header
read_discovery data_ = elim (preamble_len 8 0 data_) [
  | none ↦ none
  | some len ↦
      let slots = drop (len + 1) data_ in
      if checksum 12 slots 0 == discovery_checksum slots
      then some (discovery_header len slots)
      else none
]

-- `rdm_read_header` on the data of an installed driver: the header, if it returns true.
unfoldable pub read_header : List ℕ → Option Header
read_header data_ =
    if get_or data_ 0 0 == sc && get_or data_ 1 0 == sub_sc
    then read_standard data_
    else if get_or data_ 0 0 == preamble || get_or data_ 0 0 == delimiter
    then read_discovery data_
    else none

-- `rdm_read_pd` with a destination and a valid format: the value returned, and what the encoder does
-- at the destination, if it is called. `none` is the remainder by 0 of the validity check.
unfoldable pub read_pd : ℕ → List ℕ → Option (List ℕ) → ℕ → Option (ℕ × Option Encoded)
read_pd fuel data_ format size = elim (format_is_valid format) [
  | none ↦ none
  | some false ↦ some (0, none)
  | some true ↦
      let pdl = get_or data_ 23 0 in
      let n = if ltb pdl size then pdl else size in
      some (
        if pdl == 0 || ltb 231 pdl
        then (0, none)
        else (pdl, some (format_encode fuel format (drop 24 data_) n true)))
]

-- What the encoder leaves at a destination that held `old`.
abbrev pub filled : List ℕ → Option Encoded → Option (List ℕ)
filled old none = some old
filled old (some (finished out n)) = some (write_at 0 out old)
filled old (some e) = none
