-- ===== src/Response.antt =====
-- The replies of a responder: rdm_write_ack and rdm_write_nack_reason of src/rdm/responder/utils.c.
pub mod Reply
use esp_dmx.Prelude.{
  ℕ, ◌+◌, ◌%◌, ◌^◌, Bool, true, false, ◌&&◌, ◌||◌, not, Option, none, some, List, [], ◌∷◌, ltb,
  ◌==◌, ◌>>=◌, assert, bit_or,
}
use esp_dmx.Uid.{Uid}
use esp_dmx.Format.{format_is_valid}
use esp_dmx.Packet.{Header, cc_is_request, le16}
use esp_dmx.Packet.Write as Codec
use esp_dmx.Packet.Write.{is_some}

abbrev pub response_nack_reason : ℕ
response_nack_reason = 0x02

-- The header of a reply of `pdl` octets to a request, from the device `uid` with `queued` messages
-- in its queue.
abbrev pub response_header : Uid → ℕ → Header → ℕ → ℕ → Header
response_header uid queued h response_type pdl = record {
  message_len = (24 + pdl) % 2 ^ 8;
  dest_uid = h.src_uid;
  src_uid = uid;
  tn = h.tn;
  port_id = response_type;
  message_count = queued;
  sub_device = h.sub_device;
  cc = bit_or h.cc 0x1;
  pid = h.pid;
  pdl = pdl % 2 ^ 8;
}

-- `rdm_write_ack`, with the assertions that it begins with.
unfoldable pub write_ack :
    ℕ → Uid → ℕ → Header → Option (List ℕ) → Option (List ℕ) → ℕ → List ℕ → Option (ℕ × List ℕ)
write_ack fuel uid queued h format pd pdl buf = format_is_valid format >>= λ valid.
    assert
      (cc_is_request h.cc
        && valid
        && (is_some format || not (is_some pd))
        && (is_some pd || pdl == 0)
        && ltb pdl 231)
      (Codec.write fuel (response_header uid queued h 0x00 pdl) format pd buf)

-- `rdm_write_nack_reason`; the reason is a uint16_t in memory.
unfoldable pub write_nack_reason : ℕ → Uid → ℕ → Header → ℕ → List ℕ → Option (ℕ × List ℕ)
write_nack_reason fuel uid queued h reason buf = assert (cc_is_request h.cc) (
    Codec.write fuel (response_header uid queued h response_nack_reason 2) (some (b'w' ∷ []))
      (some (le16 reason)) buf)
