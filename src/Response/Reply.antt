-- ===== src/Response/Reply.antt =====
-- A reply read back by the controller.
use esp_dmx.Prelude.{
  ℕ, ◌+◌, ◌/◌, ◌%◌, ◌<◌, ◌≤◌, ◌≡◌, refl, ap, ◌∙◌, ◌⊎◌, inl, inr, Bool, true, false, ◌&&◌, ◌||◌, not,
  none, some, List, [], ◌∷◌, arith, ltb, ◌==◌, length, bit_or, holds_below, holds_below→holds,
}
use esp_dmx.Uid.{Uid, IsUid}
use esp_dmx.Format.{finished, format_is_valid, format_encode, check, encode_loop, encode_tokens}
use esp_dmx.Packet.{
  Header, IsHeader, cc_is_valid, cc_is_request, response_type_is_valid, le16, disc_command_response,
  pid_disc_unique_branch,
}
use esp_dmx.Packet.Read.{read_header}
use esp_dmx.Packet.Write.{header_is_ok}
use esp_dmx.Packet.Standard.{read_header-write}
use esp_dmx.Packet.Payload.{read_header-write_empty}
use esp_dmx.Response.{response_header, write_ack, write_nack_reason, response_nack_reason}

-- What the reply's command class needs, checked for every octet.
class_ok : ℕ → Bool
class_ok cc =
    not (cc_is_valid cc && cc_is_request cc)
    || (cc_is_valid (bit_or cc 1)
        && not (cc_is_request (bit_or cc 1))
        && ltb (bit_or cc 1) 256
        && bit_or cc 1 == cc + 1)

class_table : holds_below 256 class_ok ≡ true
unfolding holds_below class_ok cc_is_valid cc_is_request
class_table = refl

-- A valid request, and a device that can reply to it: UIDs of the right widths, a sub-device that
-- exists or all, and no request for discovery responses.
pub record IsRequest (h : Header) (uid : Uid) (queued : ℕ) : Type 0 where
  pub fits : IsHeader h
  pub uid_fits : IsUid uid
  pub queued_fits : queued < 256
  pub cc_valid : cc_is_valid h.cc ≡ true
  pub cc_request : cc_is_request h.cc ≡ true
  pub sub_device_ok : (h.sub_device < 513) ⊎ (h.sub_device ≡ 0xffff)
  pub not_unique_branch : (h.pid == pid_disc_unique_branch) ≡ false

pub reply_class :
    {h : Header} {uid : Uid} {queued : ℕ}
    → IsRequest h uid queued
    → (cc_is_valid (bit_or h.cc 1) ≡ true)
      × (cc_is_request (bit_or h.cc 1) ≡ false)
      × (bit_or h.cc 1 < 256)
      × (bit_or h.cc 1 ≡ h.cc + 1)
unfolding class_ok
reply_class {h} {uid} {queued} r =
    let all : class_ok h.cc ≡ true =
      holds_below→holds 256 class_ok h.cc class_table r.fits.cc_fits in
    let ok : (cc_is_valid (bit_or h.cc 1)
          && not (cc_is_request (bit_or h.cc 1))
          && ltb (bit_or h.cc 1) 256
          && bit_or h.cc 1 == h.cc + 1)
        ≡ true =
      rw (r.cc_valid, r.cc_request) at all in
    (ground arith, ground arith, ground arith, ground arith)

pub reply-IsHeader :
    {h : Header} {uid : Uid} {queued : ℕ}
    → IsRequest h uid queued
    → (kind pdl : ℕ) → kind < 256
    → IsHeader (response_header uid queued h kind pdl)
reply-IsHeader {h} {uid} {queued} r kind pdl small = record {
  message_len_fits = omega arith;
  dest_fits = r.fits.src_fits;
  src_fits = r.uid_fits;
  tn_fits = r.fits.tn_fits;
  port_id_fits = small;
  message_count_fits = r.queued_fits;
  sub_device_fits = r.fits.sub_device_fits;
  cc_fits = (reply_class r).2;
  pid_fits = r.fits.pid_fits;
  pdl_fits = omega arith;
}

pub reply_ok :
    {h : Header} {uid : Uid} {queued : ℕ}
    → IsRequest h uid queued
    → (kind pdl : ℕ) → kind ≤ 3
    → pdl < 231
    → header_is_ok (response_header uid queued h kind pdl) ≡ true
unfolding header_is_ok response_type_is_valid
reply_ok {h} {uid} {queued} r kind pdl small fits =
    let (valid, odd, octet, next) = reply_class r in
    rw (valid, odd) (elim r.sub_device_ok [ inl low ↦ ground arith | inr all ↦ ground arith ])

octets_encoded :
    (reason : ℕ)
    → format_encode 2 (some (b'w' ∷ [])) (le16 reason) 2 false
      ≡ finished (reason / 256 % 256 ∷ reason % 256 ∷ []) 2
unfolding format_encode encode_loop encode_tokens format_is_valid check
octets_encoded reason = refl

word_valid : format_is_valid (some (b'w' ∷ [])) ≡ some true
unfolding format_is_valid check
word_valid = refl

null_valid : format_is_valid none ≡ some true
unfolding format_is_valid
null_valid = refl

pub not_discovery :
    {h : Header} {uid : Uid} {queued : ℕ}
    → IsRequest h uid queued
    → (bit_or h.cc 1 == disc_command_response && h.pid == pid_disc_unique_branch) ≡ false
not_discovery r = let e = r.not_unique_branch in rw e (ground arith)

-- `rdm_write_nack_reason` for a valid request writes a packet of 28 octets from which
-- `rdm_read_header` gets the reply's header: back to the sender, from this device, with the
-- request's transaction number, sub-device and PID, its command class made the response's, and the
-- response type for a refusal.
pub read_header-write_nack_reason :
    (h : Header) (uid : Uid) (queued reason : ℕ) (buf : List ℕ)
    → IsRequest h uid queued
    → length buf ≡ 513
    → (buf' : List ℕ) × (write_nack_reason 2 uid queued h reason buf ≡ some (28, buf'))
      × (length buf' ≡ 513)
      × (read_header buf'
          ≡ some (record {
            message_len = 26;
            dest_uid = h.src_uid;
            src_uid = uid;
            tn = h.tn;
            port_id = response_nack_reason;
            message_count = queued;
            sub_device = h.sub_device;
            cc = h.cc + 1;
            pid = h.pid;
            pdl = 2;
          }))
unfolding write_nack_reason
read_header-write_nack_reason h uid queued reason buf r len =
    let reply = response_header uid queued h response_nack_reason 2 in
    let (buf', wrote, len', is_rdm) =
      read_header-write 2 reply (some (b'w' ∷ [])) (le16 reason)
        (reason / 256 % 256 ∷ reason % 256 ∷ []) buf
        (
          reply_ok r response_nack_reason 2 (omega arith) (omega arith),
          word_valid,
          refl,
          not_discovery r,
        )
        (reply-IsHeader r response_nack_reason 2 (omega arith)) (omega arith) len
        (octets_encoded reason) (omega arith) in
    (
      buf',
      rw r.cc_request wrote,
      len',
      is_rdm ∙ ap (λ c. some (record reply { cc = c })) (reply_class r).3,
    )

-- `rdm_write_ack` without parameter data for a valid request writes a packet of 26 octets from which
-- `rdm_read_header` gets the reply's header: back to the sender, from this device, with the
-- request's transaction number, sub-device and PID, its command class made the response's, and the
-- response type for an acknowledgement.
pub read_header-write_ack :
    (fuel : ℕ) (h : Header) (uid : Uid) (queued : ℕ) (buf : List ℕ)
    → IsRequest h uid queued
    → length buf ≡ 513
    → (buf' : List ℕ) × (write_ack fuel uid queued h none none 0 buf ≡ some (26, buf'))
      × (length buf' ≡ 513)
      × (read_header buf'
          ≡ some (record {
            message_len = 24;
            dest_uid = h.src_uid;
            src_uid = uid;
            tn = h.tn;
            port_id = 0;
            message_count = queued;
            sub_device = h.sub_device;
            cc = h.cc + 1;
            pid = h.pid;
            pdl = 0;
          }))
unfolding write_ack
read_header-write_ack fuel h uid queued buf r len =
    let reply = response_header uid queued h 0 0 in
    let (buf', wrote, len', is_rdm) =
      read_header-write_empty fuel reply none none buf
        (reply_ok r 0 0 (omega arith) (omega arith), null_valid, refl, not_discovery r)
        (reply-IsHeader r 0 0 (omega arith)) refl len in
    (
      buf',
      rw (null_valid, r.cc_request) wrote,
      len',
      is_rdm ∙ ap (λ c. some (record reply { cc = c })) (reply_class r).3,
    )
