-- ===== src/Packet/Discovery.antt =====
-- Discovery responses: `rdm_read_header` of what `rdm_write` wrote.
use esp_dmx.Prelude.{
  ℕ, ◌+◌, ◌*◌, ◌/◌, ◌%◌, ◌^◌, ◌<◌, ◌≡◌, refl, ap, ap₂, ◌∙◌, List, [], ◌∷◌, ◌++◌, true, Option, some,
  arith, ◌==◌, ◌&&◌, ◌||◌, bit_and, bit_or, holds_below, holds_below→holds, ==_iff, write_at,
  length, drop, ==_refl, length-write_at, replicate,
}
use esp_dmx.Uid.{Uid, IsUid, uid_broadcast_all}
use esp_dmx.Format.{format_is_valid}
use esp_dmx.Packet.{
  Header, disc_command_response, pid_disc_unique_branch, response_ack, sub_device_root, be16, be32,
  preamble, delimiter,
}
use esp_dmx.Packet.Read.{
  checksum, read_header, read_discovery, preamble_len, discovery_header, discovery_checksum,
}
use esp_dmx.Packet.Write.{
  header_is_ok, is_some, uid_octets, doubled, doubled_sum, discovery_response, write,
}
use esp_dmx.Packet.Layout.{write_at-zero}
use esp_dmx.Packet.Frame.{uid_ext, be16_bytes, be32_bytes}

-- An octet sent twice, with half of the bits forced to 1 each time: the two have the octet in common
-- and add up to 255 more.
twice_table :
    holds_below 256 (λ x.
      bit_and (bit_or x 0xaa) (bit_or x 0x55) == x && bit_or x 0xaa + bit_or x 0x55 == x + 255)
    ≡ true
unfolding holds_below
twice_table = refl

twice :
    (x : ℕ)
    → x < 256
    → (bit_and (bit_or x 0xaa) (bit_or x 0x55) ≡ x) × (bit_or x 0xaa + bit_or x 0x55 ≡ x + 255)
twice x h =
    let both : (bit_and (bit_or x 0xaa) (bit_or x 0x55) == x
          && bit_or x 0xaa + bit_or x 0x55 == x + 255)
        ≡ true =
      holds_below→holds 256 _ x twice_table h in
    (ground arith, ground arith)

-- The two octets of a sum of six octets and 6 * 255 put together.
join_table : holds_below 4096 (λ c. bit_or (c / 256 % 256 * 2 ^ 8) (c % 256) == c) ≡ true
unfolding holds_below
join_table = refl

join : (c : ℕ) → c < 4096 → bit_or (c / 256 % 256 * 2 ^ 8) (c % 256) ≡ c
join c h = (==_iff _ c).0 (holds_below→holds 4096 _ c join_table h)

-- The slots behind the delimiter for six octets, and the reader's two sums over them.
abbrev slots_of : List ℕ → List ℕ
slots_of xs = doubled xs ++ doubled (doubled_sum xs 0 / 2 ^ 8 % 256 ∷ doubled_sum xs 0 % 256 ∷ [])

record AreOctets (a b c d e f : ℕ) : Type 0 where
  a_fits : a < 256
  b_fits : b < 256
  c_fits : c < 256
  d_fits : d < 256
  e_fits : e < 256
  f_fits : f < 256

module _ (a b c d e f : ℕ) (v : AreOctets a b c d e f) where
  abbrev six : List ℕ
  six = a ∷ b ∷ c ∷ d ∷ e ∷ f ∷ []

  sum_small : doubled_sum six 0 < 4096
  unfolding doubled_sum
  sum_small = omega (arith, v.a_fits, v.b_fits, v.c_fits, v.d_fits, v.e_fits, v.f_fits)

  sums_agree : (rest : List ℕ) → checksum 12 (slots_of six ++ rest) 0 ≡ doubled_sum six 0
  unfolding checksum doubled doubled_sum
  sums_agree rest = omega (
    arith,
    (twice a v.a_fits).1,
    (twice b v.b_fits).1,
    (twice c v.c_fits).1,
    (twice d v.d_fits).1,
    (twice e v.e_fits).1,
    (twice f v.f_fits).1,
  )

  checksum_decoded : (rest : List ℕ) → discovery_checksum (slots_of six ++ rest) ≡ doubled_sum six 0
  unfolding discovery_checksum doubled
  checksum_decoded rest =
      ap₂ (λ x y. bit_or (x * 2 ^ 8) y) (twice _ (omega arith)).0 (twice _ (omega arith)).0
      ∙ join (doubled_sum six 0) sum_small

  uid_decoded :
      (rest : List ℕ)
      → (discovery_header 7 (slots_of six ++ rest)).src_uid
        ≡ record { man_id = be16 a b; dev_id = be32 c d e f }
  unfolding discovery_header doubled
  uid_decoded rest =
      let x = λ (n : ℕ) (h : n < 256). (twice n h).0 in
      uid_ext (ap₂ be16 (x a v.a_fits) (x b v.b_fits))
        (λ i. be32 (x c v.c_fits i) (x d v.d_fits i) (x e v.e_fits i) (x f v.f_fits i))

-- A discovery response of six octets is read as coming from the UID that they spell.
read_discovery-six :
    (a b c d e f : ℕ) (rest : List ℕ)
    → AreOctets a b c d e f
    → read_header
        (replicate 7 preamble ++ (delimiter ∷ (slots_of (a ∷ b ∷ c ∷ d ∷ e ∷ f ∷ []) ++ rest)))
      ≡ some (discovery_header 7 (slots_of (a ∷ b ∷ c ∷ d ∷ e ∷ f ∷ []) ++ rest))
unfolding read_header read_discovery preamble_len
read_discovery-six a b c d e f rest v =
    rw (sums_agree a b c d e f v rest, checksum_decoded a b c d e f v rest, ==_refl) refl

-- The header by which a discovery response from `u` is reported.
abbrev pub response_from : Uid → Header
response_from u = record {
  message_len = 24;
  dest_uid = uid_broadcast_all;
  src_uid = u;
  tn = 0;
  port_id = response_ack;
  message_count = 0;
  sub_device = sub_device_root;
  cc = disc_command_response;
  pid = pid_disc_unique_branch;
  pdl = 0;
}

module _ (h : Header) (fits : IsUid h.src_uid) (buf : List ℕ) (len : length buf ≡ 513) where
  octets_fit :
      AreOctets
        (h.src_uid.man_id / 256 % 256)
        (h.src_uid.man_id % 256)
        (h.src_uid.dev_id / 16777216 % 256)
        (h.src_uid.dev_id / 65536 % 256)
        (h.src_uid.dev_id / 256 % 256)
        (h.src_uid.dev_id % 256)
  octets_fit = omega arith

  slots : List ℕ
  slots = slots_of (uid_octets h) ++ drop 24 buf

  laid_out : write_at 0 (discovery_response h) buf ≡ replicate 7 preamble ++ (delimiter ∷ slots)
  unfolding discovery_response doubled doubled_sum slots
  laid_out = write_at-zero (discovery_response h) buf (omega arith)

  header_read : discovery_header 7 slots ≡ response_from h.src_uid
  unfolding discovery_header slots
  header_read =
      let src =
        uid_decoded _ _ _ _ _ _ octets_fit (drop 24 buf)
        ∙ uid_ext (be16_bytes _ fits.man_fits) (be32_bytes _ fits.dev_fits) in
      λ i. record (response_from h.src_uid) { src_uid = src i }

  response_read :
      read_header (write_at 0 (discovery_response h) buf) ≡ some (response_from h.src_uid)
  unfolding slots
  response_read =
      ap read_header laid_out
      ∙ read_discovery-six _ _ _ _ _ _ (drop 24 buf) octets_fit
      ∙ ap some header_read

-- `rdm_write` of an accepted discovery response from a well-formed UID writes 24 octets, from which
-- `rdm_read_header` recovers that UID.
pub read_header-write_discovery :
    (fuel : ℕ) (h : Header) (format pd : Option (List ℕ)) (buf : List ℕ)
    → header_is_ok h ≡ true
    → format_is_valid format ≡ some true
    → (h.pdl == 0 || (is_some format && is_some pd)) ≡ true
    → h.cc ≡ disc_command_response
    → h.pid ≡ pid_disc_unique_branch
    → IsUid h.src_uid
    → length buf ≡ 513
    → (buf' : List ℕ) × (write fuel h format pd buf ≡ some (24, buf'))
      × (length buf' ≡ 513)
      × (read_header buf' ≡ some (response_from h.src_uid))
unfolding write
read_header-write_discovery fuel h format pd buf ok valid given cc_is pid_is fits len = (
  write_at 0 (discovery_response h) buf,
  rw (ok, valid, given, both) refl,
  length-write_at 0 (discovery_response h) buf ∙ len,
  response_read h fits buf len,
)
  where
    both : (h.cc == disc_command_response && h.pid == pid_disc_unique_branch) ≡ true
    both = ground arith
