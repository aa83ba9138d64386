-- ===== src/Packet/Frame.antt =====
-- Standard packets as octets, and `rdm_read_header` of them.
use esp_dmx.Prelude.{
  ℕ, ◌+◌, ◌/◌, ◌%◌, ◌^◌, ◌<◌, ◌≡◌, refl, sym, ap, ap₂, ◌∙◌, List, [], ◌∷◌, ◌++◌, false, some, arith,
  length, length-append, get_or, drop, ==_refl,
}
use esp_dmx.Uid.{Uid}
use esp_dmx.Format.{finished, format_encode, encode_loop, encode_tokens, format_is_valid}
use esp_dmx.Packet.{Header, IsHeader, sc, sub_sc, header_bytes, be16, be32}
use esp_dmx.Packet.Read.{checksum, read_header, read_standard, decode_header}
use esp_dmx.Packet.Write.{header_format}
use esp_dmx.Packet.Layout.{get_or-append, checksum-append}

-- The 24 octets of a header in network order.
abbrev pub packet_header : Header → List ℕ
packet_header h =
    let a = h.dest_uid in
    let s = h.src_uid in
    sc
    ∷ sub_sc
    ∷ h.message_len % 256
    ∷ a.man_id / 256 % 256
    ∷ a.man_id % 256
    ∷ a.dev_id / 16777216 % 256
    ∷ a.dev_id / 65536 % 256
    ∷ a.dev_id / 256 % 256
    ∷ a.dev_id % 256
    ∷ s.man_id / 256 % 256
    ∷ s.man_id % 256
    ∷ s.dev_id / 16777216 % 256
    ∷ s.dev_id / 65536 % 256
    ∷ s.dev_id / 256 % 256
    ∷ s.dev_id % 256
    ∷ h.tn % 256
    ∷ h.port_id % 256
    ∷ h.message_count % 256
    ∷ h.sub_device / 256 % 256
    ∷ h.sub_device % 256
    ∷ h.cc % 256
    ∷ h.pid / 256 % 256
    ∷ h.pid % 256
    ∷ h.pdl % 256
    ∷ []

-- The encoder turns the struct in memory into the header on the wire.
pub encode_header :
    (h : Header)
    → format_encode 2 (some header_format) (header_bytes h) 24 false ≡ finished (packet_header h) 24
unfolding format_encode encode_loop encode_tokens format_is_valid
encode_header h = refl

-- Octets, their checksum, and what follows.
abbrev pub framed : List ℕ → List ℕ → List ℕ
framed x rest = x ++ (checksum (length x) x 0 / 256 ∷ checksum (length x) x 0 % 256 ∷ rest)

-- A packet with its parameter data, and what follows it in the buffer.
abbrev pub packet : Header → List ℕ → List ℕ → List ℕ
packet h pd rest = framed (packet_header h ++ pd) rest

header_ext :
    {g h : Header}
    → g.message_len ≡ h.message_len
    → g.dest_uid ≡ h.dest_uid
    → g.src_uid ≡ h.src_uid
    → g.tn ≡ h.tn
    → g.port_id ≡ h.port_id
    → g.message_count ≡ h.message_count
    → g.sub_device ≡ h.sub_device
    → g.cc ≡ h.cc
    → g.pid ≡ h.pid
    → g.pdl ≡ h.pdl
    → g ≡ h
header_ext p1 p2 p3 p4 p5 p6 p7 p8 p9 p0 = λ i. record {
  message_len = p1 i;
  dest_uid = p2 i;
  src_uid = p3 i;
  tn = p4 i;
  port_id = p5 i;
  message_count = p6 i;
  sub_device = p7 i;
  cc = p8 i;
  pid = p9 i;
  pdl = p0 i;
}

pub uid_ext : {a c : Uid} → a.man_id ≡ c.man_id → a.dev_id ≡ c.dev_id → a ≡ c
uid_ext p q = λ i. record { man_id = p i; dev_id = q i }

pub be16_bytes : (n : ℕ) → n < 2 ^ 16 → be16 (n / 256 % 256) (n % 256) ≡ n
be16_bytes n h = omega arith

pub be32_bytes :
    (n : ℕ) → n < 2 ^ 32 → be32 (n / 16777216 % 256) (n / 65536 % 256) (n / 256 % 256) (n % 256) ≡ n
be32_bytes n h = omega arith

byte_lem : (n : ℕ) → n < 256 → n % 256 ≡ n
byte_lem n h = omega arith

-- Decoding the octets of a header gives its fields back.
decode_header-packet_header :
    (h : Header) (rest : List ℕ) → IsHeader h → decode_header (packet_header h ++ rest) ≡ h
unfolding decode_header
decode_header-packet_header h rest v =
    header_ext (byte_lem _ v.message_len_fits)
      (uid_ext (be16_bytes _ v.dest_fits.man_fits) (be32_bytes _ v.dest_fits.dev_fits))
      (uid_ext (be16_bytes _ v.src_fits.man_fits) (be32_bytes _ v.src_fits.dev_fits))
      (byte_lem _ v.tn_fits) (byte_lem _ v.port_id_fits) (byte_lem _ v.message_count_fits)
      (be16_bytes _ v.sub_device_fits) (byte_lem _ v.cc_fits) (be16_bytes _ v.pid_fits)
      (byte_lem _ v.pdl_fits)

read_standard_lem :
    (d : List ℕ) (len : ℕ)
    → get_or d 2 0 ≡ len
    → checksum len d 0 ≡ be16 (get_or d len 0) (get_or d (len + 1) 0)
    → read_standard d ≡ some (decode_header d)
unfolding read_standard
read_standard_lem d len e h = rw (e, h, ==_refl) refl

-- A frame whose third octet is its length and that carries its checksum is read.
pub read_header-framed :
    (len : ℕ) (r rest : List ℕ)
    → length (sc ∷ sub_sc ∷ len ∷ r) ≡ len
    → let d = framed (sc ∷ sub_sc ∷ len ∷ r) rest in read_header d ≡ some (decode_header d)
unfolding read_header
read_header-framed len r rest e = read_standard_lem d len refl (
    ap (λ k. checksum k d 0) (sym e)
    ∙ checksum-append x tail 0
    ∙ sym (cs_bytes cs)
    ∙ ap₂ be16 (sym (at_len)) (sym (at 1)))
  where
    x : List ℕ
    x = sc ∷ sub_sc ∷ len ∷ r

    cs : ℕ
    cs = checksum (length x) x 0

    tail : List ℕ
    tail = cs / 256 ∷ cs % 256 ∷ rest

    d : List ℕ
    d = x ++ tail

    cs_bytes : (n : ℕ) → be16 (n / 256) (n % 256) ≡ n
    cs_bytes n = omega arith

    at : (i : ℕ) → get_or d (len + i) 0 ≡ get_or tail i 0
    at i = ap (λ k. get_or d (k + i) 0) (sym e) ∙ get_or-append x tail i

    at_len : get_or d len 0 ≡ get_or tail 0 0
    at_len = ap (λ k. get_or d k 0) (omega arith) ∙ at 0

-- Reading a packet with room for its length gives the header back.
pub read_header-packet :
    (h : Header) (pd rest : List ℕ)
    → IsHeader h
    → h.message_len ≡ 24 + length pd
    → read_header (packet h pd rest) ≡ some h
unfolding decode_header
read_header-packet h pd rest v e =
    read_header-framed (h.message_len % 256) (drop 3 (packet_header h ++ pd)) rest len
    ∙ ap some (decode_header-packet_header h [] v)
  where
    len : length (packet_header h ++ pd) ≡ h.message_len % 256
    len = omega (arith, v.message_len_fits)

pub length-framed : (x rest : List ℕ) → length (framed x rest) ≡ length x + 2 + length rest
length-framed x rest =
    omega (
      arith,
      length-append x (checksum (length x) x 0 / 256 ∷ checksum (length x) x 0 % 256 ∷ rest),
    )
