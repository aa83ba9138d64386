-- ===== src/Packet/Payload.antt =====
-- Packets with and without parameter data, as `rdm_write` puts them on the buffer.
use esp_dmx.Prelude.{
  ℕ, ◌+◌, ◌<◌, ◌≡◌, ◌⊎◌, sym, ap, ◌∙◌, inl, inr, List, [], ◌++◌, true, false, Option, none, some,
  arith, ltb, length, drop, write_at,
}
use mathlib.Core.Path.{subst}
use esp_dmx.Format.{finished, format_encode}
use esp_dmx.Packet.{Header, IsHeader}
use esp_dmx.Packet.Read.{read_header}
use esp_dmx.Packet.Write.{header_is_ok, append_checksum, write_body, write}
use esp_dmx.Packet.Layout.{write_at-zero, length-drop}
use esp_dmx.Packet.Frame.{packet_header, packet, length-framed, read_header-packet}
use esp_dmx.Packet.Standard.{
  Accepts, write-Accepts, header_is_ok-lengths, body_written, write-packet, read_header-write,
}

-- The header that `rdm_write` puts on the line.
abbrev pub resized : Header → List ℕ → Header
resized h out = record h { message_len = 24 + length out; pdl = length out }

-- What the encoder makes of the parameter data: `out` where the header announces some, nothing where
-- it announces none.
abbrev pub Encodes : ℕ → Header → Option (List ℕ) → Option (List ℕ) → List ℕ → Type 0
Encodes fuel h format pd out =
    ((p : List ℕ) × (pd ≡ some p)
      × (0 < h.pdl)
      × (format_encode fuel format p h.pdl false ≡ finished out (length out)))
    ⊎ ((h.pdl ≡ 0) × (out ≡ []))

-- Without parameter data, or with a header that announces none: `rdm_write` of an accepted header
-- other than a discovery response writes 26 octets.
write-packet_empty :
    (fuel : ℕ) (h : Header) (format : Option (List ℕ)) (pd : Option (List ℕ)) (buf : List ℕ)
    → Accepts h format pd
    → h.pdl ≡ 0
    → length buf ≡ 513
    → write fuel h format pd buf ≡ some (26, packet h [] (drop 26 buf))
write-packet_empty fuel h format pd buf acc z len = write-Accepts fuel h format pd buf acc ∙ bare pd
  where
    written : append_checksum 24 24 (write_at 0 (packet_header h) buf) ≡ packet h [] (drop 26 buf)
    written =
        ap (append_checksum 24 24) (write_at-zero (packet_header h) buf (omega arith))
        ∙ ap (λ y. append_checksum 24 24 (packet_header h ++ y))
            (sym (write_at-zero [] (drop 24 buf) (omega arith)))
        ∙ body_written h [] buf len (omega arith)

    none_left : ltb 0 h.pdl ≡ false
    none_left = ground arith

    bare :
        (pd : Option (List ℕ))
        → write_body fuel h format pd (write_at 0 (packet_header h) buf)
          ≡ some (26, packet h [] (drop 26 buf))
    bare none = unfold write_body in ap (λ b. some (26, b)) written
    bare (some p) = unfold write_body in rw none_left (ap (λ b. some (26, b)) written)

-- Such a packet reads back as the header.
pub read_header-write_empty :
    (fuel : ℕ) (h : Header) (format : Option (List ℕ)) (pd : Option (List ℕ)) (buf : List ℕ)
    → Accepts h format pd
    → IsHeader h
    → h.pdl ≡ 0
    → length buf ≡ 513
    → (buf' : List ℕ) × (write fuel h format pd buf ≡ some (26, buf'))
      × (length buf' ≡ 513)
      × (read_header buf' ≡ some h)
read_header-write_empty fuel h format pd buf acc v z len = (
  packet h [] (drop 26 buf),
  write-packet_empty fuel h format pd buf acc z len,
  omega (
    arith,
    length-framed (packet_header h ++ []) (drop 26 buf),
    length-drop 26 487 buf (omega arith),
  ),
  read_header-packet h [] _ v (omega (arith, header_is_ok-lengths h acc.0)),
)

resized-empty : (h : Header) → header_is_ok h ≡ true → h.pdl ≡ 0 → h ≡ resized h []
resized-empty h ok z =
    let m : h.message_len ≡ 24 = omega (arith, header_is_ok-lengths h ok) in
    λ i. record h { message_len = m i; pdl = z i }

-- `rdm_write` of an accepted header other than a discovery response writes the packet of the header
-- with its two lengths those of `out`.
pub write-Encodes :
    (fuel : ℕ) (h : Header) (format pd : Option (List ℕ)) (out buf : List ℕ)
    → Accepts h format pd
    → IsHeader h
    → length buf ≡ 513
    → Encodes fuel h format pd out
    → length out < 231
    → write fuel h format pd buf
      ≡ some (26 + length out, packet (resized h out) out (drop (26 + length out) buf))
write-Encodes fuel h format pd out buf acc v len (inl (p, is_p, pos, enc)) small =
    ap (λ x. write fuel h format x buf) is_p
    ∙ write-packet fuel h format p out buf (subst (λ x. Accepts h format x) is_p acc) v pos len enc
        small
write-Encodes fuel h format pd out buf acc v len (inr (z, nothing)) small =
    write-packet_empty fuel h format pd buf acc z len
    ∙ ap (λ x. some (26, packet x [] (drop 26 buf))) (resized-empty h acc.0 z)
    ∙ ap (λ o. some (26 + length o, packet (resized h o) o (drop (26 + length o) buf)))
        (sym nothing)

-- It reads back as that header.
pub read_header-Encodes :
    (fuel : ℕ) (h : Header) (format pd : Option (List ℕ)) (out buf : List ℕ)
    → Accepts h format pd
    → IsHeader h
    → length buf ≡ 513
    → Encodes fuel h format pd out
    → length out < 231
    → (buf' : List ℕ) × (write fuel h format pd buf ≡ some (26 + length out, buf'))
      × (read_header buf' ≡ some (resized h out))
read_header-Encodes fuel h format pd out buf acc v len (inl (p, is_p, pos, enc)) small =
    let (buf', wrote, _, reads) =
      read_header-write fuel h format p out buf (subst (λ x. Accepts h format x) is_p acc) v pos len
        enc small in
    (buf', ap (λ x. write fuel h format x buf) is_p ∙ wrote, reads)
read_header-Encodes fuel h format pd out buf acc v len (inr (z, nothing)) small =
    let (buf', wrote, _, reads) = read_header-write_empty fuel h format pd buf acc v z len in
    (
      buf',
      wrote ∙ ap (λ o. some (26 + length o, buf')) (sym nothing),
      reads ∙ ap some (resized-empty h acc.0 z) ∙ ap (λ o. some (resized h o)) (sym nothing),
    )
