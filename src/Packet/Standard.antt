-- ===== src/Packet/Standard.antt =====
-- Standard packets: what `rdm_write` puts on the buffer, and reading it back.
use esp_dmx.Prelude.{
  ℕ, ◌+◌, ◌-◌, ◌/◌, ◌%◌, ◌<◌, ◌≤◌, ◌≡◌, refl, ap, ap₂, ◌∙◌, inl, inr, List, [], ◌∷◌, ◌++◌, true,
  false, Option, some, arith, ◌==◌, length, length-append, drop, write_at, ◌&&◌, ◌||◌, Bool-cases,
  lt→ltb,
}
use esp_dmx.Format.{finished, format_encode, format_is_valid}
use esp_dmx.Packet.{Header, IsHeader, sc, sub_sc, disc_command_response, pid_disc_unique_branch}
use esp_dmx.Packet.Read.{checksum, read_header}
use esp_dmx.Packet.Write.{
  header_is_ok, is_some, append_checksum, write_body, write, finish_body, finish_header,
}
use esp_dmx.Packet.Layout.{write_at-zero, write_at-append, checksum-append, length-drop, drop-drop}
use esp_dmx.Packet.Frame.{
  packet_header, encode_header, framed, packet, length-framed, read_header-packet,
}

-- The checksum's two octets are put behind the octets that they are summed over.
append_checksum-framed :
    (x y : List ℕ) (n : ℕ)
    → n ≡ length x + 2
    → 2 ≤ length y
    → append_checksum n n (sc ∷ sub_sc ∷ (x ++ y)) ≡ framed (sc ∷ sub_sc ∷ x) (drop 2 y)
unfolding append_checksum checksum
append_checksum-framed x y n e h =
    ap₂ (λ k c. write_at k (c / 256 ∷ c % 256 ∷ []) (sc ∷ sub_sc ∷ (x ++ y))) at_end same
    ∙ write_at-append (sc ∷ sub_sc ∷ x) _ y
    ∙ ap (λ z. sc ∷ sub_sc ∷ (x ++ z)) (write_at-zero _ y h)
  where
    same :
        checksum (n - 2) (x ++ y) (sc + sub_sc)
        ≡ checksum (length (sc ∷ sub_sc ∷ x)) (sc ∷ sub_sc ∷ x) 0
    same = ap (λ k. checksum k (x ++ y) 205) (omega arith) ∙ checksum-append x y 205

    at_end : n ≡ length (sc ∷ sub_sc ∷ x)
    at_end = omega arith

-- The checks of `rdm_write` before it looks at the packet's kind.
abbrev pub Accepts : Header → Option (List ℕ) → Option (List ℕ) → Type 0
Accepts h format pd =
    (header_is_ok h ≡ true)
    × (format_is_valid format ≡ some true)
    × ((h.pdl == 0 || (is_some format && is_some pd)) ≡ true)
    × ((h.cc == disc_command_response && h.pid == pid_disc_unique_branch) ≡ false)

pub write-Accepts :
    (fuel : ℕ) (h : Header) (format pd : Option (List ℕ)) (buf : List ℕ)
    → Accepts h format pd
    → write fuel h format pd buf ≡ write_body fuel h format pd (write_at 0 (packet_header h) buf)
unfolding write finish_header
write-Accepts fuel h format pd buf (a, b, c, d) = rw (a, b, c, d, encode_header h) refl

pub header_is_ok-lengths : (h : Header) → header_is_ok h ≡ true → h.message_len ≡ 24 + h.pdl
unfolding header_is_ok
header_is_ok-lengths h e = ground arith

pub body_written :
    (h : Header) (out buf : List ℕ)
    → length buf ≡ 513
    → length out < 231
    → let n = length out in
      append_checksum (24 + n) (24 + n) (packet_header h ++ write_at 0 out (drop 24 buf))
      ≡ packet h out (drop (26 + n) buf)
body_written h out buf len small =
    ap (λ y. append_checksum (24 + n) (24 + n) (packet_header h ++ y))
      (write_at-zero out (drop 24 buf) (omega (arith, left)))
    ∙ append_checksum-framed (drop 2 (packet_header h) ++ out) (drop n (drop 24 buf)) (24 + n)
        (omega arith) (omega (arith, length-drop n (489 - n) (drop 24 buf) (omega (arith, left))))
    ∙ ap (packet h out) (
        ap (drop 2) (drop-drop 24 n buf)
        ∙ drop-drop (24 + n) 2 buf
        ∙ ap (λ k. drop k buf) (omega arith))
  where
    n : ℕ
    n = length out

    left : length (drop 24 buf) ≡ 489
    left = length-drop 24 489 buf (omega arith)

-- `rdm_write` of an accepted header other than a discovery response, with parameter data that the
-- encoder turns into `out`, of at most 230 octets: the size written is 26 more than that, and the
-- buffer holds the packet of the header with its two lengths corrected; what follows it is kept.
pub write-packet :
    (fuel : ℕ) (h : Header) (format : Option (List ℕ)) (pd out buf : List ℕ)
    → Accepts h format (some pd)
    → IsHeader h
    → 0 < h.pdl
    → length buf ≡ 513
    → format_encode fuel format pd h.pdl false ≡ finished out (length out)
    → length out < 231
    → write fuel h format (some pd) buf
      ≡ some (
        26 + length out,
        packet
            (record h { message_len = 24 + length out; pdl = length out })
            out
            (drop (26 + length out) buf),
      )
unfolding write_body finish_body
write-packet fuel h format pd out buf acc v pos len enc small =
    write-Accepts fuel h format (some pd) buf acc
    ∙ rw
        (
          lt→ltb 0 h.pdl pos,
          enc,
          write_at-zero (packet_header h) buf (omega arith),
          write_at-append (packet_header h) out (drop 24 buf),
        )
        (elim (Bool-cases (h.pdl == length out)) [
          | inl e ↦ rw e (ap some (same e))
          | inr e ↦ rw e (
              ap₂ (λ a c. some (a, c)) (omega arith)
                (body_written (record h { message_len = 24 + length out; pdl = length out }) out buf
                  len small))
        ])
  where
    same :
        (h.pdl == length out) ≡ true
        → ◌≡◌ {A = ℕ × List ℕ}
            (
              h.message_len + 2,
              append_checksum h.message_len
                  (24 + length out)
                  (packet_header h ++ write_at 0 out (drop 24 buf)),
            )
            (
              26 + length out,
              packet
                  (record h { message_len = 24 + length out; pdl = length out })
                  out
                  (drop (26 + length out) buf),
            )
    same e =
        let p : h.pdl ≡ length out = ground arith in
        let m : h.message_len ≡ 24 + length out = omega (arith, header_is_ok-lengths h acc.0) in
        ap₂ (λ a c. (a, c)) (omega arith)
          (ap
              (λ k.
                append_checksum k (24 + length out)
                  (packet_header h ++ write_at 0 out (drop 24 buf)))
              m
            ∙ body_written h out buf len small
            ∙ ap₂
                (λ a c.
                  packet (record h { message_len = a; pdl = c }) out (drop (26 + length out) buf))
                m p)

pub resized-IsHeader :
    (h : Header) (n : ℕ)
    → IsHeader h
    → n < 231
    → IsHeader (record h { message_len = 24 + n; pdl = n })
resized-IsHeader h n v small = record {
  message_len_fits = omega arith;
  dest_fits = v.dest_fits;
  src_fits = v.src_fits;
  tn_fits = v.tn_fits;
  port_id_fits = v.port_id_fits;
  message_count_fits = v.message_count_fits;
  sub_device_fits = v.sub_device_fits;
  cc_fits = v.cc_fits;
  pid_fits = v.pid_fits;
  pdl_fits = omega arith;
}

-- `rdm_read_header` of what `rdm_write` wrote for a well-formed, accepted header other than a
-- discovery response, with data that the encoder turns into `out`, of at most 230 octets, gives the
-- header back, with its two lengths those of `out`.
pub read_header-write :
    (fuel : ℕ) (h : Header) (format : Option (List ℕ)) (pd out buf : List ℕ)
    → Accepts h format (some pd)
    → IsHeader h
    → 0 < h.pdl
    → length buf ≡ 513
    → format_encode fuel format pd h.pdl false ≡ finished out (length out)
    → length out < 231
    → (buf' : List ℕ) × (write fuel h format (some pd) buf ≡ some (26 + length out, buf'))
      × (length buf' ≡ 513)
      × (read_header buf' ≡ some (record h { message_len = 24 + length out; pdl = length out }))
read_header-write fuel h format pd out buf acc v pos len enc small = (
  packet h' out (drop (26 + length out) buf),
  write-packet fuel h format pd out buf acc v pos len enc small,
  whole,
  read_header-packet h' out _ (resized-IsHeader h (length out) v small) refl,
)
  where
    h' : Header
    h' = record h { message_len = 24 + length out; pdl = length out }

    whole : length (packet h' out (drop (26 + length out) buf)) ≡ 513
    whole = omega (
      arith,
      length-framed (packet_header h' ++ out) (drop (26 + length out) buf),
      length-append (packet_header h') out,
      length-drop (26 + length out) (487 - length out) buf (omega arith),
    )
