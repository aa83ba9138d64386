-- ===== src/Buffer/Sending.antt =====
-- What keeps a packet in the buffer while it is being sent.
use esp_dmx.Prelude.{
  none, true, ◌⊎◌, ◌&&◌, ◌||◌, ◌==◌, ◌∙◌, sym, ap, ℕ, ◌<◌, ◌≡◌, refl, Option, some, List, inl, inr,
  ltb, length, Bool-cases, Option-cases,
}
use esp_dmx.Uid.{IsUid}
use esp_dmx.Format.{format_is_valid}
use esp_dmx.Packet.{Header, IsHeader, disc_command_response, pid_disc_unique_branch}
use esp_dmx.Packet.Read.{read_header}
use esp_dmx.Packet.Write as Codec
use esp_dmx.Packet.Standard.{Accepts}
use esp_dmx.Packet.Payload.{resized, Encodes, read_header-Encodes}
use esp_dmx.Packet.Discovery.{response_from, read_header-write_discovery}
use esp_dmx.Buffer.{Port, sending, clamp_size, write_offset}

pub same_buffer :
    {n m : ℕ} {xs ys : List ℕ} {r : Option (ℕ × List ℕ)}
    → r ≡ some (n, xs)
    → r ≡ some (m, ys)
    → xs ≡ ys
same_buffer {n} {m} {xs} p q =
    ap (λ (o : Option (ℕ × List ℕ)). elim o [ none ↦ xs | some x ↦ x.1 ]) (sym p ∙ q)

pub same_size :
    {n m : ℕ} {xs ys : List ℕ} {r : Option (ℕ × List ℕ)}
    → r ≡ some (n, xs)
    → r ≡ some (m, ys)
    → n ≡ m
same_size {n} p q = ap (λ (o : Option (ℕ × List ℕ)). elim o [ none ↦ n | some x ↦ x.0 ]) (sym p ∙ q)

refused :
    (port : Port) (h : Header) (offset size : ℕ) (source : List ℕ)
    → port.status ≡ sending
    → read_header port.data_ ≡ some h
    → write_offset port offset source size ≡ some (0, port)
unfolding write_offset
refused port h offset size source busy is_rdm = elim (Bool-cases (ltb offset 513)) [
  | inl inside ↦ elim (Option-cases (clamp_size offset size)) [
    | inl nothing ↦ rw (inside, nothing) refl
    | inr (n, some_size) ↦ rw (inside, some_size, busy, is_rdm) refl
  ]
  | inr outside ↦ rw outside refl
]

-- A discovery response that `rdm_write` accepts.
pub record IsDiscoveryResponse (h : Header) (format pd : Option (List ℕ)) : Type 0 where
  pub ok : Codec.header_is_ok h ≡ true
  pub valid : format_is_valid format ≡ some true
  pub given : (h.pdl == 0 || (Codec.is_some format && Codec.is_some pd)) ≡ true
  pub cc_is : h.cc ≡ disc_command_response
  pub pid_is : h.pid ≡ pid_disc_unique_branch
  pub src_fits : IsUid h.src_uid

-- Any other packet that it accepts, of at most 230 octets of parameter data.
pub record IsStandard (fuel : ℕ) (h : Header) (format pd : Option (List ℕ)) : Type 0 where
  pub out : List ℕ
  pub accepted : Accepts h format pd
  pub fits : IsHeader h
  pub encodes : Encodes fuel h format pd out
  pub small : length out < 231

written-reads :
    (fuel n : ℕ) (h : Header) (format pd : Option (List ℕ)) (buf packet : List ℕ)
    → (IsStandard fuel h format pd) ⊎ (IsDiscoveryResponse h format pd)
    → length buf ≡ 513
    → Codec.write fuel h format pd buf ≡ some (n, packet)
    → (h' : Header) × (read_header packet ≡ some h')
written-reads fuel n h format pd buf packet (inl a) len wrote =
    let (buf', wrote', is_rdm) =
      read_header-Encodes fuel h format pd a.out buf a.accepted a.fits len a.encodes a.small in
    (resized h a.out, ap read_header (same_buffer wrote wrote') ∙ is_rdm)
written-reads fuel n h format pd buf packet (inr a) len wrote =
    let (buf', wrote', _, is_rdm) =
      read_header-write_discovery fuel h format pd buf a.ok a.valid a.given a.cc_is a.pid_is
        a.src_fits len in
    (response_from h.src_uid, ap read_header (same_buffer wrote wrote') ∙ is_rdm)

-- While a port sends the packet that `rdm_write` has put on its buffer for an accepted header, with
-- or without parameter data, or for an accepted discovery response, `dmx_write_offset` writes
-- nothing, whatever the offset, the size and the source.
pub write_offset-write :
    (fuel n : ℕ) (h : Header) (format pd : Option (List ℕ)) (buf : List ℕ) (port : Port)
    (offset size : ℕ) (source : List ℕ)
    → (IsStandard fuel h format pd) ⊎ (IsDiscoveryResponse h format pd)
    → length buf ≡ 513
    → Codec.write fuel h format pd buf ≡ some (n, port.data_)
    → port.status ≡ sending
    → write_offset port offset source size ≡ some (0, port)
write_offset-write fuel n h format pd buf port offset size source accepted len wrote busy =
    let (h', is_rdm) = written-reads fuel n h format pd buf port.data_ accepted len wrote in
    refused port h' offset size source busy is_rdm
