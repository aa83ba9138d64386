-- ===== src/Uart/Transmit/Delivery.antt =====
-- A packet from the buffer of one device, over the line, to the buffer of another.
use esp_dmx.Prelude.{
  ℕ, ◌+◌, ◌<◌, ◌≤◌, ◌≡◌, refl, sym, ap, ◌∙◌, true, Option, some, List, [], ◌∷◌, ◌++◌, arith, map,
  length, take, drop, append_assoc,
}
use mathlib.Core.Path.{subst}
use esp_dmx.Packet.{Header, IsHeader, cc_is_valid}
use esp_dmx.Packet.Write.{write}
use esp_dmx.Packet.Layout.{take-append}
use esp_dmx.Packet.Frame.{packet, packet_header, length-framed}
use esp_dmx.Packet.Standard.{Accepts, resized-IsHeader}
use esp_dmx.Packet.Payload.{resized, Encodes, write-Encodes}
use esp_dmx.Uart.{Link}
use esp_dmx.Uart.Receive.Whole.{Arrival, joined, interrupts, Received}
use esp_dmx.Uart.Receive.Packets.{Waiting, interrupts-packet}
use esp_dmx.Uart.Transmit.{uart_isr}
use esp_dmx.Uart.Transmit.Whole.{ready, sum, uart_isr-sends}

packet-front :
    (h : Header) (pd rest : List ℕ) (n : ℕ)
    → n ≡ 26 + length pd
    → take n (packet h pd rest) ≡ packet h pd []
packet-front h pd rest n e =
    ap (λ d. take n d) (sym (append_assoc (packet_header h ++ pd) _ rest))
    ∙ ap (λ k. take k (packet h pd [] ++ rest)) (e ∙ len)
    ∙ take-append (packet h pd []) rest
  where
    len : 26 + length pd ≡ length (packet h pd [])
    len = omega (arith, length-framed (packet_header h ++ pd) [])

-- What `rdm_write` writes for a well-formed, accepted header of a valid command class other than a
-- discovery response, without parameter data or with data that the encoder turns into `out`, of at
-- most 230 octets, reaches another device: passes with enough room send all that was written; and if a driver that waits for
-- a packet gets these slots, a slot or more at every call of the interrupt, the packet is complete
-- there, its header is the one given to `rdm_write` with its two lengths those of `out`, and a task
-- that waits has been notified once, with DMX_OK.
pub interrupts-uart_isr-write :
    (fuel : ℕ) (h : Header) (format pd : Option (List ℕ)) (out : List ℕ)
    → (s r : Link) (now room : ℕ) (rooms : List ℕ) (calls : List Arrival) → Accepts h format pd
    → IsHeader h
    → cc_is_valid h.cc ≡ true
    → length out < 231
    → Encodes fuel h format pd out
    → length s.data_ ≡ 513
    → s.head ≡ some 0
    → s.tx_sent ≡ []
    → 26 + length out ≤ sum (room ∷ rooms)
    → joined calls ≡ packet (resized h out) out []
    → Waiting r
    → (buf' : List ℕ) × (write fuel h format pd s.data_ ≡ some (26 + length out, buf'))
      × (s' : Link) × (uart_isr now
            (map ready (room ∷ rooms))
            (record s { data_ = buf'; size = 26 + length out })
          ≡ some s')
      × (s'.tx_sent ≡ joined calls)
      × (r' : Link) × (interrupts calls r ≡ some r')
      × Received (resized h out) (26 + length out) r r'
interrupts-uart_isr-write fuel h format pd out s r now room rooms calls acc v c small enc len at_0
      none_sent b j wait =
    let buf' : List ℕ = packet (resized h out) out (drop (26 + length out) s.data_) in
    let (s', e, f, _, _, _) =
      uart_isr-sends now room rooms (record s { data_ = buf'; size = 26 + length out }) at_0
        none_sent b in
    let (r', g, k) =
      interrupts-packet (resized h out) out calls r (resized-IsHeader h (length out) v small) refl c
        j wait in
    (
      buf',
      write-Encodes fuel h format pd out s.data_ acc v len enc small,
      s',
      e,
      f ∙ packet-front (resized h out) out _ _ refl ∙ sym j,
      r',
      g,
      subst (λ n. Received (resized h out) n r r') (omega arith) k,
    )
