-- ===== src/Send/AtOnce.antt =====
-- Sending a response to DISC_UNIQUE_BRANCH, which has no break.
use esp_dmx.Prelude.{ℕ, ◌-◌, ◌≤◌, ◌≡◌, refl, sym, ap, ◌∙◌, true, false, inl, inr, some, Bool-cases}
use esp_dmx.Packet.{Header, cc_is_valid, cc_is_request}
use esp_dmx.Packet.Read.{read_header}
use esp_dmx.Buffer.{sending}
use esp_dmx.Send.{
  Driver, World, transmit, send_size, record_packet, start_packet, send_num, timer_alarm,
  is_discovery_response,
}
use esp_dmx.Send.Sizes.{IsReady, awaited, turned, in_time_lem, send_num-ready, send_ready-waits}

transmit_lem :
    (w : World) (h : Header) (size elapsed : ℕ) (d : Driver)
    → (d.is_controller ≡ false → elapsed ≤ 2000)
    → is_discovery_response (some h) ≡ true
    → transmit w (some h) size elapsed d ≡ (
      h.message_len,
      start_packet w (some h) (record_packet (some h) (record (turned d) { size = h.message_len })),
    )
unfolding transmit send_size
transmit_lem w h size elapsed d soon e = rw (in_time_lem d.is_controller elapsed soon, e) refl

started :
    (w : World) (h : Header) (size : ℕ) (d : Driver)
    → is_discovery_response (some h) ≡ true
    → let d' = start_packet w (some h) (record_packet (some h) (record d { size = size })) in
      (d'.status ≡ sending) × (d'.size ≡ size) × (d'.data_ ≡ d.data_)
unfolding start_packet record_packet
started w h size d e = elim (Bool-cases d.is_controller) [
  | inl c ↦ rw (e, c) (refl, refl, refl)
  | inr c ↦ rw (e, c) (refl, refl, refl)
]

-- The call of `dmx_send_num` with a discovery response in the buffer.
pub sent_at_once :
    (w : World) (spacing : ℕ) (d : Driver) (h : Header) (size : ℕ)
    → read_header d.data_ ≡ some h
    → cc_is_valid h.cc ≡ true
    → is_discovery_response (some h) ≡ true
    → IsReady w d (cc_is_request h.cc)
    → (d' : Driver) × (send_num w spacing d size ≡ some (h.message_len, d'))
      × (d'.status ≡ sending)
      × (d'.size ≡ h.message_len)
      × (d'.data_ ≡ d.data_)
sent_at_once w spacing d h size is_rdm valid e ready =
    let d₁ : Driver = record d { is_controller = cc_is_request h.cc } in
    let elapsed = w.now - d.controller_eop_timestamp in
    let (d₂, waits, role, same, _, _) = awaited w elapsed (timer_alarm spacing d₁) d₁ ready.wakes in
    let (status, sized, kept) = started w h h.message_len (turned d₂) e in
    (
      start_packet w (some h)
          (record_packet (some h) (record (turned d₂) { size = h.message_len })),
      send_num-ready w spacing d h size is_rdm valid ready.taken ready.quiet
          ∙ send_ready-waits w spacing d d₂ h size waits
          ∙ ap some (transmit_lem w h size elapsed d₂ (λ c. ready.in_time (sym role ∙ c)) e),
      status,
      sized,
      kept ∙ same,
    )
