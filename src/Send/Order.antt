-- ===== src/Send/Order.antt =====
-- The order of a packet's parts: the break, the mark-after-break, the slots; and a response that
-- comes too late.
use esp_dmx.Prelude.{
  ℕ, ◌-◌, ◌<◌, ◌≡◌, refl, ap, ap₂, ◌∙◌, true, false, Option, some, [], take, lt→ltb, if◌then◌else◌,
}
use esp_dmx.Packet.{Header, cc_is_valid, cc_is_request}
use esp_dmx.Packet.Read.{read_header}
use esp_dmx.Buffer.{sending, is_sending}
use esp_dmx.Send.{
  Driver, World, in_break, in_mab, timer_isr, next_phase, transmit, send_num, timer_alarm,
}
use esp_dmx.Send.Sizes.{awaited, send_num-ready, send_ready-waits}

-- What an alarm leaves behind the break, and behind the mark-after-break.
abbrev released : Driver → Driver
released d = record d {
  tx_inverted = false;
  progress = in_mab;
  timer = record d.timer { alarm = d.mab_len; auto_reload = false };
}

abbrev transmitting : World → Driver → Driver
transmitting w d = record d {
  head = w.write_txfifo d.size;
  timer = record d.timer { running = false };
  tx_interrupts = true;
}

isr-in_break :
    (w : World) (d : Driver)
    → d.status ≡ sending
    → d.progress ≡ in_break
    → timer_isr w d ≡ (released d, [])
unfolding timer_isr next_phase
isr-in_break w d busy brk =
    ap₂
      (λ s p.
        if is_sending s
        then next_phase w p d
        else (record d { timer = record d.timer { running = false } }, []))
      busy brk

isr-in_mab :
    (w : World) (d : Driver)
    → d.status ≡ sending
    → d.progress ≡ in_mab
    → timer_isr w d ≡ (transmitting w d, take (w.write_txfifo d.size) d.data_)
unfolding timer_isr next_phase
isr-in_mab w d busy mab =
    ap₂
      (λ s p.
        if is_sending s
        then next_phase w p d
        else (record d { timer = record d.timer { running = false } }, []))
      busy mab

-- From the start of a packet's break, the timer's first alarm ends the break, sets the alarm for the
-- end of the mark-after-break, and gives no slot to the UART. The second one gives the UART the
-- packet's first slots, as many as its queue has room for, and leaves the head behind them, the
-- interrupts for the others enabled, the line no longer inverted, the packet and its size as they
-- were, and the timer stopped: it was the last one of the packet.
pub alarms-in_break :
    (w : World) (d : Driver)
    → d.status ≡ sending
    → d.progress ≡ in_break
    → let (d₁, slots₁) = timer_isr w d in
      let (d₂, slots₂) = timer_isr w d₁ in
      ((d₁.progress ≡ in_mab)
        × (d₁.tx_inverted ≡ false)
        × (d₁.tx_interrupts ≡ d.tx_interrupts)
        × (d₁.timer.alarm ≡ d.mab_len)
        × (slots₁ ≡ []))
      × ((slots₂ ≡ take d₂.head d.data_)
          × (d₂.head ≡ w.write_txfifo d.size)
          × (d₂.tx_interrupts ≡ true)
          × (d₂.tx_inverted ≡ false)
          × (d₂.timer.running ≡ false)
          × (d₂.data_ ≡ d.data_)
          × (d₂.size ≡ d.size))
alarms-in_break w d busy brk =
    rw (isr-in_break w d busy brk, isr-in_mab w (released d) busy refl)
      ((refl, refl, refl, refl, refl), (refl, refl, refl, refl, refl, refl, refl))

transmit-late :
    (w : World) (h : Option Header) (size elapsed : ℕ) (d : Driver)
    → d.is_controller ≡ false
    → 2000 < elapsed
    → transmit w h size elapsed d ≡ (0, d)
unfolding transmit
transmit-late w h size elapsed d role late = rw (role, lt→ltb 2000 elapsed late) refl

-- `dmx_send_num` sends no valid RDM response later than 2000 microseconds after the end of the
-- controller's packet: it returns 0 and leaves the packet in the buffer.
pub send_num-late :
    (w : World) (spacing : ℕ) (d : Driver) (h : Header) (size : ℕ)
    → w.mutex_taken ≡ true
    → w.is_sent ≡ true
    → w.notified ≡ true
    → read_header d.data_ ≡ some h
    → cc_is_valid h.cc ≡ true
    → cc_is_request h.cc ≡ false
    → 2000 < w.now - d.controller_eop_timestamp
    → (d' : Driver) × (send_num w spacing d size ≡ some (0, d'))
      × (d'.data_ ≡ d.data_)
      × (d'.status ≡ d.status)
send_num-late w spacing d h size taken quiet wakes is_rdm valid response late =
    let d₁ : Driver = record d { is_controller = cc_is_request h.cc } in
    let elapsed = w.now - d.controller_eop_timestamp in
    let (d₂, waits, role, same, breaks, status) =
      awaited w elapsed (timer_alarm spacing d₁) d₁ wakes in
    (
      d₂,
      send_num-ready w spacing d h size is_rdm valid taken quiet
          ∙ send_ready-waits w spacing d d₂ h size waits
          ∙ ap some (transmit-late w (some h) size elapsed d₂ (role ∙ response) late),
      same,
      status,
    )
