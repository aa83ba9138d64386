-- ===== src/Send/Sizes.antt =====
-- What `dmx_send_num` sends: the packet that the codec has written, as a whole.
use esp_dmx.Prelude.{
  ℕ, ◌+◌, ◌-◌, ◌<◌, ◌≤◌, ◌≡◌, refl, sym, ap, ap₂, ◌∙◌, Bool, true, false, not, ◌&&◌, ◌||◌, inl, inr,
  Option, some, List, arith, ltb, ◌==◌, if◌then◌else◌, length, Bool-cases,
}
use esp_dmx.Packet.{Header, IsHeader, cc_is_valid, cc_is_request}
use esp_dmx.Packet.Read.{read_header}
use esp_dmx.Packet.Write as Codec
use esp_dmx.Packet.Standard.{Accepts}
use esp_dmx.Packet.Payload.{Encodes, read_header-Encodes}
use esp_dmx.Buffer.{sending}
use esp_dmx.Buffer.Sending.{same_buffer, same_size}
use esp_dmx.Send.{
  Driver, World, Timer, in_break, send_ready, rdm_packet, timer_alarm, send_size, record_packet,
  start_packet, await_alarm, transmit, send_num, is_discovery_response, responder_max,
}

-- The port may send now: the mutex is free, nothing is being sent, an alarm that is set arrives, and
-- a response is not too late.
pub record IsReady (w : World) (d : Driver) (as_controller : Bool) : Type 0 where
  pub taken : w.mutex_taken ≡ true
  pub quiet : w.is_sent ≡ true
  pub wakes : w.notified ≡ true
  pub in_time : as_controller ≡ false → w.now - d.controller_eop_timestamp ≤ responder_max

pub awaited :
    (w : World) (elapsed alarm : ℕ) (d : Driver)
    → w.notified ≡ true
    → (d' : Driver) × (await_alarm w elapsed alarm d ≡ some d')
      × (d'.is_controller ≡ d.is_controller)
      × (d'.data_ ≡ d.data_)
      × (d'.break_len ≡ d.break_len)
      × (d'.status ≡ d.status)
unfolding await_alarm
awaited w elapsed alarm d wakes = elim (Bool-cases (ltb elapsed alarm)) [
  | inl e ↦
      let set_timer : Timer = record {
        counter = elapsed;
        alarm = alarm;
        auto_reload = false;
        running = false;
      } in
      (record d { timer = set_timer }, rw (e, wakes) refl, refl, refl, refl, refl)
  | inr e ↦ (d, rw e refl, refl, refl, refl, refl)
]

started :
    (w : World) (h : Option Header) (size : ℕ) (d : Driver)
    → is_discovery_response h ≡ false
    → let d' = start_packet w h (record_packet h (record d { size = size })) in
      (d'.status ≡ sending)
      × (d'.progress ≡ in_break)
      × (d'.head ≡ 0)
      × (d'.size ≡ size)
      × (d'.data_ ≡ d.data_)
      × (d'.timer.alarm ≡ d.break_len)
unfolding start_packet record_packet
started w h size d e = elim (Bool-cases d.is_controller) [
  | inl c ↦ rw (e, c) (refl, refl, refl, refl, refl, refl)
  | inr c ↦ rw (e, c) (refl, refl, refl, refl, refl, refl)
]

valid_cc : (h : Header) → Codec.header_is_ok h ≡ true → cc_is_valid h.cc ≡ true
unfolding Codec.header_is_ok
valid_cc h e = ground arith

pub in_time_lem :
    (as_controller : Bool) (elapsed : ℕ)
    → (as_controller ≡ false → elapsed ≤ 2000)
    → (not as_controller && ltb 2000 elapsed) ≡ false
in_time_lem true elapsed h = refl
in_time_lem false elapsed h = let le = h refl in ground arith

pub send_num-ready :
    (w : World) (spacing : ℕ) (d : Driver) (h : Header) (size : ℕ)
    → read_header d.data_ ≡ some h
    → cc_is_valid h.cc ≡ true
    → w.mutex_taken ≡ true
    → w.is_sent ≡ true
    → send_num w spacing d size ≡ send_ready w spacing (some h) d size
unfolding send_num
send_num-ready w spacing d h size is_rdm valid taken quiet =
    rw gate (ap (λ o. send_ready w spacing o d size) packet)
  where
    gate : (not w.mutex_taken || not w.is_sent) ≡ false
    gate = ap₂ (λ a b. not a || not b) taken quiet

    packet : rdm_packet (read_header d.data_) ≡ some h
    packet = rw (is_rdm, valid) refl

pub send_ready-waits :
    (w : World) (spacing : ℕ) (d d' : Driver) (h : Header) (size : ℕ)
    → let d₁ = record d { is_controller = cc_is_request h.cc } in
      let elapsed = w.now - d.controller_eop_timestamp in
      await_alarm w elapsed (timer_alarm spacing d₁) d₁ ≡ some d'
      → send_ready w spacing (some h) d size
        ≡ some (transmit w (some h) size (w.now - d.controller_eop_timestamp) d')
unfolding send_ready
send_ready-waits w spacing d d' h size waits = rw (send_ready, waits) refl

-- A driver behind the turn of the bus.
abbrev pub turned : Driver → Driver
turned d = record d { rts = if d.rts == 1 then 0 else d.rts }

transmit-in_time :
    (w : World) (h : Header) (size elapsed : ℕ) (d : Driver)
    → (d.is_controller ≡ false → elapsed ≤ 2000)
    → is_discovery_response (some h) ≡ false
    → transmit w (some h) size elapsed d ≡ (
      h.message_len + 2,
      start_packet w
          (some h)
          (record_packet (some h) (record (turned d) { size = h.message_len + 2 })),
    )
unfolding transmit send_size
transmit-in_time w h size elapsed d soon other =
    rw (in_time_lem d.is_controller elapsed soon, other) refl

-- The call of `dmx_send_num` with a valid RDM packet in the buffer, not a discovery response.
pub sent :
    (w : World) (spacing : ℕ) (d : Driver) (h : Header) (size : ℕ)
    → read_header d.data_ ≡ some h
    → cc_is_valid h.cc ≡ true
    → is_discovery_response (some h) ≡ false
    → IsReady w d (cc_is_request h.cc)
    → (d' : Driver) × (send_num w spacing d size ≡ some (h.message_len + 2, d'))
      × (d'.status ≡ sending)
      × (d'.progress ≡ in_break)
      × (d'.head ≡ 0)
      × (d'.size ≡ h.message_len + 2)
      × (d'.data_ ≡ d.data_)
      × (d'.timer.alarm ≡ d.break_len)
sent w spacing d h size is_rdm valid other ready =
    let d₁ : Driver = record d { is_controller = cc_is_request h.cc } in
    let elapsed = w.now - d.controller_eop_timestamp in
    let (d₂, waits, role, same, breaks, status_kept) =
      awaited w elapsed (timer_alarm spacing d₁) d₁ ready.wakes in
    let (status, progress, head, sized, kept, alarm) =
      started w (some h) (h.message_len + 2) (turned d₂) other in
    (
      _,
      send_num-ready w spacing d h size is_rdm valid ready.taken ready.quiet
          ∙ send_ready-waits w spacing d d₂ h size waits
          ∙ ap some
              (transmit-in_time w h size elapsed d₂ (λ e. ready.in_time (sym role ∙ e)) other),
      status,
      progress,
      head,
      sized,
      kept ∙ same,
      alarm ∙ breaks,
    )

-- `dmx_send_num` on a port that is ready to send, with the packet in its buffer that `rdm_write`
-- has put there for an accepted header other than a discovery response, with parameter data or
-- without: it sends the size that `rdm_write` returned, whatever size it is called with, starts the
-- break, for as long as the port's setting says, and leaves the buffer as it is.
pub send_num-write :
    (fuel n : ℕ) (h : Header) (format pd : Option (List ℕ)) (out buf : List ℕ) (w : World)
    (spacing : ℕ) (d : Driver) (size : ℕ)
    → Accepts h format pd
    → IsHeader h
    → length buf ≡ 513
    → Encodes fuel h format pd out
    → length out < 231
    → Codec.write fuel h format pd buf ≡ some (n, d.data_)
    → IsReady w d (cc_is_request h.cc)
    → (d' : Driver) × (send_num w spacing d size ≡ some (n, d'))
      × (d'.status ≡ sending)
      × (d'.progress ≡ in_break)
      × (d'.head ≡ 0)
      × (d'.size ≡ n)
      × (d'.data_ ≡ d.data_)
      × (d'.timer.alarm ≡ d.break_len)
send_num-write fuel n h format pd out buf w spacing d size acc v len enc small wrote ready =
    let (buf', wrote', is_rdm) = read_header-Encodes fuel h format pd out buf acc v len enc small in
    let n_is : n ≡ 26 + length out = same_size wrote wrote' in
    let (d', sends, status, progress, head, sized, kept, alarm) =
      sent w spacing d (record h { message_len = 24 + length out; pdl = length out }) size
        (ap read_header (same_buffer wrote wrote') ∙ is_rdm) (valid_cc h acc.0) acc.3 ready in
    (
      d',
      sends ∙ ap (λ m. some (m, d')) (omega (arith, n_is)),
      status,
      progress,
      head,
      sized ∙ omega (arith, n_is),
      kept,
      alarm,
    )
