-- ===== src/Receive/Late.antt =====
-- Receiving when no packet comes, or when it is too late for one.
use esp_dmx.Prelude.{
  ℕ, ◌+◌, ◌-◌, ◌<◌, ◌≤◌, ◌≡◌, refl, ap, ◌∙◌, true, false, none, some, [], ◌∷◌, ◌++◌, ltb, arith,
  ◌>>=◌, if◌then◌else◌, get_or,
}
use esp_dmx.Uart.{Link, ok, timeout, code, notify}
use esp_dmx.Uart.Receive.Packets.{Waiting}
use esp_dmx.Receive.{
  World, Outcome, receive_num, wait, await, awoken, describe, give, timed_out, expire, slots_of,
  start_code_is_rdm, request_to_response_max,
}
use esp_dmx.Receive.Answer.{Undisturbed, asleep, receive_num-wait, receive_num-await}

-- When the alarm of the timer ends the wait of a task that expects a packet, no slot having arrived,
-- `dmx_receive_num` returns 0 and describes a packet of no slots, which is not RDM, but the error is
-- DMX_OK, not DMX_ERR_TIMEOUT; no staged parameter is committed, no task is left waiting, and the
-- mutex is given back.
pub receive_num-expire :
    (w : World) (size wait_ticks : ℕ) (l : Link)
    → Undisturbed w wait_ticks l
    → w.now - l.controller_eop_timestamp ≤ 2800
    → Waiting l
    → 0 < size
    → ((k : Link) → w.during k ≡ some (expire k))
    → (o : Outcome) × (receive_num w size wait_ticks l ≡ some o)
      × (o.returned ≡ 0)
      × (o.packet ≡ record { err = ok; start_code = none; size = 0; is_rdm = false })
      × (o.commits ≡ false)
      × (o.link.task_waiting ≡ false)
      × (o.link.mux ≡ l.mux)
unfolding await awoken describe give expire notify
receive_num-expire w size wait_ticks l u soon v b d =
    let k : Link = expire (asleep w size l) in
    (
      describe ok k.head (record k { task_waiting = false; notices = [] }),
      receive_num-await w size wait_ticks l u soon v b
          ∙ ap (λ o. o >>= λ k. some (awoken k.notices k)) (d (asleep w size l))
          ∙ ap (λ ns. some (awoken (ns ++ (code ok ∷ [])) k)) u.told_nothing,
      ap slots_of v.head_is,
      ap
          (λ h.
            let start = if ltb 0 (slots_of h) then some (get_or l.data_ 0 0) else none in
            record {
              err = ok;
              start_code = start;
              size = slots_of h;
              is_rdm = start_code_is_rdm start;
            })
          v.head_is,
      refl,
      refl,
      omega arith,
    )

-- More than 2800 microseconds after its last packet, a controller that expects a packet does not
-- wait: `dmx_receive_num` returns 0 with DMX_ERR_TIMEOUT and gives the mutex back, whatever the
-- interrupts would do; but it leaves the task recorded as one that waits.
pub receive_num-late :
    (w : World) (size wait_ticks : ℕ) (l : Link)
    → Undisturbed w wait_ticks l
    → l.is_controller ≡ true
    → 2800 < w.now - l.controller_eop_timestamp
    → Waiting l
    → 0 < size
    → (o : Outcome) × (receive_num w size wait_ticks l ≡ some o)
      × (o.returned ≡ 0)
      × (o.packet ≡ record { err = timeout; start_code = none; size = 0; is_rdm = false })
      × (o.link.mux ≡ l.mux)
      × (o.link.task_waiting ≡ true)
unfolding wait timed_out give
receive_num-late w size wait_ticks l u c late v b =
    let t : ltb request_to_response_max (w.now - l.controller_eop_timestamp) ≡ true =
      ground arith in
    let k : Link = record l { size = size; mux = l.mux + 1; task_waiting = true } in
    (
      timed_out false (give k),
      receive_num-wait w size wait_ticks l u v b ∙ simp (c, t) refl,
      refl,
      refl,
      omega arith,
      refl,
    )
