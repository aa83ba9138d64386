-- ===== src/Receive/Answer.antt =====
-- A task that receives a standard RDM packet.
use esp_dmx.Prelude.{
  ℕ, ◌+◌, ◌-◌, ◌<◌, ◌≤◌, ◌≡◌, refl, ap, ap₂, ◌∙◌, Bool, true, false, Bool-cases, lt→ltb, inl, inr,
  Option, none, some, List, [], ◌∷◌, ◌++◌, ltb, ◌==◌, arith, ◌>>=◌, if◌then◌else◌, length, not,
  ◌&&◌,
}
use esp_dmx.Packet.{Header, IsHeader, sc, cc_is_valid}
use esp_dmx.Packet.Read.{read_header}
use esp_dmx.Packet.Frame.{packet}
use esp_dmx.Send.{Progress, stale, in_break, in_mab, in_data, complete, Timer}
use esp_dmx.Uart.{Link, Err, ok, code}
use esp_dmx.Uart.Parse.{opened}
use esp_dmx.Uart.Receive.Whole.{Arrival, joined, interrupts}
use esp_dmx.Uart.Receive.Packets.{Waiting, interrupts-packet}
use esp_dmx.Receive.{
  World, Outcome, Packet, receive_num, receive_ready, enable_reading, resize, is_complete, wait,
  await, awoken, describe, give, timed_out, reached, is_stale, slots_of, start_code_is_rdm,
  request_to_response_max,
}

-- The call is not kept from waiting.
pub record Undisturbed (w : World) (wait_ticks : ℕ) (l : Link) : Type 0 where
  pub taken : w.mutex_taken ≡ true
  pub in_time : w.late ≡ false
  pub sent : w.is_sent ≡ true
  pub still_in_time : w.late_sent ≡ false
  pub waits : 0 < wait_ticks
  pub reading : l.rts ≡ 1
  pub told_nothing : l.notices ≡ []

-- The driver when the task begins to wait.
abbrev pub asleep : World → ℕ → Link → Link
asleep w size l = record l {
  mux = l.mux + 1;
  size = size;
  task_waiting = true;
  timer =
      if l.is_controller
      then record {
        counter = w.now - l.controller_eop_timestamp;
        alarm = request_to_response_max;
        auto_reload = false;
        running = true;
      }
      else l.timer;
}

not_reached : (size : ℕ) (h : Option ℕ) → h ≡ some 0 → 0 < size → reached size h ≡ false
not_reached size h e b = ap (reached size) e ∙ (ground arith)

resize_lem :
    (size : ℕ) (l : Link) → l.head ≡ some 0 → 0 < size → resize size l ≡ record l { size = size }
unfolding resize
resize_lem size l h b = elim (Bool-cases (size == l.size)) [
  | inl e ↦
      let same : l.size ≡ size = ground arith in
      ap (λ t. if t then l else changed (reached size l.head)) e ∙ (λ i. record l { size = same i })
  | inr e ↦
      ap (λ t. if t then l else changed (reached size l.head)) e
      ∙ ap changed (not_reached size l.head h b)
      ∙ (λ i. record l { size = size; progress = kept (is_stale l.progress) i })
]
  where
    changed : Bool → Link
    changed t = record l {
      size = size;
      progress = if not (is_stale l.progress) && t then complete else l.progress;
    }

    kept : (t : Bool) → (if not t && false then complete else l.progress) ≡ l.progress
    kept true = refl
    kept false = refl

enable_reading_lem : (l : Link) → l.rts ≡ 1 → enable_reading l ≡ l
unfolding enable_reading
enable_reading_lem l e =
    ap
      (λ r. if r == 0 then record l { notices = []; progress = stale; head = none; rts = 1 } else l)
      e

not_complete : (p : Progress) → opened p ≡ in_data → is_complete p ≡ false
not_complete stale e = refl
not_complete in_break e = refl
not_complete in_mab e = refl
not_complete in_data e = refl
not_complete complete e = ap is_complete e

wait_lem :
    (w : World) (size : ℕ) (l : Link)
    → w.now - l.controller_eop_timestamp ≤ 2800
    → wait w (record l { size = size; mux = l.mux + 1 }) ≡ await w (asleep w size l)
unfolding wait
wait_lem w size l h = go l.is_controller refl
  where
    k : Link
    k = record l { size = size; mux = l.mux + 1; task_waiting = true }

    t : Timer
    t = record {
      counter = w.now - l.controller_eop_timestamp;
      alarm = request_to_response_max;
      auto_reload = false;
      running = true;
    }

    late : ltb request_to_response_max (w.now - l.controller_eop_timestamp) ≡ false
    late = ground arith

    go :
        (c : Bool)
        → l.is_controller ≡ c
        → (if not c
            then await w k
            else if ltb request_to_response_max (w.now - l.controller_eop_timestamp)
            then some (timed_out false (give k))
            else await w (record k { timer = t }))
          ≡ await w (record k { timer = if c then t else l.timer })
    go true e = rw late refl
    go false e = refl

receive_ready_lem :
    (w : World) (size wait_ticks : ℕ) (l : Link)
    → Undisturbed w wait_ticks l
    → Waiting l
    → 0 < size
    → receive_ready w size wait_ticks (record l { mux = l.mux + 1 })
      ≡ wait w (record l { size = size; mux = l.mux + 1 })
unfolding receive_ready
receive_ready_lem w size wait_ticks l u v b =
    ap go (ap (resize size) (enable_reading_lem k u.reading) ∙ resize_lem size k v.head_is b)
    ∙ rw (not_complete l.progress v.progress_is, awake) refl
  where
    k : Link
    k = record l { mux = l.mux + 1 }

    awake : (wait_ticks == 0) ≡ false
    awake = ground (arith, u.waits)

    go : Link → Option Outcome
    go l' =
        if is_complete l'.progress
        then some (describe ok l'.head l')
        else if wait_ticks == 0
        then some (timed_out false (give l'))
        else wait w l'

pub receive_num-wait :
    (w : World) (size wait_ticks : ℕ) (l : Link)
    → Undisturbed w wait_ticks l
    → Waiting l
    → 0 < size
    → receive_num w size wait_ticks l ≡ wait w (record l { size = size; mux = l.mux + 1 })
unfolding receive_num
receive_num-wait w size wait_ticks l u v b =
    let t : ltb 0 wait_ticks ≡ true = ground (arith, u.waits) in
    simp (u.taken, t, u.in_time, u.sent, u.still_in_time)
      (receive_ready_lem w size wait_ticks l u v b)

pub receive_num-await :
    (w : World) (size wait_ticks : ℕ) (l : Link)
    → Undisturbed w wait_ticks l
    → w.now - l.controller_eop_timestamp ≤ 2800
    → Waiting l
    → 0 < size
    → receive_num w size wait_ticks l ≡ await w (asleep w size l)
receive_num-await w size wait_ticks l u soon v b =
    receive_num-wait w size wait_ticks l u v b ∙ wait_lem w size l soon

-- A task that calls `dmx_receive_num` with time to wait, while its driver expects a packet, no
-- later than 2800 microseconds after the controller's last packet, gets the standard RDM packet that the
-- interrupts take in while it waits, in whatever pieces it arrives: the call returns the number of
-- its slots, the description says DMX_OK, the start code 0xcc and that it is RDM, the buffer reads
-- as the packet's header, and the driver is left without a waiting task, its mutex given back.
pub receive_num-packet :
    (w : World) (size wait_ticks : ℕ) (l : Link) (h : Header) (pd : List ℕ) (calls : List Arrival)
    → Undisturbed w wait_ticks l
    → w.now - l.controller_eop_timestamp ≤ 2800
    → Waiting l
    → 0 < size
    → IsHeader h
    → h.message_len ≡ 24 + length pd
    → cc_is_valid h.cc ≡ true
    → joined calls ≡ packet h pd []
    → ((k : Link) → w.during k ≡ interrupts calls k)
    → (o : Outcome) × (receive_num w size wait_ticks l ≡ some o)
      × (o.returned ≡ h.message_len + 2)
      × (o.packet
          ≡ record { err = ok; start_code = some sc; size = h.message_len + 2; is_rdm = true })
      × (read_header o.link.data_ ≡ some h)
      × (o.link.task_waiting ≡ false)
      × (o.link.mux ≡ l.mux)
unfolding await awoken describe give
receive_num-packet w size wait_ticks l h pd calls u soon v b x e c j d =
    let z : Waiting (asleep w size l) = record {
      data_fits = v.data_fits;
      head_is = v.head_is;
      fifo_is = v.fifo_is;
      progress_is = v.progress_is;
    } in
    let (l', f, r) = interrupts-packet h pd calls (asleep w size l) x e c j z in
    let told : l'.notices ≡ code ok ∷ [] =
      r.told ∙ ap (λ ns. ns ++ (code ok ∷ [])) u.told_nothing in
    (
      describe ok l'.head (record l' { task_waiting = false; notices = [] }),
      receive_num-await w size wait_ticks l u soon v b
          ∙ ap (λ o. o >>= λ k. some (awoken k.notices k)) (d (asleep w size l) ∙ f)
          ∙ ap (λ ns. some (awoken ns l')) told,
      ap slots_of r.head_is,
      ap₂ (packet_of ok) r.head_is r.starts ∙ in_packet (h.message_len + 2) (omega arith),
      r.reads,
      refl,
      ap (λ n. n - 1) r.mux_kept ∙ omega arith,
    )
  where
    packet_of : Err → Option ℕ → ℕ → Packet
    packet_of e o first =
        let start = if ltb 0 (slots_of o) then some first else none in
        record { err = e; start_code = start; size = slots_of o; is_rdm = start_code_is_rdm start }

    in_packet :
        (n : ℕ)
        → 0 < n
        → packet_of ok (some n) sc
          ≡ record { err = ok; start_code = some sc; size = n; is_rdm = true }
    in_packet n a = rw (lt→ltb 0 n a) refl
