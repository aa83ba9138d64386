-- ===== src/Receive.antt =====
-- Receiving a packet: dmx_receive_num and dmx_receive of src/dmx/io.c.
pub mod Answer
pub mod Late
pub mod Examples
use esp_dmx.Prelude.{
  ℕ, ◌+◌, ◌-◌, Bool, true, false, not, ◌&&◌, ◌||◌, Option, none, some, List, [], ◌∷◌, ltb, leb,
  ◌==◌, if◌then◌else◌, ◌>>=◌, get_or,
}
use esp_dmx.Packet.{sc, preamble, delimiter}
use esp_dmx.Send.{Progress, stale, complete, Timer}
use esp_dmx.Uart.{Err, ok, timeout, Notice, code, wake, Link, at_least, notify}

-- `dmx_packet_t`. A start code of -1 is `none`.
pub record Packet : Type 0 where
  pub err : Err
  pub start_code : Option ℕ
  pub size : ℕ
  pub is_rdm : Bool

-- What the operating system answers during a call: whether the mutex is taken, whether the time to
-- wait is over then, whether the driver is done sending, whether the time is over then, the clock,
-- and what the interrupts do to the driver while the task waits, if they stay in the buffer.
pub record World : Type 0 where
  pub mutex_taken : Bool
  pub late : Bool
  pub is_sent : Bool
  pub late_sent : Bool
  pub now : ℕ
  pub during : Link → Option Link

-- The size returned, the packet's description, whether the staged parameters are committed, and the
-- driver.
pub record Outcome : Type 0 where
  pub returned : ℕ
  pub packet : Packet
  pub commits : Bool
  pub link : Link

abbrev pub request_to_response_max : ℕ
request_to_response_max = 2800

abbrev pub start_code_is_rdm : Option ℕ → Bool
start_code_is_rdm none = false
start_code_is_rdm (some s) = s == sc || (s == preamble || s == delimiter)

-- No packet, for want of time.
unfoldable pub timed_out : Bool → Link → Outcome
timed_out commits l = record {
  returned = 0;
  packet = record { err = timeout; start_code = none; size = 0; is_rdm = false };
  commits = commits;
  link = l;
}

unfoldable pub give : Link → Link
give l = record l { mux = l.mux - 1 }

-- The bus is turned round for reading, and what was received before is not waited for.
unfoldable pub enable_reading : Link → Link
enable_reading l =
    if l.rts == 0 then record l { notices = []; progress = stale; head = none; rts = 1 } else l

abbrev pub is_stale : Progress → Bool
is_stale stale = true
is_stale _ = false

abbrev pub is_complete : Progress → Bool
is_complete complete = true
is_complete _ = false

-- The comparison of the head, an int, with the size, a size_t, takes a head of -1 for a great number.
abbrev pub reached : ℕ → Option ℕ → Bool
reached size none = true
reached size (some h) = leb size h

-- A smaller size than what has arrived completes the packet.
unfoldable pub resize : ℕ → Link → Link
resize size l = if size == l.size then l else record l {
  size = size;
  progress = if not (is_stale l.progress) && reached size l.head then complete else l.progress;
}

-- The task is told by an error code, or only that it may go on; a later code replaces one before.
abbrev pub last_code : Err → List Notice → Err
last_code e [] = e
last_code e (code f ∷ ns) = last_code f ns
last_code e (wake ∷ ns) = last_code e ns

abbrev pub slots_of : Option ℕ → ℕ
slots_of none = 0
slots_of (some h) = h

-- The description of the packet in the buffer, which is then old.
unfoldable pub describe : Err → Option ℕ → Link → Outcome
describe e head l =
    let n = slots_of head in
    let start = if ltb 0 n then some (get_or l.data_ 0 0) else none in
    record {
      returned = n;
      packet = record { err = e; start_code = start; size = n; is_rdm = start_code_is_rdm start };
      commits = false;
      link = give (record l { progress = stale });
    }

-- The task goes on, with these notices or without one.
unfoldable pub awoken : List Notice → Link → Outcome
awoken [] l = timed_out true (give (record l { task_waiting = false }))
awoken (n ∷ ns) l =
    describe (last_code ok (n ∷ ns)) l.head (record l { task_waiting = false; notices = [] })

-- The wait for a notification, and what follows it.
unfoldable pub await : World → Link → Option Outcome
await w l = w.during l >>= λ l'. some (awoken l'.notices l')

-- The task waits. A controller waits no longer than a response may take.
unfoldable pub wait : World → Link → Option Outcome
wait w l =
    let waiting = record l { task_waiting = true } in
    let elapsed = w.now - l.controller_eop_timestamp in
    if not l.is_controller
    then await w waiting
    else if ltb request_to_response_max elapsed
    then some (timed_out false (give waiting))
    else await w (record waiting {
      timer = record {
        counter = elapsed;
        alarm = request_to_response_max;
        auto_reload = false;
        running = true;
      };
    })

-- `dmx_receive_num` behind the two waits at its start.
unfoldable pub receive_ready : World → ℕ → ℕ → Link → Option Outcome
receive_ready w size wait_ticks l =
    let l' = resize size (enable_reading l) in
    if is_complete l'.progress
    then some (describe ok l'.head l')
    else if wait_ticks == 0
    then some (timed_out false (give l'))
    else wait w l'

-- `dmx_receive_num` on an enabled port; `none` is a fault in an interrupt.
unfoldable pub receive_num : World → ℕ → ℕ → Link → Option Outcome
receive_num w size wait_ticks l =
    let taken = record l { mux = l.mux + 1 } in
    if not w.mutex_taken
    then some (timed_out false l)
    else if ltb 0 wait_ticks && w.late
    then some (timed_out false taken)
    else if not w.is_sent || (ltb 0 wait_ticks && w.late_sent)
    then some (timed_out false (give taken))
    else receive_ready w size wait_ticks taken

-- `dmx_receive`
unfoldable pub receive : World → ℕ → Link → Option Outcome
unfolding receive_num
receive w wait_ticks l = receive_num w l.size wait_ticks l

-- The timer's alarm while the port is not sending: the task waits no longer.
unfoldable pub expire : Link → Link
expire l = let l' = notify (code ok) l in record l' { timer = record l'.timer { running = false } }
