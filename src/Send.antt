-- ===== src/Send.antt =====
-- Sending the packet in the buffer: dmx_send_num and dmx_wait_sent of src/dmx/io.c, and the timer's
-- interrupt of src/dmx/hal/timer.c, which ends the break and the mark-after-break.
pub mod Sizes
pub mod AtOnce
pub mod Order
pub mod Examples
use esp_dmx.Prelude.{
  ℕ, ◌+◌, ◌-◌, ◌%◌, ◌^◌, Bool, true, false, not, ◌&&◌, ◌||◌, Option, none, some, List, [], take,
  ltb, ◌==◌, if◌then◌else◌,
}
use esp_dmx.Uid.{uid_is_broadcast}
use esp_dmx.Packet.{
  Header, packet_size_max, disc_command_response, pid_disc_unique_branch, cc_is_valid,
  cc_is_request,
}
use esp_dmx.Packet.Read.{read_header}
use esp_dmx.Buffer.{Status, idle, receiving, sending, is_sending}

-- `driver->dmx.progress`
pub data Progress : Type 0 where
  stale in_break in_mab in_data complete : Progress

-- The hardware timer: the counter and the alarm that were set last, whether the counter restarts at
-- the alarm, and whether the timer runs.
pub record Timer : Type 0 where
  pub counter : ℕ
  pub alarm : ℕ
  pub auto_reload : Bool
  pub running : Bool

-- The fields of `dmx_driver_t` that sending reads or writes, and the UART's: the RTS pin, the
-- inversion of the TX line, and whether the interrupts for sending are enabled. The clock never
-- stands before `controller_eop_timestamp`.
pub record Driver : Type 0 where
  pub data_ : List ℕ
  pub head : ℕ
  pub size : ℕ
  pub status : Status
  pub progress : Progress
  pub is_controller : Bool
  pub break_len : ℕ
  pub mab_len : ℕ
  pub last_controller_pid : ℕ
  pub last_responder_pid : ℕ
  pub responder_sent_last : Bool
  pub last_request_was_broadcast : Bool
  pub controller_eop_timestamp : ℕ
  pub tn : ℕ
  pub timer : Timer
  pub rts : ℕ
  pub tx_inverted : Bool
  pub tx_interrupts : Bool

-- What the operating system and the hardware answer during a call: whether the mutex is taken,
-- whether the driver is done sending, the clock, whether the alarm's notification arrives, and how
-- many of so many octets the UART's queue takes.
pub record World : Type 0 where
  pub mutex_taken : Bool
  pub is_sent : Bool
  pub now : ℕ
  pub notified : Bool
  pub write_txfifo : ℕ → ℕ

abbrev pub request_to_request_min : ℕ
request_to_request_min = 176

abbrev pub response_lost_min : ℕ
response_lost_min = 3000

abbrev pub discovery_to_request_min : ℕ
discovery_to_request_min = 5800

abbrev pub responder_min : ℕ
responder_min = 176

abbrev pub responder_max : ℕ
responder_max = 2000

-- The header of the packet in the buffer, if it is an RDM packet with a valid command class.
abbrev pub rdm_packet : Option Header → Option Header
rdm_packet none = none
rdm_packet (some h) = if cc_is_valid h.cc then some h else none

abbrev pub sends_as_controller : Option Header → Bool
sends_as_controller none = true
sends_as_controller (some h) = cc_is_request h.cc

-- The time in microseconds that must have passed since the end of the controller's last packet.
-- `spacing` is the setting RDM_DISCOVERY_TRANSACTION_SPACING.
unfoldable pub timer_alarm : ℕ → Driver → ℕ
timer_alarm spacing d =
    if d.is_controller
    then if not (d.last_controller_pid == pid_disc_unique_branch)
      then if d.responder_sent_last || d.last_controller_pid == 0 || d.last_request_was_broadcast
        then request_to_request_min
        else response_lost_min
      else if d.responder_sent_last
      then spacing
      else discovery_to_request_min
    else responder_min

abbrev pub is_discovery_response : Option Header → Bool
is_discovery_response none = false
is_discovery_response (some h) = h.cc == disc_command_response && h.pid == pid_disc_unique_branch

-- The size of the packet to send.
unfoldable pub send_size : Option Header → ℕ → ℕ
send_size none size = if size == 0 || ltb packet_size_max size then packet_size_max else size
send_size (some h) size =
    if is_discovery_response (some h) then h.message_len else h.message_len + 2

abbrev pub pid_of : Option Header → ℕ
pid_of none = 0
pid_of (some h) = h.pid

abbrev pub is_broadcast : Option Header → Bool
is_broadcast none = false
is_broadcast (some h) = uid_is_broadcast h.dest_uid

-- The record of the packet that is being sent.
unfoldable pub record_packet : Option Header → Driver → Driver
record_packet h d =
    if d.is_controller
    then record d {
      last_controller_pid = pid_of h;
      last_request_was_broadcast = is_broadcast h;
      responder_sent_last = false;
      tn = if pid_of h == 0 then d.tn else (d.tn + 1) % 2 ^ 8;
    }
    else record d { last_responder_pid = pid_of h; responder_sent_last = true }

-- A discovery response goes out at once, every other packet begins with a break.
unfoldable pub start_packet : World → Option Header → Driver → Driver
start_packet w h d =
    if is_discovery_response h
    then record d { status = sending; head = w.write_txfifo d.size; tx_interrupts = true }
    else record d {
      head = 0;
      progress = in_break;
      status = sending;
      timer = record { counter = 0; alarm = d.break_len; auto_reload = true; running = true };
      tx_inverted = true;
    }

-- The wait for the alarm, if it is too early to send, whose interrupt stops the timer; `none` is
-- `__unreachable`.
unfoldable pub await_alarm : World → ℕ → ℕ → Driver → Option Driver
await_alarm w elapsed alarm d =
    if ltb elapsed alarm
    then if w.notified
      then some (record d {
        timer = record { counter = elapsed; alarm = alarm; auto_reload = false; running = false };
      })
      else none
    else some d

-- What follows the wait.
unfoldable pub transmit : World → Option Header → ℕ → ℕ → Driver → ℕ × Driver
transmit w h size elapsed d =
    if not d.is_controller && ltb responder_max elapsed
    then (0, d)
    else let n = send_size h size in
      let ready = record d { rts = if d.rts == 1 then 0 else d.rts; size = n } in
      (n, start_packet w h (record_packet h ready))

-- `dmx_send_num` behind the two waits at its start, on the header of the packet in the buffer.
unfoldable pub send_ready : World → ℕ → Option Header → Driver → ℕ → Option (ℕ × Driver)
send_ready w spacing h d size =
    let d' = record d { is_controller = sends_as_controller h } in
    let elapsed = w.now - d.controller_eop_timestamp in
    elim (await_alarm w elapsed (timer_alarm spacing d') d') [
      | none ↦ none
      | some d'' ↦ some (transmit w h size elapsed d'')
    ]

-- `dmx_send_num` on an enabled port: the size sent. `none` is `__unreachable`.
unfoldable pub send_num : World → ℕ → Driver → ℕ → Option (ℕ × Driver)
send_num w spacing d size =
    if not w.mutex_taken || not w.is_sent
    then some (0, d)
    else send_ready w spacing (rdm_packet (read_header d.data_)) d size

-- `dmx_send`
unfoldable pub send : World → ℕ → Driver → Option (ℕ × Driver)
unfolding send_num
send w spacing d = send_num w spacing d packet_size_max

-- `dmx_wait_sent`, `notified` being the answer of the notification that the task waits for.
unfoldable pub wait_sent : Bool → Bool → Bool → ℕ → Status → Bool
wait_sent mutex_taken timed_out notified wait_ticks status =
    if not mutex_taken || (ltb 0 wait_ticks && timed_out)
    then false
    else if ltb 0 wait_ticks
    then (if is_sending status then notified else true)
    else not (is_sending status)

-- The timer's alarm while the port is sending: the end of the break, or of the mark-after-break; and
-- the octets that the UART's queue takes, from the start of the packet on.
unfoldable pub next_phase : World → Progress → Driver → Driver × List ℕ
next_phase w in_break d = (
  record d {
    tx_inverted = false;
    progress = in_mab;
    timer = record d.timer { alarm = d.mab_len; auto_reload = false };
  },
  [],
)
next_phase w _ d = (
  record d {
    head = w.write_txfifo d.size;
    timer = record d.timer { running = false };
    tx_interrupts = true;
  },
  take (w.write_txfifo d.size) d.data_,
)

-- `dmx_timer_isr` when an alarm has gone off.
unfoldable pub timer_isr : World → Driver → Driver × List ℕ
timer_isr w d =
    if is_sending d.status
    then next_phase w d.progress d
    else (record d { timer = record d.timer { running = false } }, [])
