-- ===== src/Uart/Transmit.antt =====
-- The branches of dmx_uart_isr that send slots, and the interrupt's loop.
pub mod Whole
pub mod Delivery
use esp_dmx.Prelude.{
  ℕ, ◌+◌, ◌-◌, Bool, true, false, not, ◌&&◌, ◌||◌, Option, none, some, List, [], ◌∷◌, ◌++◌, ltb,
  ◌==◌, if◌then◌else◌, ◌>>=◌, take, drop, min,
}
use esp_dmx.Packet.{pid_disc_unique_branch}
use esp_dmx.Buffer.{idle}
use esp_dmx.Send.{stale, in_data, complete}
use esp_dmx.Uart.{Link, Report, wake, notify, rx_any}
use esp_dmx.Uart.Parse.{receive}

-- The send queue has room. A head of -1 would be an index before the buffer.
unfoldable pub send_slots : ℕ → Option ℕ → Link → Option Link
send_slots room none l = none
send_slots room (some h) l =
    let n = min (l.size - h) room in
    some (record l {
      tx_sent = l.tx_sent ++ take n (drop h l.data_);
      head = some (h + n);
      tx_data_enabled = if h + n == l.size then false else l.tx_data_enabled;
    })

-- Whether a response is expected to what was sent.
unfoldable pub expects_response : Link → Bool
expects_response l = not (
    not l.is_controller
    || l.last_controller_pid == 0
    || (l.last_request_was_broadcast && not (l.last_controller_pid == pid_disc_unique_branch)))

-- The bus is turned round for the response, which begins with a break unless it is the one to
-- DISC_UNIQUE_BRANCH.
unfoldable pub turn_round : Link → Link
turn_round l =
    if l.last_controller_pid == pid_disc_unique_branch
    then record l { progress = in_data; head = some 0; rx_fifo = []; rts = 1 }
    else record l { progress = stale; head = none; rx_fifo = []; rts = 1 }

-- The send queue has run empty.
unfoldable pub sent : ℕ → Link → Link
sent now l =
    let l' = notify wake (record l {
      tx_data_enabled = false;
      tx_done_enabled = false;
      controller_eop_timestamp = if l.is_controller then now else l.controller_eop_timestamp;
      progress = complete;
      status = idle;
    }) in
    if expects_response l' then turn_round l' else l'

-- One pass of the loop in `dmx_uart_isr`; `none` is a write before the buffer.
unfoldable pub pass : ℕ → Report → Link → Option Link
pass now r l =
    let l' = record l { rx_fifo = l.rx_fifo ++ r.arrived } in
    if rx_any r
    then some (receive now r l')
    else if r.tx_data
    then send_slots r.room l'.head l'
    else if r.tx_done
    then some (sent now l')
    else some l'

-- `dmx_uart_isr`: passes while an interrupt is pending.
unfoldable pub uart_isr : ℕ → List Report → Link → Option Link
uart_isr now [] l = some l
uart_isr now (r ∷ rs) l = pass now r l >>= λ l'. uart_isr now rs l'
