-- ===== src/Uart/Parse.antt =====
-- The part of dmx_uart_isr that finds out whether the packet in the buffer is complete.
pub mod Prefix
use esp_dmx.Prelude.{
  ℕ, zero, suc, ◌+◌, Bool, true, false, not, ◌&&◌, ◌||◌, Option, none, some, List, ltb, ◌==◌,
  if◌then◌else◌, get_or,
}
use esp_dmx.Uid.{Uid, uid_is_broadcast}
use esp_dmx.Packet.{
  sc, sub_sc, preamble, delimiter, cc_is_valid, cc_is_request, pid_disc_unique_branch, be16, be32,
}
use esp_dmx.Packet.Read.{read_header}
use esp_dmx.Packet.Write.{is_some}
use esp_dmx.Send.{Progress, in_break, in_mab, in_data}
use esp_dmx.Uart.{
  Link, Report, Err, ok, uart_overflow, improper_slot, at_least, absorb, break_found, finish,
  rx_err,
}

-- Any packet but an RDM packet: complete when it has the expected size.
unfoldable pub parse_dmx : Link → Bool × Link
parse_dmx l =
    (at_least l.head l.size, record l { last_controller_pid = 0; responder_sent_last = false })

-- The index of the delimiter, looked for in `n` slots from index `i` on; 9 behind a wrong slot.
unfoldable pub delimiter_idx : ℕ → ℕ → List ℕ → ℕ
delimiter_idx zero i data_ = i
delimiter_idx (suc n) i data_ =
    let rest = delimiter_idx n (i + 1) data_ in
    let slot = get_or data_ i 0 in
    if slot == preamble then rest else if slot == delimiter then i else 9

unfoldable pub parse_discovery : Link → Bool × Link
parse_discovery l =
    let idx = delimiter_idx 8 0 l.data_ in
    if not (at_least l.head 17)
    then (false, l)
    else if ltb 8 idx
    then parse_dmx l
    else if not (at_least l.head (idx + 17))
    then (false, l)
    else if is_some (read_header l.data_)
    then (
      true,
      record l { last_responder_pid = pid_disc_unique_branch; responder_sent_last = true },
    )
    else parse_dmx l

-- What a complete RDM packet at time `now` is recorded as. A broadcast is a request here.
unfoldable pub received : ℕ → Link → Link
received now l =
    let pid = be16 (get_or l.data_ 21 0) (get_or l.data_ 22 0) in
    if cc_is_request (get_or l.data_ 20 0)
    then record l {
      controller_eop_timestamp = now;
      last_controller_pid = pid;
      responder_sent_last = false;
    }
    else record l { last_responder_pid = pid; responder_sent_last = true }

unfoldable pub parse_rdm : ℕ → Link → Bool × Link
parse_rdm now l =
    if not (at_least l.head 26)
    then (false, l)
    else if not (get_or l.data_ 1 0 == sub_sc)
        || not (cc_is_valid (get_or l.data_ 20 0))
        || ltb (get_or l.data_ 2 0) 24
    then parse_dmx l
    else if not (at_least l.head (get_or l.data_ 2 0 + 2))
    then (false, l)
    else if is_some (read_header l.data_)
    then (true, received now l)
    else parse_dmx l

-- A controller that may be receiving a response sets the alarm for the next slot.
unfoldable pub await_slot : Link → Link
await_slot l =
    if l.is_controller
    then record l { timer = record l.timer { counter = 0; alarm = 2000; auto_reload = false } }
    else l

-- The choice by the start code.
unfoldable pub parse : ℕ → Link → Bool × Link
parse now l =
    let start = get_or l.data_ 0 0 in
    if start == sc
    then parse_rdm now (await_slot l)
    else if start == preamble || start == delimiter
    then parse_discovery (await_slot l)
    else parse_dmx (record l { controller_eop_timestamp = now })

-- Slots put an end to the break; the interrupt cannot see the mark-after-break.
abbrev pub opened : Progress → Progress
opened in_break = in_data
opened in_mab = in_data
opened p = p

abbrev pub is_in_data : Progress → Bool
is_in_data in_data = true
is_in_data _ = false

-- The end of a pass on slots that were read.
unfoldable pub conclude : Bool × Link → Link
conclude (done, l) = if done then finish ok l else l

unfoldable pub slots : ℕ → Report → Link → Link
slots now r l =
    let l' = record l { progress = opened l.progress } in
    if is_in_data (opened l.progress)
    then if rx_err r
      then finish (if r.rx_overflow then uart_overflow else improper_slot) l'
      else conclude (parse now l')
    else l'

-- The receive branch of the interrupt's loop.
unfoldable pub receive : ℕ → Report → Link → Link
receive now r l = let l' = absorb l.head l in if r.rx_break then break_found l' else slots now r l'
