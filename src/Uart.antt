-- ===== src/Uart.antt =====
-- The interrupt of the UART, dmx_uart_isr of src/dmx/hal/uart.c: it takes in the slots that arrive,
-- finds out when a packet is complete, and sends the slots of a packet.
pub mod Parse
pub mod Transmit
pub mod Receive
pub mod Examples
use esp_dmx.Prelude.{
  ℕ, ◌+◌, ◌-◌, ◌%◌, ◌^◌, Bool, true, false, not, ◌&&◌, ◌||◌, Option, none, some, List, [], ◌∷◌,
  ◌++◌, ltb, leb, ◌==◌, if◌then◌else◌, length, take, drop, write_at, get_or, min,
}
use esp_dmx.Packet.{packet_size_max}
use esp_dmx.Buffer.{Status, receiving, idle}
use esp_dmx.Send.{Progress, stale, in_break, in_mab, in_data, complete, Timer}

-- `dmx_err_t`, without DMX_FAIL, which nothing here sets.
pub data Err : Type 0 where
  ok timeout uart_overflow improper_slot not_enough_slots : Err

-- What a waiting task is told: an error code, or nothing but that it may go on.
pub data Notice : Type 0 where
  code : Err → Notice
  wake : Notice

-- The driver and its UART. A head of -1, which waits for a break, is `none`. `rx_fifo` and
-- `tx_sent` are the octets in the receive queue and those given to the send queue so far, first
-- ones first; `notices` is what the waiting task was told so far; `mux` counts how often the task
-- holds the driver's mutex.
pub record Link : Type 0 where
  pub data_ : List ℕ
  pub head : Option ℕ
  pub size : ℕ
  pub status : Status
  pub progress : Progress
  pub is_controller : Bool
  pub last_controller_pid : ℕ
  pub last_responder_pid : ℕ
  pub responder_sent_last : Bool
  pub last_request_was_broadcast : Bool
  pub controller_eop_timestamp : ℕ
  pub task_waiting : Bool
  pub notices : List Notice
  pub timer : Timer
  pub rts : ℕ
  pub rx_fifo : List ℕ
  pub tx_sent : List ℕ
  pub tx_data_enabled : Bool
  pub tx_done_enabled : Bool
  pub mux : ℕ

-- What the UART reports in one pass of the interrupt's loop: the octets that have arrived since the
-- last pass, the interrupts that are pending, and the room in the send queue.
pub record Report : Type 0 where
  pub arrived : List ℕ
  pub rx_data : Bool
  pub rx_break : Bool
  pub rx_overflow : Bool
  pub rx_framing : Bool
  pub tx_data : Bool
  pub tx_done : Bool
  pub room : ℕ

abbrev pub rx_err : Report → Bool
rx_err r = r.rx_overflow || r.rx_framing

abbrev pub rx_any : Report → Bool
rx_any r = r.rx_data || (r.rx_break || rx_err r)

unfoldable pub notify : Notice → Link → Link
notify n l = if l.task_waiting then record l { notices = l.notices ++ (n ∷ []) } else l

-- Comparisons of the head, which may be -1, with a positive number.
abbrev pub at_least : Option ℕ → ℕ → Bool
at_least none n = false
at_least (some h) n = leb n h

-- The receive queue is read to the buffer; what has no room there is only counted.
unfoldable pub absorb : Option ℕ → Link → Link
absorb none l = record l { rx_fifo = [] }
absorb (some h) l =
    let n = min (packet_size_max - h) (length l.rx_fifo) in
    if ltb h packet_size_max
    then record l {
      data_ = write_at h (take n l.rx_fifo) l.data_;
      rx_fifo = drop n l.rx_fifo;
      head = some (h + n);
    }
    else record l { head = some (h + length l.rx_fifo); rx_fifo = [] }

-- A break while slots were expected corrects the expected size.
unfoldable pub cut_short : Progress → Option ℕ → Link → Link
cut_short in_data (some h) l =
    if ltb 0 h then notify (code not_enough_slots) (record l { size = h - 1 }) else l
cut_short _ _ l = l

unfoldable pub break_found : Link → Link
break_found l = record (cut_short l.progress l.head l) {
  status = receiving;
  progress = in_break;
  head = some 0;
}

-- A packet that is complete is announced once.
unfoldable pub finish : Err → Link → Link
finish e l =
    notify (code e)
      (record l { timer = record l.timer { running = false }; progress = complete; status = idle })
