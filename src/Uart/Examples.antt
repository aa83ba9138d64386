-- ===== src/Uart/Examples.antt =====
-- The interrupt's theorems at concrete packets.
use esp_dmx.Prelude.{
  inl, ℕ, ◌+◌, ◌≡◌, refl, true, false, some, List, [], ◌∷◌, arith, map, take, drop, replicate,
}
use esp_dmx.Packet.{cc_is_valid}
use esp_dmx.Packet.Write.{write}
use esp_dmx.Packet.Frame.{packet}
use esp_dmx.Packet.Examples.{
  set_address, set_address-IsHeader, set_address-Accepts, encoded_address, get_address,
  get_address-IsHeader,
}
use esp_dmx.Buffer.{Status, receiving, sending}
use esp_dmx.Send.{Progress, in_break, in_data}
use esp_dmx.Uart.{Link}
use esp_dmx.Uart.Parse.{opened}
use esp_dmx.Uart.Receive.Whole.{Arrival, joined, interrupts, Received}
use esp_dmx.Uart.Receive.Packets.{Waiting, interrupts-packet, interrupts-packet-part}
use esp_dmx.Uart.Transmit.{uart_isr}
use esp_dmx.Uart.Transmit.Whole.{ready}
use esp_dmx.Packet.Payload.{resized}
use esp_dmx.Uart.Transmit.Delivery.{interrupts-uart_isr-write}

abbrev pub blank : List ℕ
blank = replicate 513 0

-- A driver of a task that waits, behind a break.
abbrev pub link : Status → Progress → Link
link status progress = record {
  data_ = blank;
  head = some 0;
  size = 513;
  status = status;
  progress = progress;
  is_controller = true;
  last_controller_pid = 0;
  last_responder_pid = 0;
  responder_sent_last = false;
  last_request_was_broadcast = false;
  controller_eop_timestamp = 0;
  task_waiting = true;
  notices = [];
  timer = record { counter = 0; alarm = 0; auto_reload = false; running = false };
  rts = 0;
  rx_fifo = [];
  tx_sent = [];
  tx_data_enabled = true;
  tx_done_enabled = true;
  mux = 0;
}

pub cc_get : cc_is_valid 0x20 ≡ true
unfolding cc_is_valid
cc_get = refl

cc_set : cc_is_valid 0x30 ≡ true
unfolding cc_is_valid
cc_set = refl

abbrev pub behind_break : Link
behind_break = link receiving in_break

pub behind_break-Waiting : Waiting behind_break
behind_break-Waiting = record {
  data_fits = refl;
  head_is = refl;
  fifo_is = refl;
  progress_is = refl;
}

-- The slots in pieces of at most five.
abbrev pieces : ℕ → List ℕ → List Arrival
pieces n (a ∷ b ∷ c ∷ d ∷ e ∷ xs) =
    record { now = n; first = a; others = b ∷ c ∷ d ∷ e ∷ [] } ∷ pieces (n + 220) xs
pieces n (x ∷ xs) = record { now = n; first = x; others = xs } ∷ []
pieces n [] = []

abbrev pub get_calls : List Arrival
get_calls = pieces 1000 (packet get_address [] [])

interrupts-packet_example :
    (l' : Link) × (interrupts get_calls behind_break ≡ some l')
    × Received get_address 26 behind_break l'
interrupts-packet_example =
    interrupts-packet get_address [] get_calls behind_break get_address-IsHeader refl cc_get refl
      behind_break-Waiting

-- All but the last two slots.
abbrev part_calls : List Arrival
part_calls = pieces 1000 (take 24 (packet get_address [] []))

interrupts-packet-part_example :
    (l' : Link) × (interrupts part_calls behind_break ≡ some l')
    × (take 24 l'.data_ ≡ joined part_calls)
    × (l'.head ≡ some 24)
    × (opened l'.progress ≡ in_data)
    × (l'.notices ≡ [])
interrupts-packet-part_example =
    interrupts-packet-part get_address [] (drop 24 (packet get_address [] [])) part_calls
      behind_break get_address-IsHeader refl cc_get refl (omega arith) behind_break-Waiting

abbrev loaded : Link
loaded = record (link sending in_data) { data_ = packet get_address [] (drop 26 blank); size = 26 }

abbrev set_calls : List Arrival
set_calls = pieces 1000 (packet set_address (0 ∷ 1 ∷ []) [])

interrupts-uart_isr-write_example :
    (buf' : List ℕ) × (write 2 set_address (some (b'w' ∷ [])) (some (1 ∷ 0 ∷ [])) blank
      ≡ some (28, buf'))
    × (s' : Link) × (uart_isr 50
          (map ready (16 ∷ 128 ∷ []))
          (record (link sending in_data) { data_ = buf'; size = 28 })
        ≡ some s')
    × (s'.tx_sent ≡ joined set_calls)
    × (r' : Link) × (interrupts set_calls behind_break ≡ some r')
    × Received (resized set_address (0 ∷ 1 ∷ [])) 28 behind_break r'
interrupts-uart_isr-write_example =
    interrupts-uart_isr-write 2 set_address (some (b'w' ∷ [])) (some (1 ∷ 0 ∷ [])) (0 ∷ 1 ∷ [])
      (link sending in_data) behind_break 50 16 (128 ∷ []) set_calls set_address-Accepts
      set_address-IsHeader cc_set (omega arith)
      (inl (1 ∷ 0 ∷ [], refl, omega arith, encoded_address)) refl refl refl (omega arith) refl
      behind_break-Waiting
