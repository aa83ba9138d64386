-- ===== src/Receive/Examples.antt =====
-- Receiving at concrete packets.
use esp_dmx.Prelude.{ℕ, ◌≡◌, refl, true, false, Option, some, [], arith}
use esp_dmx.Packet.{sc}
use esp_dmx.Packet.Read.{read_header}
use esp_dmx.Packet.Examples.{get_address, get_address-IsHeader}
use esp_dmx.Uart.{Link, ok}
use esp_dmx.Uart.Receive.Whole.{interrupts}
use esp_dmx.Uart.Receive.Packets.{Waiting}
use esp_dmx.Uart.Examples.{behind_break, get_calls, cc_get}
use esp_dmx.Receive.{World, Outcome, receive_num}
use esp_dmx.Receive.Answer.{Undisturbed, receive_num-packet}

abbrev world : (Link → Option Link) → ℕ → World
world during now = record {
  mutex_taken = true;
  late = false;
  is_sent = true;
  late_sent = false;
  now = now;
  during = during;
}

abbrev reading : Link
reading = record behind_break { rts = 1; task_waiting = false }

reading-Waiting : Waiting reading
reading-Waiting = record { data_fits = refl; head_is = refl; fifo_is = refl; progress_is = refl }

undisturbed : (during : Link → Option Link) (now : ℕ) → Undisturbed (world during now) 10 reading
undisturbed during now = record {
  taken = refl;
  in_time = refl;
  sent = refl;
  still_in_time = refl;
  waits = omega arith;
  reading = refl;
  told_nothing = refl;
}

receive_num-packet_example :
    (o : Outcome) × (receive_num (world (interrupts get_calls) 500) 513 10 reading ≡ some o)
    × (o.returned ≡ 26)
    × (o.packet ≡ record { err = ok; start_code = some sc; size = 26; is_rdm = true })
    × (read_header o.link.data_ ≡ some get_address)
    × (o.link.task_waiting ≡ false)
    × (o.link.mux ≡ 0)
receive_num-packet_example =
    receive_num-packet (world (interrupts get_calls) 500) 513 10 reading get_address [] get_calls
      (undisturbed (interrupts get_calls) 500) (omega arith) reading-Waiting (omega arith)
      get_address-IsHeader refl cc_get refl (λ k. refl)
