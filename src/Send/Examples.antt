-- ===== src/Send/Examples.antt =====
-- The theorems on sending at a port that sends the packet of a request.
use esp_dmx.Prelude.{inl, ℕ, ◌≡◌, refl, true, false, some, List, [], ◌∷◌, arith, min, drop, take}
use esp_dmx.Packet.{Header, cc_is_valid, cc_is_request}
use esp_dmx.Packet.Read.{read_header}
use esp_dmx.Packet.Frame.{packet, read_header-packet}
use esp_dmx.Packet.Examples.{
  blank, set_address, set_address-Accepts, set_address-IsHeader, encoded_address,
  set_address-written, get_address, get_address-IsHeader,
}
use esp_dmx.Buffer.{Status, idle, sending}
use esp_dmx.Send.{Driver, World, Progress, in_break, in_mab, stale, send_num, timer_isr}
use esp_dmx.Send.Sizes.{IsReady, send_num-write}
use esp_dmx.Send.Order.{alarms-in_break}

abbrev pub world : World
world = record {
  mutex_taken = true;
  is_sent = true;
  now = 9000;
  notified = true;
  write_txfifo = λ n. min n 120;
}

abbrev pub driver : List ℕ → Status → Progress → Driver
driver data_ status progress = record {
  data_ = data_;
  head = 0;
  size = 513;
  status = status;
  progress = progress;
  is_controller = true;
  break_len = 176;
  mab_len = 12;
  last_controller_pid = 0;
  last_responder_pid = 0;
  responder_sent_last = false;
  last_request_was_broadcast = false;
  controller_eop_timestamp = 1000;
  tn = 0;
  timer = record { counter = 0; alarm = 176; auto_reload = true; running = true };
  rts = 0;
  tx_inverted = true;
  tx_interrupts = false;
}

-- The response to a request for the start address, without parameter data.
abbrev response : Header
response = record get_address { cc = 0x21; port_id = 0 }

response-read : read_header (packet response [] (drop 26 blank)) ≡ some response
response-read =
    read_header-packet response [] (drop 26 blank)
      (record {
        message_len_fits = omega arith;
        dest_fits = get_address-IsHeader.dest_fits;
        src_fits = get_address-IsHeader.src_fits;
        tn_fits = omega arith;
        port_id_fits = omega arith;
        message_count_fits = omega arith;
        sub_device_fits = omega arith;
        cc_fits = omega arith;
        pid_fits = omega arith;
        pdl_fits = omega arith;
      })
      refl

response-valid : cc_is_valid 0x21 ≡ true
unfolding cc_is_valid
response-valid = refl

response-odd : cc_is_request 0x21 ≡ false
unfolding cc_is_request
response-odd = refl

-- The request's packet, on a port that waits for nothing.
abbrev loaded : Driver
loaded = driver (packet set_address (0 ∷ 1 ∷ []) (drop 28 blank)) idle stale

loaded-IsReady : IsReady world loaded (cc_is_request 0x30)
unfolding cc_is_request
loaded-IsReady = record {
  taken = refl;
  quiet = refl;
  wakes = refl;
  in_time = λ e. absurd (is_request e);
}
  where
    is_request : cc_is_request 0x30 ≡ false → ⊥
    is_request e = ground arith

send_num-write_example :
    (d' : Driver) × (send_num world 0 loaded 513 ≡ some (28, d'))
    × (d'.status ≡ sending)
    × (d'.progress ≡ in_break)
    × (d'.head ≡ 0)
    × (d'.size ≡ 28)
    × (d'.data_ ≡ loaded.data_)
    × (d'.timer.alarm ≡ 176)
send_num-write_example =
    send_num-write 2 28 set_address (some (b'w' ∷ [])) (some (1 ∷ 0 ∷ [])) (0 ∷ 1 ∷ []) blank world
      0 loaded 513 set_address-Accepts set_address-IsHeader refl
      (inl (1 ∷ 0 ∷ [], refl, omega arith, encoded_address)) (omega arith) set_address-written
      loaded-IsReady

alarms-in_break_example :
    let d = driver blank sending in_break in
    let (d₁, slots₁) = timer_isr world d in
    let (d₂, slots₂) = timer_isr world d₁ in
    ((d₁.progress ≡ in_mab)
      × (d₁.tx_inverted ≡ false)
      × (d₁.tx_interrupts ≡ false)
      × (d₁.timer.alarm ≡ 12)
      × (slots₁ ≡ []))
    × ((slots₂ ≡ take d₂.head blank)
        × (d₂.head ≡ world.write_txfifo d.size)
        × (d₂.tx_interrupts ≡ true)
        × (d₂.tx_inverted ≡ false)
        × (d₂.timer.running ≡ false)
        × (d₂.data_ ≡ blank)
        × (d₂.size ≡ d.size))
alarms-in_break_example = alarms-in_break world (driver blank sending in_break) refl refl
