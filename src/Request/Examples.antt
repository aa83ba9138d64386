-- ===== src/Request/Examples.antt =====
-- A GET request for a start address at a bus with a device that answers it.
use esp_dmx.Prelude.{◌≡◌, refl, true, false, none, some, [], ◌∷◌, arith, replicate, take, write_at}
use esp_dmx.Uid.{Uid, uid_is_broadcast}
use esp_dmx.Format.{finished, format_encode, format_is_valid}
use esp_dmx.Packet.{Header, IsHeader, sc}
use esp_dmx.Packet.Read.{read_pd}
use esp_dmx.Packet.Frame.{packet, read_header-packet}
use esp_dmx.Packet.Examples.{set_address, responder}
use esp_dmx.Buffer.{idle}
use esp_dmx.Send.{Driver, complete}
use esp_dmx.Send.Examples as Sent
use esp_dmx.Uart.{ok}
use esp_dmx.Receive.{Packet}
use esp_dmx.Request.{World, Outcome, request_header, read_to, send_request}
use esp_dmx.Request.Answered.{get_request, CanAsk, Answers, send_request-get}

abbrev controller : Uid
controller = set_address.src_uid

abbrev driver : Driver
driver = Sent.driver (replicate 513 7) idle complete

-- The response: the start address 258.
abbrev response : Header
response = record {
  message_len = 26;
  dest_uid = controller;
  src_uid = responder;
  tn = 0;
  port_id = 0;
  message_count = 0;
  sub_device = 0;
  cc = 0x21;
  pid = 0x00f0;
  pdl = 2;
}

abbrev answered : Driver
answered = record driver { data_ = packet response (1 ∷ 2 ∷ []) (replicate 485 7) }

abbrev described : Packet
described = record { err = ok; start_code = some sc; size = 28; is_rdm = true }

abbrev world : World
world = record {
  fuel = 2;
  mutex_taken = true;
  is_sent = true;
  sent_out = λ d. record d { status = idle };
  sending = Sent.world;
  spacing = 5800;
  receive = λ d. some (described, answered);
  ms_to_ticks = λ n. n;
  dmx_num = 0;
  uid = controller;
  stack = 0 ∷ 0 ∷ [];
}

one_device : uid_is_broadcast responder ≡ false
unfolding uid_is_broadcast
one_device = refl

can_ask : CanAsk world responder 0 0xf0 driver
can_ask = record {
  taken = refl;
  is_sent = refl;
  ready = record {
    taken = refl;
    quiet = refl;
    wakes = refl;
    in_time = λ e. absurd (ground (arith, e));
  };
  one_device = one_device;
  sub_device_fits = omega arith;
  pid_pos = omega arith;
  header = record {
    message_len_fits = omega arith;
    dest_fits = record { man_fits = omega arith; dev_fits = omega arith };
    src_fits = record { man_fits = omega arith; dev_fits = omega arith };
    tn_fits = omega arith;
    port_id_fits = omega arith;
    message_count_fits = omega arith;
    sub_device_fits = omega arith;
    cc_fits = omega arith;
    pid_fits = omega arith;
    pdl_fits = omega arith;
  };
  port_fits = omega arith;
  buffer_fits = refl;
}

response-IsHeader : IsHeader response
response-IsHeader = record {
  message_len_fits = omega arith;
  dest_fits = record { man_fits = omega arith; dev_fits = omega arith };
  src_fits = record { man_fits = omega arith; dev_fits = omega arith };
  tn_fits = omega arith;
  port_id_fits = omega arith;
  message_count_fits = omega arith;
  sub_device_fits = omega arith;
  cc_fits = omega arith;
  pid_fits = omega arith;
  pdl_fits = omega arith;
}

answers :
    Answers world
      (request_header world (get_request responder 0 0xf0) 0)
      described
      answered
      response
answers = record {
  answered_by = λ k e f. refl;
  some_slots = refl;
  is_rdm = read_header-packet response (1 ∷ 2 ∷ []) (replicate 485 7) response-IsHeader refl;
  is_ack = refl;
  idle_again = refl;
}

word_valid : format_is_valid (some (b'w' ∷ b'$' ∷ [])) ≡ some true
unfolding format_is_valid esp_dmx.Format.check
word_valid = refl

word_read :
    read_to world (some (b'w' ∷ b'$' ∷ [])) 2 (some (9 ∷ 9 ∷ [])) answered
    ≡ some (some (2 ∷ 1 ∷ []))
unfolding read_to read_pd format_encode format_is_valid esp_dmx.Format.check
    esp_dmx.Format.encode_loop esp_dmx.Format.encode_tokens
word_read = refl

-- With no `rdm_ack_t`, the memory at `pd` keeps what it held.
send_request-get_example :
    (o : Outcome) × (send_request world
        (get_request responder 0 0xf0)
        (some (b'w' ∷ b'$' ∷ []))
        2
        (some (9 ∷ 9 ∷ []))
        false
        driver
      ≡ some o)
    × (o.returned ≡ 2)
    × (o.memory ≡ some (9 ∷ 9 ∷ []))
    × (o.rdm_ack ≡ none)
    × (o.driver.data_ ≡ write_at 0 (take 26 driver.data_) answered.data_)
send_request-get_example =
    send_request-get world responder 0 0xf0 2 (some (b'w' ∷ b'$' ∷ [])) (some (9 ∷ 9 ∷ []))
      (some (2 ∷ 1 ∷ [])) false driver answered described response can_ask answers word_valid
      word_read
