-- ===== src/Buffer/Examples.antt =====
-- The theorems on the packet buffer at a small write and at a packet.
use esp_dmx.Prelude.{inl, take, drop, ◌++◌, ◌≡◌, refl, some, [], ◌∷◌, arith}
use esp_dmx.Buffer.{Port, Status, read_offset, write_offset}
use esp_dmx.Buffer.RoundTrip.{read_offset-write_offset}
use esp_dmx.Buffer.Sending.{IsStandard, write_offset-write}
use esp_dmx.Packet.Frame.{packet}
use esp_dmx.Packet.Examples.{
  blank, set_address, set_address-Accepts, set_address-IsHeader, encoded_address,
  set_address-written,
}

abbrev quiet_port : Port
quiet_port = record { data_ = blank; status = Status.idle; rts = 1 }

-- A port that sends the packet of the other module's example.
abbrev busy_port : Port
busy_port = record {
  data_ = packet set_address (0 ∷ 1 ∷ []) (drop 28 blank);
  status = Status.sending;
  rts = 0;
}

read_offset-write_offset_example :
    (port' : Port) × (write_offset quiet_port 511 (7 ∷ 8 ∷ 9 ∷ []) 3 ≡ some (2, port'))
    × (read_offset port'.data_ 511 (0 ∷ 0 ∷ []) 2 ≡ some (2, 7 ∷ 8 ∷ []))
    × (port'.data_ ≡ take 511 blank ++ (7 ∷ 8 ∷ []))
read_offset-write_offset_example =
    read_offset-write_offset quiet_port 511 3 (7 ∷ 8 ∷ 9 ∷ []) (0 ∷ 0 ∷ []) refl refl (omega arith)
      (omega arith) (omega arith) (omega arith) refl

set_address-IsStandard : IsStandard 2 set_address (some (b'w' ∷ [])) (some (1 ∷ 0 ∷ []))
set_address-IsStandard = record {
  out = 0 ∷ 1 ∷ [];
  accepted = set_address-Accepts;
  fits = set_address-IsHeader;
  encodes = inl (1 ∷ 0 ∷ [], refl, omega arith, encoded_address);
  small = omega arith;
}

write_offset-write_example : write_offset busy_port 5 (1 ∷ 2 ∷ []) 2 ≡ some (0, busy_port)
write_offset-write_example =
    write_offset-write 2 28 set_address (some (b'w' ∷ [])) (some (1 ∷ 0 ∷ [])) blank busy_port 5 2
      (1 ∷ 2 ∷ []) (inl set_address-IsStandard) refl set_address-written refl
