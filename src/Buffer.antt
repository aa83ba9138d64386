-- ===== src/Buffer.antt =====
-- The driver's packet buffer and the functions of src/dmx/io.c that read and write its slots.
-- `none` is a copy that runs out of the buffer or of the caller's memory.
pub mod Clamp
pub mod RoundTrip
pub mod Sending
pub mod Examples
use esp_dmx.Prelude.{
  ℕ, ◌+◌, ◌-◌, ◌%◌, ◌^◌, Bool, true, false, ◌||◌, ◌>>=◌, Option, none, some, List, [], ◌∷◌, ltb,
  ◌==◌, if◌then◌else◌, length, take, drop, write_at, get_or,
}
use esp_dmx.Packet.{packet_size_max}
use esp_dmx.Packet.Read.{read_header}
use esp_dmx.Packet.Write.{is_some}

-- `driver->dmx.status`
pub data Status : Type 0 where
  idle receiving sending : Status

abbrev pub is_sending : Status → Bool
is_sending sending = true
is_sending _ = false

-- The buffer, the status, and the level of the UART's RTS pin, which is low to write to the bus.
pub record Port : Type 0 where
  pub data_ : List ℕ
  pub status : Status
  pub rts : ℕ

-- The clamping that both functions begin with. `size + offset` is a size_t, of 32 bits; `none` is
-- the early return for nothing to copy.
unfoldable pub clamp_size : ℕ → ℕ → Option ℕ
clamp_size offset size =
    if ltb packet_size_max ((size + offset) % 2 ^ 32)
    then some (packet_size_max - offset)
    else if size == 0
    then none
    else some size

-- The `memcpy` of `n` octets from the buffer.
unfoldable pub copy_out : List ℕ → ℕ → List ℕ → ℕ → Option (ℕ × List ℕ)
copy_out data_ offset dest n =
    if ltb packet_size_max (offset + n) || ltb (length dest) n
    then none
    else some (n, write_at 0 (take n (drop offset data_)) dest)

-- `dmx_read_offset` to memory `dest`: the size, and that memory.
unfoldable pub read_offset : List ℕ → ℕ → List ℕ → ℕ → Option (ℕ × List ℕ)
read_offset data_ offset dest size =
    if ltb offset packet_size_max
    then (elim (clamp_size offset size) [
      | none ↦ some (0, dest)
      | some n ↦ copy_out data_ offset dest n
    ])
    else some (0, dest)

-- `dmx_read`
unfoldable pub read : List ℕ → List ℕ → ℕ → Option (ℕ × List ℕ)
unfolding read_offset
read data_ dest size = read_offset data_ 0 dest size

-- `dmx_read_slot`; the inner `none` is the -1 of a refused slot number.
unfoldable pub read_slot : List ℕ → ℕ → Option (Option ℕ)
read_slot data_ slot_num =
    if ltb slot_num packet_size_max
    then (read_offset data_ slot_num (0 ∷ []) 1 >>= λ r. some (some (get_or r.1 0 0)))
    else some none

-- The `memcpy` of `n` octets to the buffer, behind the switch of the bus to writing.
unfoldable pub copy_in : Port → ℕ → List ℕ → ℕ → Option (ℕ × Port)
copy_in port offset source n =
    if ltb packet_size_max (offset + n) || ltb (length source) n
    then none
    else some (
      n,
      record port {
        data_ = write_at offset (take n source) port.data_;
        rts = if port.rts == 1 then 0 else port.rts;
      },
    )

-- `dmx_write_offset`
unfoldable pub write_offset : Port → ℕ → List ℕ → ℕ → Option (ℕ × Port)
write_offset port offset source size =
    if ltb offset packet_size_max
    then (elim (clamp_size offset size) [
      | none ↦ some (0, port)
      | some n ↦
          if is_sending port.status
          then (if is_some (read_header port.data_)
              then some (0, port)
              else copy_in port offset source n)
          else copy_in port offset source n
    ])
    else some (0, port)

-- `dmx_write`
unfoldable pub write : Port → List ℕ → ℕ → Option (ℕ × Port)
unfolding write_offset
write port source size = write_offset port 0 source size

-- `dmx_write_slot`: the value, also when the write is refused.
unfoldable pub write_slot : Port → ℕ → ℕ → Option (Option ℕ × Port)
write_slot port slot_num value =
    if ltb slot_num packet_size_max
    then (write_offset port slot_num (value ∷ []) 1 >>= λ r. some (some value, r.1))
    else some (none, port)
