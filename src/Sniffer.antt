-- ===== src/Sniffer.antt =====
-- The sniffer, which measures the break and the mark-after-break from the edges of the line:
-- src/dmx/sniffer.c and the interrupt of src/dmx/hal/gpio.c.
pub mod Measure
pub mod Examples
use esp_dmx.Prelude.{ℕ, ◌-◌, ◌%◌, ◌^◌, Bool, true, false, not, Option, none, some, if◌then◌else◌}
use esp_dmx.Send.{Progress, in_break, in_mab, in_data}

-- `dmx_metadata_t`
pub record Metadata : Type 0 where
  pub break_len : ℕ
  pub mab_len : ℕ

-- `dmx_driver_sniffer_t` and the progress of the packet. The buffer's index is a Boolean, the
-- timestamp -1 is `none`.
pub record Sniffer : Type 0 where
  pub is_enabled : Bool
  pub buffer_index : Bool
  pub metadata_0 : Metadata
  pub metadata_1 : Metadata
  pub last_pos_edge_ts : ℕ
  pub last_neg_edge_ts : Option ℕ
  pub progress : Progress

-- `metadata[buffer_index]`
abbrev pub current : Sniffer → Metadata
current s = if s.buffer_index then s.metadata_1 else s.metadata_0

abbrev pub put_current : Metadata → Sniffer → Sniffer
put_current m s =
    if s.buffer_index then record s { metadata_1 = m } else record s { metadata_0 = m }

-- The end of a break that began at `start`.
unfoldable pub end_break : ℕ → ℕ → Sniffer → Sniffer
end_break start now s =
    let flipped = record s { buffer_index = not s.buffer_index; progress = in_mab } in
    put_current (record (current flipped) { break_len = (now - start) % 2 ^ 32 }) flipped

unfoldable pub positive_edge : Progress → Option ℕ → ℕ → Sniffer → Sniffer
unfolding end_break
positive_edge in_break (some start) now s = record (end_break start now s) {
  last_pos_edge_ts = now;
}
positive_edge _ _ now s = record s { last_pos_edge_ts = now }

-- The end of a mark-after-break.
unfoldable pub negative_edge : Progress → ℕ → Sniffer → Sniffer
negative_edge in_mab now s =
    record (put_current (record (current s) { mab_len = (now - s.last_pos_edge_ts) % 2 ^ 32 })
      (record s { progress = in_data })) { last_neg_edge_ts = some now }
negative_edge _ now s = record s { last_neg_edge_ts = some now }

-- `dmx_gpio_isr` at time `now`, with the level that the pin has.
unfoldable pub gpio_isr : Bool → ℕ → Sniffer → Sniffer
gpio_isr level now s =
    if level
    then positive_edge s.progress s.last_neg_edge_ts now s
    else negative_edge s.progress now s

-- `dmx_sniffer_enable` on a port whose sniffer is off, where the interrupt's handler is added.
unfoldable pub sniffer_enable : Sniffer → Bool × Sniffer
sniffer_enable s =
    if s.is_enabled
    then (false, s)
    else (true, record s { last_neg_edge_ts = none; is_enabled = true })

unfoldable pub sniffer_disable : Sniffer → Bool × Sniffer
sniffer_disable s = if s.is_enabled then (true, record s { is_enabled = false }) else (false, s)

-- `dmx_sniffer_get_data`
unfoldable pub get_data : Sniffer → Option Metadata
get_data s = if s.is_enabled then some (current s) else none
