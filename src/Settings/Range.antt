-- ===== src/Settings/Range.antt =====
-- The settings keep to the ranges of the DMX standard, also on the line.
use esp_dmx.Prelude.{ℕ, ◌≤◌, ◌≡◌, refl, inl, inr, false, Option, arith, Bool-cases}
use esp_dmx.Packet.{Header}
use esp_dmx.Buffer.{sending}
use esp_dmx.Send.{
  Driver, World, in_break, start_packet, record_packet, is_discovery_response, timer_isr,
}
use esp_dmx.Send.Order.{alarms-in_break}
use esp_dmx.Settings.{clamp, set_baud_rate, get_break_len, set_break_len, get_mab_len, set_mab_len}

got_break : (d : Driver) {n : ℕ} → get_break_len d ≡ n → d.break_len ≡ n
unfolding get_break_len
got_break d e = e

got_mab : (d : Driver) {n : ℕ} → get_mab_len d ≡ n → d.mab_len ≡ n
unfolding get_mab_len
got_mab d e = e

clamp_bounds : (low high n : ℕ) → low ≤ high → (low ≤ clamp low high n) × (clamp low high n ≤ high)
unfolding clamp
clamp_bounds low high n h = (ground arith, ground arith)

-- Whatever is asked for, the value that `dmx_set_baud_rate`, `dmx_set_break_len` and
-- `dmx_set_mab_len` return lies in the range of the setting, and is the one that the getter of the
-- length returns then.
pub settings_bounds :
    (baud break mab : ℕ) (d : Driver)
    → let b = set_break_len break d in
      let m = set_mab_len mab b.1 in
      ((245000 ≤ set_baud_rate baud) × (set_baud_rate baud ≤ 255000))
      × ((92 ≤ b.0) × (b.0 ≤ 1000000) × (get_break_len m.1 ≡ b.0))
      × ((12 ≤ m.0) × (m.0 ≤ 999999) × (get_mab_len m.1 ≡ m.0))
unfolding set_baud_rate set_break_len set_mab_len get_break_len get_mab_len
settings_bounds baud break mab d =
    let (b₀, b₁) = clamp_bounds 92 1000000 break (omega arith) in
    let (m₀, m₁) = clamp_bounds 12 999999 mab (omega arith) in
    (clamp_bounds 245000 255000 baud (omega arith), (b₀, b₁, refl), (m₀, m₁, refl))

broken :
    (w : World) (h : Option Header) (d : Driver)
    → is_discovery_response h ≡ false
    → let d' = start_packet w h (record_packet h d) in
      (d'.status ≡ sending)
      × (d'.progress ≡ in_break)
      × (d'.timer.alarm ≡ d.break_len)
      × (d'.mab_len ≡ d.mab_len)
unfolding start_packet record_packet
broken w h d e = elim (Bool-cases d.is_controller) [
  | inl c ↦ rw (e, c) (refl, refl, refl, refl)
  | inr c ↦ rw (e, c) (refl, refl, refl, refl)
]

-- On a port whose two lengths were set, a packet that is no discovery response starts with a break
-- of 92 to 1000000 microseconds, and its first alarm sets one of 12 to 999999 microseconds for the
-- mark-after-break.
pub start_packet_bounds :
    (w : World) (h : Option Header) (break mab : ℕ) (d : Driver)
    → is_discovery_response h ≡ false
    → let set_up = (set_mab_len mab (set_break_len break d).1).1 in
      let started = start_packet w h (record_packet h set_up) in
      let risen = (timer_isr w started).0 in
      ((92 ≤ started.timer.alarm) × (started.timer.alarm ≤ 1000000))
      × ((12 ≤ risen.timer.alarm) × (risen.timer.alarm ≤ 999999))
start_packet_bounds w h break mab d e =
    let (baud_range, (b₀, b₁, b_is), (m₀, m₁, m_is)) = settings_bounds 0 break mab d in
    let set_up = (set_mab_len mab (set_break_len break d).1).1 in
    let (busy, brk, alarm, mab_kept) = broken w h set_up e in
    let (first, later) = alarms-in_break w (start_packet w h (record_packet h set_up)) busy brk in
    (
      (
        omega (arith, alarm, b₀, got_break set_up b_is),
        omega (arith, alarm, b₁, got_break set_up b_is),
      ),
      (
        omega (arith, first.3, mab_kept, m₀, got_mab set_up m_is),
        omega (arith, first.3, mab_kept, m₁, got_mab set_up m_is),
      ),
    )
