-- ===== src/Sniffer/Measure.antt =====
-- What the sniffer reports of a packet's break and mark-after-break.
use esp_dmx.Prelude.{
  ℕ, ◌+◌, ◌-◌, ◌^◌, ◌<◌, ◌≤◌, ◌≡◌, refl, ap, ap₂, ◌∙◌, Bool, true, false, some, arith, Bool-cases,
  inl, inr, if◌then◌else◌,
}
use esp_dmx.Send.{Progress, in_break, in_mab, in_data}
use esp_dmx.Sniffer.{Metadata, Sniffer, gpio_isr, positive_edge, negative_edge, get_data}

-- The line falls at `fall`, the UART's interrupt finds the break, the line rises at `rise`, and
-- falls again at `data`.
abbrev pub packet_start : ℕ → ℕ → ℕ → Sniffer → Sniffer
packet_start fall rise data_at s =
    gpio_isr false data_at
      (gpio_isr true rise (record (gpio_isr false fall s) { progress = in_break }))

abbrev pub risen : ℕ → ℕ → Sniffer → Sniffer
risen fall rise s = gpio_isr true rise (record (gpio_isr false fall s) { progress = in_break })

-- A sniffer in a break that began at `fall`.
abbrev in_a_break : Bool → Metadata → Metadata → ℕ → ℕ → Sniffer
in_a_break index m₀ m₁ pos fall = record {
  is_enabled = true;
  buffer_index = index;
  metadata_0 = m₀;
  metadata_1 = m₁;
  last_pos_edge_ts = pos;
  last_neg_edge_ts = some fall;
  progress = in_break;
}

abbrev lengths : ℕ → ℕ → Metadata
lengths b m = record { break_len = b; mab_len = m }

measured :
    (index : Bool) (m₀ m₁ : Metadata) (pos fall rise data_at : ℕ)
    → fall ≤ rise
    → rise ≤ data_at
    → data_at < fall + 2 ^ 32
    → get_data (gpio_isr false data_at (gpio_isr true rise (in_a_break index m₀ m₁ pos fall)))
      ≡ some (lengths (rise - fall) (data_at - rise))
unfolding get_data gpio_isr positive_edge negative_edge
measured true m₀ m₁ pos fall rise data_at p q r =
    ap₂ (λ b m. some (lengths b m)) (omega arith) (omega arith)
measured false m₀ m₁ pos fall rise data_at p q r =
    ap₂ (λ b m. some (lengths b m)) (omega arith) (omega arith)

-- The metadata of the buffer that is not the current one.
abbrev pub spare : Sniffer → Metadata
spare s = if s.buffer_index then s.metadata_0 else s.metadata_1

half_measured :
    (index : Bool) (m₀ m₁ : Metadata) (pos fall rise : ℕ)
    → fall ≤ rise
    → rise < fall + 2 ^ 32
    → let s = in_a_break index m₀ m₁ pos fall in
      get_data (gpio_isr true rise s) ≡ some (lengths (rise - fall) (spare s).mab_len)
unfolding get_data gpio_isr positive_edge
half_measured true m₀ m₁ pos fall rise p q = ap (λ b. some (lengths b m₀.mab_len)) (omega arith)
half_measured false m₀ m₁ pos fall rise p q = ap (λ b. some (lengths b m₁.mab_len)) (omega arith)

-- What a falling edge records, whatever the progress.
fallen :
    (p : Progress) (now : ℕ) (s : Sniffer)
    → ((negative_edge p now s).last_neg_edge_ts ≡ some now)
      × ((negative_edge p now s).is_enabled ≡ s.is_enabled)
unfolding negative_edge
fallen Progress.stale now s = (refl, refl)
fallen in_break now s = (refl, refl)
fallen in_mab now s = elim (Bool-cases s.buffer_index) [
  | inl e ↦ (refl, rw e refl)
  | inr e ↦ (refl, rw e refl)
]
fallen in_data now s = (refl, refl)
fallen Progress.complete now s = (refl, refl)

break_begun :
    (now : ℕ) (s : Sniffer)
    → s.is_enabled ≡ true
    → let f = gpio_isr false now s in
      record f { progress = in_break }
      ≡ in_a_break f.buffer_index f.metadata_0 f.metadata_1 f.last_pos_edge_ts now
unfolding gpio_isr
break_begun now s on =
    let f = negative_edge s.progress now s in
    let (at, same) = fallen s.progress now s in
    λ i. record {
      is_enabled = (same ∙ on) i;
      buffer_index = f.buffer_index;
      metadata_0 = f.metadata_0;
      metadata_1 = f.metadata_1;
      last_pos_edge_ts = f.last_pos_edge_ts;
      last_neg_edge_ts = at i;
      progress = in_break;
    }

-- When the line falls for a break, rises for the mark-after-break and falls for the first slot, less
-- than 2 ^ 32 microseconds later, `dmx_sniffer_get_data` of an enabled sniffer reports the times
-- between the edges, whatever the sniffer saw before.
pub get_data-packet_start :
    (s : Sniffer) (fall rise data_at : ℕ)
    → s.is_enabled ≡ true
    → fall ≤ rise
    → rise ≤ data_at
    → data_at < fall + 2 ^ 32
    → get_data (packet_start fall rise data_at s)
      ≡ some (record { break_len = rise - fall; mab_len = data_at - rise })
get_data-packet_start s fall rise data_at on p q r =
    let f = gpio_isr false fall s in
    ap (λ g. get_data (gpio_isr false data_at (gpio_isr true rise g))) (break_begun fall s on)
    ∙ measured f.buffer_index f.metadata_0 f.metadata_1 f.last_pos_edge_ts fall rise data_at p q r

-- During a mark-after-break `dmx_sniffer_get_data` of an enabled sniffer reports the new break with
-- the length of a mark-after-break that the other buffer has held since an earlier packet.
pub get_data-risen :
    (s : Sniffer) (fall rise : ℕ)
    → s.is_enabled ≡ true
    → fall ≤ rise
    → rise < fall + 2 ^ 32
    → get_data (risen fall rise s)
      ≡ some (record { break_len = rise - fall; mab_len = (spare (gpio_isr false fall s)).mab_len })
get_data-risen s fall rise on p q =
    let f = gpio_isr false fall s in
    ap (λ g. get_data (gpio_isr true rise g)) (break_begun fall s on)
    ∙ half_measured f.buffer_index f.metadata_0 f.metadata_1 f.last_pos_edge_ts fall rise p q
