-- ===== src/Power/Cycle.antt =====
-- Disabling and enabling a port again.
use esp_dmx.Prelude.{◌≡◌, refl, sym, true, false, not, none, if◌then◌else◌}
use mathlib.Core.Path.{subst}
use esp_dmx.Buffer.{Status, idle, receiving, sending, is_sending}
use esp_dmx.Power.{Power, driver_is_enabled, disable, enable}

-- A port that was disabled and enabled again.
abbrev restarted : Power → Power
restarted s = record s {
  head = none;
  is_enabled = true;
  rx_fifo = 0;
  tx_fifo = 0;
  rx_interrupts = true;
  rx_pending = false;
}

abbrev pub Cycled : Power → Type 0
Cycled s =
    let d = disable s in
    let e = enable d.1 in
    (d.0 ≡ not (is_sending s.status))
    × (driver_is_enabled d.1 ≡ is_sending s.status)
    × (e.0 ≡ not (is_sending s.status))
    × (e.1 ≡ (if is_sending s.status then s else restarted s))

-- A port that is installed and enabled.
abbrev running : Power → Status → Power
running s status = record s { is_installed = true; is_enabled = true; status = status }

cycled : (s : Power) (status : Status) → Cycled (running s status)
unfolding disable enable driver_is_enabled
cycled s idle = (refl, refl, refl, refl)
cycled s receiving = (refl, refl, refl, refl)
cycled s sending = (refl, refl, refl, refl)

-- On an installed port that is enabled, `dmx_driver_disable` succeeds exactly when the port is not
-- sending, and `dmx_driver_enable` after it exactly then too: the port then waits for a break with
-- empty queues and no interrupt pending; a port that is sending is left as it is by both.
pub enable-disable : (s : Power) → s.is_installed ≡ true → s.is_enabled ≡ true → Cycled s
enable-disable s here on =
    subst Cycled (λ i. record s { is_installed = sym here i; is_enabled = sym on i })
      (cycled s s.status)
