-- ===== src/Power.antt =====
-- Enabling and disabling a port: dmx_driver_enable, dmx_driver_disable and dmx_driver_is_enabled of
-- src/dmx/driver.c.
pub mod Cycle
use esp_dmx.Prelude.{ℕ, Bool, true, false, ◌&&◌, not, Option, none, if◌then◌else◌}
use esp_dmx.Buffer.{Status, is_sending}

-- The fields that the functions use; a head of -1, which waits for a break, is `none`. Of the UART:
-- whether its receive interrupts are enabled, whether one is pending, and how many octets stand in
-- its two queues.
pub record Power : Type 0 where
  pub is_installed : Bool
  pub is_enabled : Bool
  pub status : Status
  pub head : Option ℕ
  pub rx_interrupts : Bool
  pub rx_pending : Bool
  pub rx_fifo : ℕ
  pub tx_fifo : ℕ

unfoldable pub driver_is_enabled : Power → Bool
driver_is_enabled s = if s.is_installed then s.is_enabled else false

-- `dmx_driver_disable`, which refuses while the port is sending.
unfoldable pub disable : Power → Bool × Power
disable s =
    if s.is_installed && driver_is_enabled s
    then if not (is_sending s.status)
      then (true, record s { rx_interrupts = false; rx_pending = false; is_enabled = false })
      else (false, s)
    else (false, s)

-- `dmx_driver_enable`
unfoldable pub enable : Power → Bool × Power
enable s =
    if s.is_installed && not (driver_is_enabled s)
    then (
      true,
      record s {
        head = none;
        is_enabled = true;
        rx_fifo = 0;
        tx_fifo = 0;
        rx_interrupts = true;
        rx_pending = false;
      },
    )
    else (false, s)
