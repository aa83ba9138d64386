-- ===== src/Settings.antt =====
-- The settings of a port: the functions of src/dmx/driver.c that set and get the baud rate, the
-- break's and the mark-after-break's length, in microseconds, on an installed driver.
pub mod Range
use esp_dmx.Prelude.{ℕ, Bool, ltb, if◌then◌else◌}
use esp_dmx.Send.{Driver}

abbrev pub baud_rate_min : ℕ
baud_rate_min = 245000

abbrev pub baud_rate_max : ℕ
baud_rate_max = 255000

abbrev pub break_len_min : ℕ
break_len_min = 92

abbrev pub break_len_max : ℕ
break_len_max = 1000000

abbrev pub mab_len_min : ℕ
mab_len_min = 12

abbrev pub mab_len_max : ℕ
mab_len_max = 999999

-- The clamping of the three setters.
unfoldable pub clamp : ℕ → ℕ → ℕ → ℕ
clamp low high n = if ltb n low then low else if ltb high n then high else n

-- `dmx_set_baud_rate`: the value that is given to the UART and returned.
unfoldable pub set_baud_rate : ℕ → ℕ
unfolding clamp
set_baud_rate n = clamp baud_rate_min baud_rate_max n

unfoldable pub get_break_len : Driver → ℕ
get_break_len d = d.break_len

unfoldable pub set_break_len : ℕ → Driver → ℕ × Driver
unfolding clamp
set_break_len n d =
    let len = clamp break_len_min break_len_max n in (len, record d { break_len = len })

unfoldable pub get_mab_len : Driver → ℕ
get_mab_len d = d.mab_len

unfoldable pub set_mab_len : ℕ → Driver → ℕ × Driver
unfolding clamp
set_mab_len n d = let len = clamp mab_len_min mab_len_max n in (len, record d { mab_len = len })
