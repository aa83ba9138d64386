-- ===== src/Uid/Examples.antt =====
-- The theorems on UIDs at concrete ones.
use esp_dmx.Prelude.{arith}
use esp_dmx.Uid.{Uid, IsUid}

abbrev light : Uid
light = record { man_id = 0x05e0; dev_id = 0x4402_c71a }

abbrev dimmer : Uid
dimmer = record { man_id = 0x05e0; dev_id = 0x4402_c8ff }

abbrev all_lights : Uid
all_lights = record { man_id = 0x05e0; dev_id = 0xffff_ffff }

light-IsUid : IsUid light
light-IsUid = record { man_fits = omega arith; dev_fits = omega arith }

dimmer-IsUid : IsUid dimmer
dimmer-IsUid = record { man_fits = omega arith; dev_fits = omega arith }
