-- ===== src/Sniffer/Examples.antt =====
-- The theorems on the sniffer at a packet that begins 1000 microseconds after the start.
use esp_dmx.Prelude.{◌≡◌, refl, true, false, none, some, arith}
use esp_dmx.Send.{Progress}
use esp_dmx.Sniffer.{Sniffer, get_data}
use esp_dmx.Sniffer.Measure.{packet_start, get_data-packet_start}

abbrev fresh : Sniffer
fresh = record {
  is_enabled = true;
  buffer_index = false;
  metadata_0 = record { break_len = 0; mab_len = 0 };
  metadata_1 = record { break_len = 0; mab_len = 7 };
  last_pos_edge_ts = 0;
  last_neg_edge_ts = none;
  progress = Progress.stale;
}

get_data-packet_start_example :
    get_data (packet_start 1000 1176 1188 fresh) ≡ some (record { break_len = 176; mab_len = 12 })
get_data-packet_start_example =
    get_data-packet_start fresh 1000 1176 1188 refl (omega arith) (omega arith) (omega arith)
