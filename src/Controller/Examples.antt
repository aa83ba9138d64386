-- ===== src/Controller/Examples.antt =====
-- The theorems on the search for devices on a network of three of them, one with the last UID
-- of its manufacturer below the broadcast.
use esp_dmx.Prelude.{ℕ, ◌≡◌, List, [], ◌∷◌, arith}
use esp_dmx.Controller.{found, discover, of_number}
use esp_dmx.Controller.Ranges.{IsSorted}
use esp_dmx.Controller.Network.{network, network-IsLossless}
use esp_dmx.Controller.Complete.{discover_finds}

abbrev devices : List ℕ
devices = 5 ∷ 0x05e0_4402_c71a ∷ 0x05e0_ffff_fffe ∷ []

devices-IsSorted : IsSorted devices
devices-IsSorted = ((omega arith, (omega arith, tt)), ((omega arith, tt), (tt, tt)))

discover_finds_example :
    (s' : List ℕ) × (discover (network devices) 300 []
      ≡ found (record {
        stack = [];
        calls = of_number 5 ∷ of_number 0x05e0_4402_c71a ∷ of_number 0x05e0_ffff_fffe ∷ [];
        num_found = 3;
        bus = s';
      }))
discover_finds_example =
    discover_finds (network devices) devices _ (network-IsLossless devices devices-IsSorted) 300 []
      (omega arith)
