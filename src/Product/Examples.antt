-- ===== src/Product/Examples.antt =====
-- A fresh device that gets a label.
use esp_dmx.Prelude.{ℕ, ◌≡◌, refl, true, none, some, List, [], ◌∷◌, ◌++◌, arith}
use esp_dmx.Parameter.{Store, find_device, find_param, find_slot, get_entry, device_get}
use esp_dmx.Parameter.Access.{get_data}
use esp_dmx.Parameter.Added.{HasRoom}
use esp_dmx.Responder.Fresh.{fresh, empty_param}
use esp_dmx.Product.{get_device_label}
use esp_dmx.Product.Register.{register_device_label}
use esp_dmx.Product.Label.{padded, register_device_label-get}

room : HasRoom (fresh 0 []) 0x0082
unfolding find_device find_slot
room = record {
  i = 0;
  device = (fresh 0 []).root;
  param = empty_param;
  device_found = refl;
  slot_found = refl;
}

missing : get_entry (fresh 0 []) 0 0x0082 ≡ some none
unfolding get_entry device_get find_device find_param
missing = refl

no_language : get_data (fresh 0 []) 0 0x00b0 ≡ some none
unfolding get_data get_entry device_get find_device find_param
no_language = refl

-- "Lamp"
abbrev lamp : List ℕ
lamp = b'L' ∷ b'a' ∷ b'm' ∷ b'p' ∷ []

register_device_label-get_example :
    (s' : Store) × (register_device_label true
        (fresh 0 [])
        (some (lamp ++ (0 ∷ [])))
        0xaa
        9
        none
        none
      ≡ some (true, s'))
    × (get_device_label s' 32 ≡ some (32, padded 32 lamp))
register_device_label-get_example =
    register_device_label-get lamp [] 0xaa 9 none none room missing
      (omega arith, (omega arith, (omega arith, (omega arith, tt)))) (omega arith)
