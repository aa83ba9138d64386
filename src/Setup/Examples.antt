-- ===== src/Setup/Examples.antt =====
-- A device with two personalities and a start address.
use esp_dmx.Prelude.{ℕ, ◌≡◌, ◌≤◌, ◌+◌, ◌⊎◌, refl, true, none, some, [], ◌∷◌, ◌++◌, arith, replicate}
use esp_dmx.Parameter.{
  Param, Store, dynamic, non_volatile, find_device, find_param, find_slot, get_entry, device_get,
}
use esp_dmx.Parameter.Access.{parameter_copy, parameter_size, get_data}
use esp_dmx.Parameter.Added.{HasRoom}
use esp_dmx.Parameter.Callback.{definition_get}
use esp_dmx.Responder.Fresh.{empty_param}
use esp_dmx.Setup.{
  get_footprint, get_dmx_personality, get_personality_count, get_dmx_personality_description,
  get_current_personality, get_start_address, set_current_personality, set_start_address,
}
use esp_dmx.Setup.Personality.{HasPersonality, set_current_personality-get}
use esp_dmx.Setup.Address.{HasAddress, set_start_address-get}
use esp_dmx.Setup.Register.{register_dmx_start_address}
use esp_dmx.Setup.StartAddress.{register_dmx_start_address-fits, register_dmx_start_address-first}

abbrev personality : Param
personality = record empty_param { pid = 0x00e0; size = 2; data_ = some 0; kind = non_volatile }

abbrev descriptions : Param
descriptions = record empty_param { pid = 0x00e1; size = 72; data_ = some 1; kind = dynamic }

abbrev start_address : Param
start_address = record empty_param { pid = 0x00f0; size = 2; data_ = some 2; kind = non_volatile }

abbrev two_personalities : Param → Store
two_personalities last_ = record {
  count_root = 3;
  count_subs = 0;
  count_staged = 0;
  root = record { num = 0; params = personality ∷ descriptions ∷ last_ ∷ [] };
  subs = [];
  heap =
      (1 ∷ 2 ∷ [])
      ∷ ((1 ∷ 4 ∷ 0 ∷ replicate 33 0) ++ (2 ∷ 16 ∷ 0 ∷ replicate 33 0))
      ∷ (10 ∷ 0 ∷ [])
      ∷ [];
}

has_personality : (last_ : Param) → HasPersonality (two_personalities last_) 1 2
unfolding find_device find_param
has_personality last_ = record {
  i = 0;
  b = 0;
  device = (two_personalities last_).root;
  param = personality;
  size_is = refl;
  data_ = record {
    num_fits = omega arith;
    pid_pos = omega arith;
    device_found = refl;
    param_found = refl;
    param_at = refl;
    pid_is = refl;
    data_at = refl;
    block_at = refl;
    block_length = omega arith;
  };
}

has_address : HasAddress (two_personalities start_address) 10 0
unfolding find_device find_param
has_address = record {
  i = 2;
  b = 2;
  device = (two_personalities start_address).root;
  param = start_address;
  size_is = refl;
  data_ = record {
    num_fits = omega arith;
    pid_pos = omega arith;
    device_found = refl;
    param_found = refl;
    param_at = refl;
    pid_is = refl;
    data_at = refl;
    block_at = refl;
    block_length = omega arith;
  };
}

set_current_personality-get_example :
    (s' : Store) × (set_current_personality (two_personalities start_address) 2
      ≡ some (record { done = true; pushed = some 0x00e0; parameters = s' }))
    × HasPersonality s' 2 2
    × (get_current_personality s' ≡ some 2)
    × (get_personality_count s' ≡ some 2)
set_current_personality-get_example = set_current_personality-get 2 (has_personality start_address)

set_start_address-get_example :
    (s' : Store) × (set_start_address (two_personalities start_address) 300
      ≡ some (record { done = true; pushed = some 0x00f0; parameters = s' }))
    × (get_start_address s' ≡ some 300)
set_start_address-get_example = set_start_address-get 300 has_address

room : HasRoom (two_personalities empty_param) 0x00f0
unfolding find_device find_slot
room = record {
  i = 2;
  device = (two_personalities empty_param).root;
  param = empty_param;
  device_found = refl;
  slot_found = refl;
}

footprint_lem : get_footprint (two_personalities empty_param) 1 ≡ some 4
unfolding get_footprint get_personality_count get_dmx_personality get_dmx_personality_description
    parameter_copy parameter_size get_data get_entry device_get find_device find_param
footprint_lem = refl

register_dmx_start_address-fits_example :
    (s' : Store) × (register_dmx_start_address true
        (two_personalities empty_param)
        (some (254 ∷ 1 ∷ []))
        7
        none
        none
      ≡ some (true, s'))
    × (definition_get s' 0 0x00f0 ≡ some (some 7))
    × (get_start_address s' ≡ some 1)
    × ((◌≡◌ {A = ℕ} 1 1) ⊎ (1 + 4 ≤ 513))
register_dmx_start_address-fits_example =
    register_dmx_start_address-fits (some (254, 1)) 4 7 none none room (has_personality empty_param)
      (omega arith) footprint_lem (omega arith, omega arith)

abbrev bare : Store
bare = record (two_personalities empty_param) {
  root = record { num = 0; params = empty_param ∷ empty_param ∷ empty_param ∷ [] };
}

bare_room : HasRoom bare 0x00f0
unfolding find_device find_slot
bare_room = record {
  i = 0;
  device = bare.root;
  param = empty_param;
  device_found = refl;
  slot_found = refl;
}

no_personality : get_entry bare 0 0x00e0 ≡ some none
unfolding get_entry device_get find_device find_param
no_personality = refl

register_dmx_start_address-first_example :
    (s' : Store) × (register_dmx_start_address true bare (some (0 ∷ 2 ∷ [])) 7 none none
      ≡ some (true, s'))
    × (get_start_address s' ≡ some 512)
register_dmx_start_address-first_example =
    register_dmx_start_address-first (some (0, 2)) 7 none none bare_room no_personality
      (omega arith, omega arith)
