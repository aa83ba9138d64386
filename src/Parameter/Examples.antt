-- ===== src/Parameter/Examples.antt =====
-- The theorems on the table of parameters at a small one.
use esp_dmx.Prelude.{ℕ, ◌≡◌, refl, true, some, none, [], ◌∷◌, arith, inr}
use esp_dmx.Parameter.{
  Kind, null, non_volatile, staged, Param, Store, find_device, find_param, find_slot, add, Slot,
}
use esp_dmx.Parameter.Access.{parameter_set, parameter_copy}
use esp_dmx.Parameter.RoundTrip.{HasData, copy-set}
use esp_dmx.Parameter.Added.{add-HasData}
use esp_dmx.Parameter.Staged.{IsCounted, set-IsCounted}

abbrev blank_param : Param
blank_param = record {
  pid = 0;
  size = 0;
  data_ = none;
  kind = null;
  definition = none;
  callback = none;
  context = none;
}

-- The start address, of two octets.
abbrev address : Kind → Param
address k = record blank_param { pid = 0xf0; size = 2; data_ = some 0; kind = k }

abbrev table : Kind → ℕ → Store
table k n = record {
  count_root = 2;
  count_subs = 0;
  count_staged = n;
  root = record { num = 0; params = address k ∷ blank_param ∷ [] };
  subs = [];
  heap = (1 ∷ 0 ∷ []) ∷ (7 ∷ 7 ∷ 7 ∷ []) ∷ [];
}

table-HasData :
    HasData
      (table non_volatile 0)
      0
      0xf0
      0
      0
      (table non_volatile 0).root
      (address non_volatile)
      (1 ∷ 0 ∷ [])
unfolding find_device find_param
table-HasData = record {
  num_fits = omega arith;
  pid_pos = omega arith;
  device_found = refl;
  param_found = refl;
  param_at = refl;
  pid_is = refl;
  data_at = refl;
  block_at = refl;
  block_length = omega arith;
}

root_at : find_device ((table non_volatile 0).root ∷ []) 0 ≡ some (table non_volatile 0).root
unfolding find_device
root_at = refl

root_of_null : find_device ((table null 0).root ∷ []) 0 ≡ some (table null 0).root
unfolding find_device
root_of_null = refl

slot_at : find_slot 2 0 (table non_volatile 0).root.params 0x82 ≡ some (Slot.empty 1 blank_param)
unfolding find_slot
slot_at = refl

copy-set_example :
    (s' : Store) × (parameter_set (table non_volatile 0) 0 0xf0 (some (5 ∷ 1 ∷ 9 ∷ [])) 3
      ≡ some (2, s'))
    × (parameter_copy s' 0 0xf0 1 ≡ some (1, 5 ∷ []))
    × HasData s' 0 0xf0 0 0
        (record { num = 0; params = address staged ∷ blank_param ∷ [] })
        (address staged)
        (5 ∷ 1 ∷ [])
copy-set_example =
    copy-set table-HasData (5 ∷ 1 ∷ 9 ∷ []) 3 1 (omega arith) (omega arith) (omega arith)

set-IsCounted_example :
    (s' : Store) × (parameter_set (table non_volatile 0) 0 0xf0 (some (5 ∷ 1 ∷ [])) 2
      ≡ some (2, s'))
    × IsCounted s'
set-IsCounted_example =
    set-IsCounted table-HasData (5 ∷ 1 ∷ []) 2 (omega arith) (omega arith) (omega arith) refl

add-HasData_example :
    (s' : Store) × (add true (table non_volatile 0) 0 0x82 non_volatile (some 1) 3
      ≡ some (true, s'))
    × HasData s' 0 0x82 1 2
        (record {
          num = 0;
          params =
              address non_volatile
              ∷ record blank_param { pid = 0x82; size = 3; data_ = some 2; kind = non_volatile }
              ∷ [];
        })
        (record blank_param { pid = 0x82; size = 3; data_ = some 2; kind = non_volatile })
        (7 ∷ 7 ∷ 7 ∷ [])
add-HasData_example =
    add-HasData (table non_volatile 0) 0 0x82 1 non_volatile 1 3 (omega arith) (omega arith) root_at
      slot_at (inr refl) refl (omega arith)
