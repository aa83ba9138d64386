-- ===== src/Install/Table.antt =====
-- The tables of parameters while a device without personalities and without a queue is installed.
use esp_dmx.Prelude.{ℕ, ◌≡◌, true, Option, none, some, List, [], ◌∷◌, ◌++◌, length, take, replicate}
use esp_dmx.Parameter.{Kind, dynamic, static, non_volatile, Param, Store}
use esp_dmx.Sensors.{le16}
use esp_dmx.Supported.{le32}
use esp_dmx.Product.Label.{padded}
use esp_dmx.Install.Parameters.{Config, Platform}

-- A configuration with ten parameters, as many as are registered.
abbrev pub ten : ℕ → ℕ → ℕ → ℕ → List ℕ → Config
ten sub_count model category version label = record {
  root_count = 10;
  sub_count = sub_count;
  model_id = model;
  product_category = category;
  software_version_id = version;
  software_version_label = some label;
  queue_size_max = 0;
}

-- The installation finds memory and the manufacturer's label, and UART and timer are ready.
pub record IsReady (p : Platform) : Type 0 where
  pub driver_memory : p.driver_memory ≡ true
  pub mutex_memory : p.mutex_memory ≡ true
  pub memory : p.memory ≡ true
  pub manufacturer : p.manufacturer ≡ some 0
  pub uart_ready : p.uart_ready ≡ true
  pub timer_ready : p.timer_ready ≡ true

-- An entry of the root device's array.
abbrev pub entry : Platform → ℕ → ℕ → Option ℕ → Kind → Option ℕ → Param
entry p pid size data_ kind callback = record {
  pid = pid;
  size = size;
  data_ = data_;
  kind = kind;
  definition = some (p.address pid);
  callback = callback;
  context = none;
}

abbrev pub table : ℕ → List Param → List (List ℕ) → Store
table subs params heap = record {
  count_root = 10;
  count_subs = subs;
  count_staged = 0;
  root = record { num = 0; params = params };
  subs = [];
  heap = heap;
}

abbrev pub free : Platform → ℕ → Param
free p i = record (p.old_param i) { pid = 0 }

-- The array in front of the software version's label, and behind it.
abbrev pub first_four : Platform → List Param → List Param
first_four p rest =
    entry p 0x0001 0 none static none
    ∷ entry p 0x0002 1 (some 1) dynamic none
    ∷ entry p 0x0003 1 (some 1) static none
    ∷ entry p 0x0060 8 (some 3) dynamic none
    ∷ rest

abbrev pub label_entry : Platform → List ℕ → Param
label_entry p text = entry p 0x00c0 (length text) (some 5) dynamic none

abbrev pub identify_entry : Platform → Param
identify_entry p = entry p 0x1000 1 (some 7) non_volatile (some p.identify)

abbrev pub maker_entry : Platform → List ℕ → Param
maker_entry p maker = entry p 0x0081 (length maker) (some 0) static none

abbrev pub last_three : Platform → List Param
last_three p =
    entry p 0x0082 33 (some 9) non_volatile none
    ∷ entry p 0x0050 0 none static none
    ∷ entry p 0x0051 0 none static none
    ∷ []

abbrev pub free_three : Platform → List Param
free_three p = free p 7 ∷ free p 8 ∷ free p 9 ∷ []

abbrev pub info_heap : List ℕ → List ℕ → List (List ℕ) → List (List ℕ)
info_heap maker info rest = maker ∷ (0 ∷ []) ∷ info ∷ info ∷ rest

abbrev pub text_heap : List ℕ → List (List ℕ) → List (List ℕ)
text_heap text rest = padded 33 text ∷ take (length text) (padded 33 text) ∷ rest

-- The model, the category and the version in memory.
abbrev pub info_octets : ℕ → ℕ → ℕ → List ℕ
info_octets model category version = le16 model ++ (le16 category ++ le32 version)

-- The parameters of the device. The blocks 2, 4, 6 and 8 of the heap are the local variables that
-- the blocks behind them are copies of.
abbrev pub fresh_store : Platform → ℕ → List ℕ → List ℕ → List ℕ → List ℕ → Store
fresh_store p subs info text maker behind =
    table subs
      (first_four p (label_entry p text ∷ identify_entry p ∷ maker_entry p maker ∷ last_three p))
      (info_heap (maker ++ (0 ∷ behind)) info (
        text_heap text (
          (0 ∷ [])
          ∷ (0 ∷ [])
          ∷ (replicate 32 0 ++ (p.last_ ∷ []))
          ∷ (replicate 32 0 ++ (p.last_ ∷ []))
          ∷ [])))
