-- ===== src/Install/Examples.antt =====
-- The installation of a driver with two short labels.
use esp_dmx.Prelude.{ℕ, ◌≡◌, ◌+◌, refl, true, false, none, some, List, [], ◌∷◌, ◌++◌, arith}
use esp_dmx.Parameter.{Store}
use esp_dmx.Parameter.Access.{get_data}
use esp_dmx.Responder.{is_muted}
use esp_dmx.Responder.Fresh.{empty_param}
use esp_dmx.Setup.{get_start_address}
use esp_dmx.Supported.Reported.{pids}
use esp_dmx.Product.{get_device_info}
use esp_dmx.Install.{Driver, install, install_parameters, driver_delete}
use esp_dmx.Install.Parameters.{Platform}
use esp_dmx.Install.Table.{ten, IsReady, info_octets}
use esp_dmx.Install.Fresh.{installed_pids, install-fresh, driver_delete-fresh}

abbrev platform : Platform
platform = record {
  dmx_num = 1;
  man_id = 0x05e0;
  dev_id = 0x12345678;
  driver_memory = true;
  mutex_memory = true;
  memory = true;
  address = λ pid. pid + 1000;
  identify = 77;
  saved = λ pid. none;
  last_ = 0xaa;
  manufacturer = some 0;
  uart_ready = true;
  timer_ready = true;
  old_param = λ i. empty_param;
}

ready : IsReady platform
ready = record {
  driver_memory = refl;
  mutex_memory = refl;
  memory = refl;
  manufacturer = refl;
  uart_ready = refl;
  timer_ready = refl;
}

-- "v1" and "Me"
abbrev version_label : List ℕ
version_label = b'v' ∷ b'1' ∷ []

abbrev maker : List ℕ
maker = b'M' ∷ b'e' ∷ []

install-fresh_example :
    (d : Driver) × (install platform
        (ten 0 9 1 2 (version_label ++ (0 ∷ [])))
        none
        0
        ((maker ++ (0 ∷ [])) ∷ [])
      ≡ some (some d))
    × (pids d.parameters.root.params ≡ installed_pids)
    × (is_muted d.parameters ≡ some false)
    × (get_start_address d.parameters ≡ some 0xffff)
    × (get_device_info d.parameters (0 ∷ 0 ∷ [])
        ≡ some (19, (0 ∷ 0 ∷ info_octets 9 1 2) ++ (0 ∷ 0 ∷ 0 ∷ 0 ∷ 0xff ∷ 0xff ∷ 0 ∷ 0 ∷ 0 ∷ [])))
install-fresh_example =
    install-fresh platform 0 9 1 2 version_label [] maker [] ready (omega arith, (omega arith, tt))
      (omega arith) (omega arith, (omega arith, tt)) (omega arith)

driver_delete-fresh_example :
    (s : Store) × (install_parameters platform
        (ten 0 9 1 2 (version_label ++ (0 ∷ [])))
        none
        0
        ((maker ++ (0 ∷ [])) ∷ [])
      ≡ some s)
    × (driver_delete true s ≡ some (some (some 1 ∷ some 3 ∷ some 5 ∷ [])))
    × (get_data s 0 0x1000 ≡ some (some 7))
    × (get_data s 0 0x0082 ≡ some (some 9))
driver_delete-fresh_example =
    driver_delete-fresh platform 0 9 1 2 version_label [] maker [] ready
      (omega arith, (omega arith, tt)) (omega arith) (omega arith, (omega arith, tt)) (omega arith)
