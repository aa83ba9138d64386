-- ===== src/Install/Fresh.antt =====
-- A device without personalities and without a queue, as it is installed and deleted.
use esp_dmx.Prelude.{ℕ, ◌≤◌, ◌≡◌, refl, true, false, none, some, List, [], ◌∷◌, ◌++◌, length}
use esp_dmx.Parameter.{
  Kind, dynamic, static, non_volatile, Param, Store, find_device, find_slot, find_param, device_get,
  get_entry, add, add_at, put_device,
}
use esp_dmx.Parameter.Access.{get_data, parameter_copy}
use esp_dmx.Responder.{is_muted}
use esp_dmx.Sensors.{sensor_get_count, get_sensors}
use esp_dmx.Setup.{get_start_address, get_dmx_start_address, get_dmx_personality}
use esp_dmx.Product.{get_device_info}
use esp_dmx.Supported.Reported.{pids}
use esp_dmx.Product.Label.{AreCharacters}
use esp_dmx.Install.{
  Driver, install, install_allocated, install_parameters, installed_driver, driver_delete, freed,
  freed_devices,
}
use esp_dmx.Install.Parameters.{Platform}
use esp_dmx.Install.Table.{ten, info_octets, fresh_store, IsReady}
use esp_dmx.Install.Registered.{parameters_installed}

abbrev pub installed_pids : List ℕ
installed_pids =
    0x0001 ∷ 0x0002 ∷ 0x0003 ∷ 0x0060 ∷ 0x00c0 ∷ 0x1000 ∷ 0x0081 ∷ 0x0082 ∷ 0x0050 ∷ 0x0051 ∷ []

-- `dmx_driver_install` without personalities and without a queue, with room for ten parameters, two
-- labels of up to 32 characters, and memory for all of it, returns true. The driver then has ten
-- parameters, those of discovery first, it is not muted, has no start address, and
-- `rdm_get_device_info` writes the model, the category and the version of the configuration.
pub install-fresh :
    (p : Platform) (subs model category version : ℕ) (text rest maker behind : List ℕ)
    → IsReady p
    → AreCharacters text
    → length text ≤ 32
    → AreCharacters maker
    → length maker ≤ 32
    → (d : Driver) × (install p
          (ten subs model category version (text ++ (0 ∷ rest)))
          none
          0
          ((maker ++ (0 ∷ behind)) ∷ [])
        ≡ some (some d))
      × (pids d.parameters.root.params ≡ installed_pids)
      × (is_muted d.parameters ≡ some false)
      × (get_start_address d.parameters ≡ some 0xffff)
      × (get_device_info d.parameters (0 ∷ 0 ∷ [])
          ≡ some (
            19,
            (0 ∷ 0 ∷ info_octets model category version)
                ++ (0 ∷ 0 ∷ 0 ∷ 0 ∷ 0xff ∷ 0xff ∷ 0 ∷ 0 ∷ 0 ∷ []),
          ))
unfolding install install_allocated is_muted parameter_copy get_start_address get_dmx_start_address
    get_device_info get_data get_entry device_get find_device find_param get_dmx_personality
    sensor_get_count get_sensors esp_dmx.Parameter.sub_device_get_count
install-fresh p subs model category version text rest maker behind ready c le c' le' = (
  installed_driver p (fresh_store p subs (info_octets model category version) text maker behind),
  rw
      (
        parameters_installed p subs model category version text rest maker behind ready c le c' le',
        ready.driver_memory,
        ready.mutex_memory,
        ready.uart_ready,
        ready.timer_ready,
      )
      refl,
  refl,
  refl,
  refl,
  refl,
)

-- `dmx_driver_delete` of that driver frees the data of three parameters; that of IDENTIFY_DEVICE and
-- of DEVICE_LABEL, which was allocated too, it does not free.
pub driver_delete-fresh :
    (p : Platform) (subs model category version : ℕ) (text rest maker behind : List ℕ)
    → IsReady p
    → AreCharacters text
    → length text ≤ 32
    → AreCharacters maker
    → length maker ≤ 32
    → (s : Store) × (install_parameters p
          (ten subs model category version (text ++ (0 ∷ rest)))
          none
          0
          ((maker ++ (0 ∷ behind)) ∷ [])
        ≡ some s)
      × (driver_delete true s ≡ some (some (some 1 ∷ some 3 ∷ some 5 ∷ [])))
      × (get_data s 0 0x1000 ≡ some (some 7))
      × (get_data s 0 0x0082 ≡ some (some 9))
unfolding driver_delete freed_devices freed get_data get_entry device_get find_device find_param
driver_delete-fresh p subs model category version text rest maker behind ready c le c' le' = (
  fresh_store p subs (info_octets model category version) text maker behind,
  parameters_installed p subs model category version text rest maker behind ready c le c' le',
  refl,
  refl,
  refl,
)
