-- ===== src/Install/Registered.antt =====
-- The registrations of such an installation, one after the other.
use esp_dmx.Prelude.{
  ℕ, ◌≤◌, ◌≡◌, refl, ap, ◌∙◌, ◌>>=◌, true, false, none, some, List, [], ◌∷◌, ◌++◌, arith, ltb,
  length,
}
use esp_dmx.Format.{strnlen}
use esp_dmx.Parameter.{Store, find_slot, find_param, device_get, get_entry, add, add_at}
use esp_dmx.Parameter.Access.{exists_, get_data}
use esp_dmx.Parameter.Callback.{callback_set}
use esp_dmx.Responder.{is_muted}
use esp_dmx.Responder.Register.{
  register_disc_unique_branch, register_disc_mute, register_disc_un_mute,
}
use esp_dmx.Control.{register_identify_device}
use esp_dmx.Supported.Register.{register_supported_parameters, register_parameter_description}
use esp_dmx.Product.Register.{
  register_device_info, register_software_version_label, register_manufacturer_label,
  register_device_label,
}
use esp_dmx.Setup.{get_start_address, get_dmx_start_address, get_dmx_personality}
use esp_dmx.Product.{get_device_info}
use esp_dmx.Supported.{le32, copied_text}
use esp_dmx.Product.Label.{AreCharacters, padded, length-padded, strnlen-text, copied_text-text}
use esp_dmx.Install.{install_parameters, entries, clear_pids}
use esp_dmx.Install.Parameters.{Platform, Step, register_each, default_parameters}
use esp_dmx.Install.Sequence.{register_one, register_each-append}
use esp_dmx.Install.Table.{
  ten, table, free, first_four, label_entry, identify_entry, maker_entry, free_three, info_heap,
  text_heap, info_octets, fresh_store, IsReady,
}

module _ (p : Platform) (subs model category version : ℕ) (text rest maker behind : List ℕ) where
  abbrev block : List ℕ
  block = maker ++ (0 ∷ behind)

  abbrev store_1 : Store
  store_1 =
      table subs (first_four p (free p 4 ∷ free p 5 ∷ free p 6 ∷ free_three p))
        (info_heap block (info_octets model category version) [])

  abbrev store_2 : Store
  store_2 =
      table subs (first_four p (label_entry p text ∷ free p 5 ∷ free p 6 ∷ free_three p))
        (info_heap block (info_octets model category version) (text_heap text []))

  abbrev store_3 : Store
  store_3 =
      table subs (first_four p (label_entry p text ∷ identify_entry p ∷ free p 6 ∷ free_three p)) (
        info_heap block (info_octets model category version)
          (text_heap text ((0 ∷ []) ∷ (0 ∷ []) ∷ [])))

  abbrev store_4 : Store
  store_4 =
      table subs
        (first_four p (label_entry p text ∷ identify_entry p ∷ maker_entry p maker ∷ free_three p))
        (info_heap block (info_octets model category version)
          (text_heap text ((0 ∷ []) ∷ (0 ∷ []) ∷ [])))

  label_registered :
      AreCharacters text
      → length text ≤ 32
      → register_software_version_label true store_1
          (some (text ++ (0 ∷ rest)))
          (p.address 0x00c0)
          none
          none
        ≡ some (true, store_2)
  unfolding find_slot find_param device_get get_entry add add_at get_data callback_set
      esp_dmx.Responder.Register.define_added esp_dmx.Responder.Register.definition_set
      esp_dmx.Responder.Register.definition_is_ok esp_dmx.Responder.Register.has_handlers
      esp_dmx.Format.format_is_valid esp_dmx.Setup.Register.add_local
      esp_dmx.Product.Register.register_software_version_label
      esp_dmx.Product.Register.register_text
  label_registered c le =
      rw
        (
          strnlen-text 33 text rest c (omega arith),
          copied_text-text 33 text rest c (omega arith),
          short,
          enough,
        )
        refl
    where
      short : ltb (length text) 33 ≡ true
      short = ground arith

      enough : ltb (length (padded 33 text)) (length text) ≡ false
      enough = let l = length-padded 33 text (omega arith) in ground arith

  maker_registered :
      AreCharacters maker
      → length maker ≤ 32
      → register_manufacturer_label true store_3 (some 0) (p.address 0x0081) none none
        ≡ some (true, store_4)
  unfolding find_slot find_param device_get get_entry add add_at get_data callback_set
      esp_dmx.Responder.Register.define_added esp_dmx.Responder.Register.definition_set
      esp_dmx.Responder.Register.definition_is_ok esp_dmx.Responder.Register.has_handlers
      esp_dmx.Format.format_is_valid esp_dmx.Product.Register.register_manufacturer_label
  maker_registered c le = rw (strnlen-text 33 maker behind c (omega arith)) refl

  abbrev firsts : List Step
  firsts =
      (λ s. register_disc_unique_branch true s (p.address 0x0001) none none)
      ∷ (λ s. register_disc_mute true s (p.address 0x0002) none none)
      ∷ (λ s. register_disc_un_mute true s (p.address 0x0003) none none)
      ∷ (λ s. register_device_info true s model category version (p.address 0x0060) none none)
      ∷ []

  abbrev label_step : Step
  label_step s =
      register_software_version_label true s (some (text ++ (0 ∷ rest))) (p.address 0x00c0) none
        none

  abbrev identify_step : Step
  identify_step s = register_identify_device true s (p.address 0x1000) (some p.identify) none

  abbrev maker_step : Step
  maker_step s = register_manufacturer_label true s (some 0) (p.address 0x0081) none none

  abbrev lasts : List Step
  lasts =
      (λ s. register_device_label true s (some (0 ∷ [])) p.last_ (p.address 0x0082) none none)
      ∷ (λ s. register_supported_parameters true s (p.address 0x0050) none none)
      ∷ (λ s. register_parameter_description true s (p.address 0x0051) none none)
      ∷ []

  abbrev blank : Store
  blank =
      table subs
        (free p 0 ∷ free p 1 ∷ free p 2 ∷ free p 3 ∷ free p 4 ∷ free p 5 ∷ free p 6 ∷ free_three p)
        (block ∷ [])

  first_registered : register_each firsts blank ≡ some store_1
  unfolding register_each find_slot find_param device_get get_entry add add_at get_data callback_set
      esp_dmx.Responder.Register.register_disc_unique_branch
      esp_dmx.Responder.Register.register_disc_mute esp_dmx.Responder.Register.register_disc_un_mute
      esp_dmx.Responder.Register.add_mute esp_dmx.Responder.Register.define_added
      esp_dmx.Responder.Register.definition_set esp_dmx.Responder.Register.definition_is_ok
      esp_dmx.Responder.Register.has_handlers esp_dmx.Format.format_is_valid
      esp_dmx.Setup.Register.add_local esp_dmx.Product.Register.register_device_info
  first_registered = refl

  identify_registered : identify_step store_2 ≡ some (true, store_3)
  unfolding find_slot find_param device_get get_entry add add_at callback_set
      esp_dmx.Responder.Register.define_added esp_dmx.Responder.Register.definition_set
      esp_dmx.Responder.Register.definition_is_ok esp_dmx.Responder.Register.has_handlers
      esp_dmx.Format.format_is_valid esp_dmx.Control.register_identify_device
      esp_dmx.Setup.Register.add_local
  identify_registered = refl

  last_registered :
      register_each lasts store_4
      ≡ some (fresh_store p subs (info_octets model category version) text maker behind)
  unfolding register_each find_slot find_param device_get get_entry add add_at exists_ callback_set
      esp_dmx.Responder.Register.define_added esp_dmx.Responder.Register.definition_set
      esp_dmx.Responder.Register.definition_is_ok esp_dmx.Responder.Register.has_handlers
      esp_dmx.Format.format_is_valid esp_dmx.Setup.Register.add_local esp_dmx.Supported.copied_text
      esp_dmx.Supported.Register.register_supported_parameters
      esp_dmx.Supported.Register.register_parameter_description
      esp_dmx.Product.Register.register_device_label
  last_registered = refl

  all_registered :
      AreCharacters text
      → length text ≤ 32
      → AreCharacters maker
      → length maker ≤ 32
      → register_each
          (default_parameters
            (record p { memory = true; manufacturer = some 0 })
            (ten subs model category version (text ++ (0 ∷ rest)))
            false
            none
            0)
          blank
        ≡ some (fresh_store p subs (info_octets model category version) text maker behind)
  unfolding default_parameters
  all_registered c le c' le' =
      register_each-append firsts (label_step ∷ identify_step ∷ maker_step ∷ lasts) blank
      ∙ ap (λ o. o >>= register_each (label_step ∷ identify_step ∷ maker_step ∷ lasts))
          first_registered
      ∙ register_one label_step (identify_step ∷ maker_step ∷ lasts) store_1 store_2 true _
          (label_registered c le)
          (register_one identify_step (maker_step ∷ lasts) store_2 store_3 true _
            identify_registered
            (register_one maker_step lasts store_3 store_4 true _ (maker_registered c' le')
              last_registered))

-- The parameters of the fresh driver.
pub parameters_installed :
    (p : Platform) (subs model category version : ℕ) (text rest maker behind : List ℕ)
    → IsReady p
    → AreCharacters text
    → length text ≤ 32
    → AreCharacters maker
    → length maker ≤ 32
    → install_parameters p
        (ten subs model category version (text ++ (0 ∷ rest)))
        none
        0
        ((maker ++ (0 ∷ behind)) ∷ [])
      ≡ some (fresh_store p subs (info_octets model category version) text maker behind)
unfolding install_parameters entries clear_pids
parameters_installed p subs model category version text rest maker behind ready c le c' le' =
    ap
      (λ q.
        install_parameters q (ten subs model category version (text ++ (0 ∷ rest))) none 0
          ((maker ++ (0 ∷ behind)) ∷ []))
      (λ i. record p { memory = ready.memory i; manufacturer = ready.manufacturer i })
    ∙ all_registered p subs model category version text rest maker behind c le c' le'
