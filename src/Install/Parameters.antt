-- ===== src/Install/Parameters.antt =====
-- The parameters that dmx_driver_install registers, and rdm_register_queued_message.
use esp_dmx.Prelude.{
  ℕ, ◌+◌, ◌*◌, Bool, true, false, not, Option, none, some, List, [], ◌∷◌, ◌++◌, ltb, if◌then◌else◌,
  ◌>>=◌,
}
use esp_dmx.Parameter.{Param, Store, dynamic, add}
use esp_dmx.Parameter.Access.{get_data}
use esp_dmx.Responder.{get, custom, Definition}
use esp_dmx.Responder.Register.{
  define_added, no_command, register_disc_unique_branch, register_disc_mute, register_disc_un_mute,
}
use esp_dmx.Sensors.{le16, write_octets, modify}
use esp_dmx.Sensors.Register.{number_format}
use esp_dmx.Control.{register_identify_device}
use esp_dmx.Setup.Register.{
  register_dmx_personality, register_dmx_personality_description, register_dmx_start_address,
}
use esp_dmx.Supported.Register.{register_supported_parameters, register_parameter_description}
use esp_dmx.Product.Register.{
  register_device_info, register_software_version_label, register_manufacturer_label,
  register_device_label,
}

-- `dmx_config_t`, without the interrupt flags.
pub record Config : Type 0 where
  pub root_count : ℕ
  pub sub_count : ℕ
  pub model_id : ℕ
  pub product_category : ℕ
  pub software_version_id : ℕ
  pub software_version_label : Option (List ℕ)
  pub queue_size_max : ℕ

-- What an installation meets: the port, the manufacturer and the device of the UID, whether there
-- is memory, where the definition of a PID stands, the callback for identification, what was saved
-- for a PID, what a character of the stack and the array of parameters held, where the
-- manufacturer's label stands, and whether UART and timer can be initialised.
pub record Platform : Type 0 where
  pub dmx_num : ℕ
  pub man_id : ℕ
  pub dev_id : ℕ
  pub driver_memory : Bool
  pub mutex_memory : Bool
  pub memory : Bool
  pub address : ℕ → ℕ
  pub identify : ℕ
  pub saved : ℕ → Option (List ℕ)
  pub last_ : ℕ
  pub manufacturer : Option ℕ
  pub uart_ready : Bool
  pub timer_ready : Bool
  pub old_param : ℕ → Param

abbrev pub pid_queued_message : ℕ
pid_queued_message = 0x0020

-- The definition of QUEUED_MESSAGE; its handler, which is not modelled, is number 0.
abbrev pub queued_definition : Definition
queued_definition = record {
  pid_cc = get;
  get_ = record {
    handler = some (custom 0);
    request_format = none;
    response_format = some number_format;
  };
  set_command = no_command;
  ds = 0;
  pdl_size = 1;
  max_value = 4;
  min_value = 1;
  default_value = 0;
  units = 0;
  prefix = 0;
  description = none;
}

-- `max_size` is the fourth word of a `rdm_queue_t`.
unfoldable pub queue_added : ℕ → ℕ → Option ℕ → Option ℕ → Bool × Store → Option (Bool × Store)
queue_added max_count address callback context (added, s) =
    if not added
    then some (false, s)
    else (get_data s 0 pid_queued_message >>= λ at. at >>= λ b.
        modify s b (write_octets 6 (le16 max_count)) >>= λ s'.
        define_added pid_queued_message address queued_definition callback context (true, s'))

-- `rdm_register_queued_message`
unfoldable pub register_queued_message :
    Bool → Store → ℕ → ℕ → Option ℕ → Option ℕ → Option (Bool × Store)
register_queued_message memory s max_count address callback context =
    if ltb 0 max_count
    then (add memory s 0 pid_queued_message dynamic none (8 + 2 * max_count) >>= λ x.
        queue_added max_count address callback context x)
    else some (false, s)

-- A registration, whose value is not looked at.
abbrev pub Step : Type 0
Step = Store → Option (Bool × Store)

unfoldable pub register_each : List Step → Store → Option Store
register_each [] s = some s
register_each (f ∷ fs) s = f s >>= λ (done, s'). register_each fs s'

-- The registrations in the order of `dmx_driver_install`.
unfoldable pub default_parameters : Platform → Config → Bool → Option ℕ → ℕ → List Step
default_parameters p c uses_dmx at count =
    ((λ s. register_disc_unique_branch p.memory s (p.address 0x0001) none none)
      ∷ (λ s. register_disc_mute p.memory s (p.address 0x0002) none none)
      ∷ (λ s. register_disc_un_mute p.memory s (p.address 0x0003) none none)
      ∷ (λ s.
          register_device_info p.memory s c.model_id c.product_category c.software_version_id
            (p.address 0x0060) none none)
      ∷ (λ s.
          register_software_version_label p.memory s c.software_version_label (p.address 0x00c0)
            none none)
      ∷ (λ s. register_identify_device p.memory s (p.address 0x1000) (some p.identify) none)
      ∷ [])
    ++ ((if uses_dmx
          then (λ s.
              register_dmx_start_address p.memory s (p.saved 0x00f0) (p.address 0x00f0) none none)
            ∷ []
          else [])
        ++ ((if ltb 0 c.queue_size_max
              then (λ s.
                  register_queued_message p.memory s c.queue_size_max (p.address 0x0020) none none)
                ∷ []
              else [])
            ++ ((λ s.
                  register_manufacturer_label p.memory s p.manufacturer (p.address 0x0081) none
                    none)
                ∷ ((if uses_dmx
                      then (λ s.
                          register_dmx_personality p.memory s (p.saved 0x00e0) count
                            (p.address 0x00e0) none none)
                        ∷ (λ s.
                            register_dmx_personality_description p.memory s at count
                              (p.address 0x00e1) none none)
                        ∷ []
                      else [])
                    ++ ((λ s.
                          register_device_label p.memory s (some (0 ∷ [])) p.last_
                            (p.address 0x0082) none none)
                        ∷ (λ s.
                            register_supported_parameters p.memory s (p.address 0x0050) none none)
                        ∷ (λ s.
                            register_parameter_description p.memory s (p.address 0x0051) none none)
                        ∷ [])))))
