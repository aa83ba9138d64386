-- ===== src/Responder/Fresh.antt =====
-- A fresh device that registers the parameters of discovery.
use esp_dmx.Prelude.{
  ℕ, suc, ◌≡◌, refl, true, false, Bool, Option, none, some, List, [], ◌∷◌, arith, ◌>>=◌,
}
use esp_dmx.Format.{format_is_valid}
use esp_dmx.Parameter.{
  Param, Store, null, dynamic, static, find_device, find_param, find_slot, device_get, get_entry,
  add, add_at, put_device,
}
use esp_dmx.Parameter.Access.{get_data, parameter_copy}
use esp_dmx.Parameter.Callback.{definition_get, callback_set}
use esp_dmx.Responder.{is_muted}
use esp_dmx.Responder.Mute.{HasMute}
use esp_dmx.Responder.Register.{
  definition_set, definition_is_ok, has_handlers, define_added, add_mute,
  register_disc_unique_branch, register_disc_mute, register_disc_un_mute,
}

abbrev pub empty_param : Param
empty_param = record {
  pid = 0;
  size = 0;
  data_ = none;
  kind = null;
  definition = none;
  callback = none;
  context = none;
}

-- A device with room for three parameters or more, and none yet.
abbrev pub fresh : ℕ → List Param → Store
fresh n rest = record {
  count_root = suc (suc (suc n));
  count_subs = 0;
  count_staged = 0;
  root = record { num = 0; params = empty_param ∷ empty_param ∷ empty_param ∷ rest };
  subs = [];
  heap = [];
}

-- The three registrations in the order of `dmx_driver_install`, without callbacks.
unfoldable pub register_discovery : Store → ℕ → ℕ → ℕ → Option (Bool × Store)
register_discovery s a b c = register_disc_unique_branch true s a none none >>= λ (_, s1).
    register_disc_mute true s1 b none none >>= λ (_, s2). register_disc_un_mute true s2 c none none

abbrev defined : ℕ → ℕ → ℕ → Param
defined pid size address = record empty_param { pid = pid; size = size; definition = some address }

abbrev with_discovery : ℕ → List Param → ℕ → ℕ → ℕ → Store
with_discovery n rest a b c = record (fresh n rest) {
  root = record {
    num = 0;
    params =
        record (defined 1 0 a) { kind = static }
        ∷ record (defined 2 1 b) { kind = dynamic; data_ = some 0 }
        ∷ record (defined 3 1 c) { kind = static; data_ = some 0 }
        ∷ rest;
  };
  heap = (0 ∷ []) ∷ [];
}

registers :
    (n : ℕ) (rest : List Param) (a b c : ℕ)
    → find_param n 3 rest 3 ≡ some none
    → register_discovery (fresh n rest) a b c ≡ some (true, with_discovery n rest a b c)
unfolding register_discovery register_disc_unique_branch register_disc_mute register_disc_un_mute
    add add_at device_get find_device find_slot define_added definition_set definition_is_ok
    has_handlers get_entry find_param callback_set add_mute get_data format_is_valid
    esp_dmx.Format.check put_device
registers n rest a b c e = rw e refl

with_discovery-HasMute :
    (n : ℕ) (rest : List Param) (a b c : ℕ) → HasMute (with_discovery n rest a b c)
unfolding find_device find_param
with_discovery-HasMute n rest a b c = record {
  i = 1;
  j = 2;
  b = 0;
  device = (with_discovery n rest a b c).root;
  mute = record (defined 2 1 b) { kind = dynamic; data_ = some 0 };
  un_mute = record (defined 3 1 c) { kind = static; data_ = some 0 };
  block = 0 ∷ [];
  has_mute = record {
    num_fits = omega arith;
    pid_pos = omega arith;
    device_found = refl;
    param_found = refl;
    param_at = refl;
    pid_is = refl;
    data_at = refl;
    block_at = refl;
    block_length = omega arith;
  };
  has_un_mute = record {
    num_fits = omega arith;
    pid_pos = omega arith;
    device_found = refl;
    param_found = refl;
    param_at = refl;
    pid_is = refl;
    data_at = refl;
    block_at = refl;
    block_length = omega arith;
  };
  mute_size = refl;
  un_mute_size = refl;
}

-- On a fresh device with room for three parameters, of which none has the PID of DISC_UN_MUTE, the
-- three registrations of discovery succeed: the device then has DISC_MUTE and DISC_UN_MUTE, which
-- share an octet of data, it is not muted, and DISC_UNIQUE_BRANCH has the definition it was given.
pub register_discovery-HasMute :
    (n : ℕ) (rest : List Param) (a b c : ℕ)
    → find_param n 3 rest 3 ≡ some none
    → (s : Store) × (register_discovery (fresh n rest) a b c ≡ some (true, s))
      × HasMute s
      × (is_muted s ≡ some false)
      × (definition_get s 0 1 ≡ some (some a))
unfolding is_muted parameter_copy definition_get get_entry device_get find_device find_param
register_discovery-HasMute n rest a b c e = (
  with_discovery n rest a b c,
  registers n rest a b c e,
  with_discovery-HasMute n rest a b c,
  refl,
  refl,
)
