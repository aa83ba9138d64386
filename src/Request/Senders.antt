-- ===== src/Request/Senders.antt =====
-- The functions that send one request: src/rdm/controller/device_control.c,
-- src/rdm/controller/dmx_setup.c, src/rdm/controller/product_info.c and, for discovery,
-- src/rdm/controller/discovery.c. The pointers that they are given are not null.
use esp_dmx.Prelude.{
  ℕ, ◌≡◌, refl, Bool, true, not, ◌&&◌, ◌||◌, Option, some, none, List, [], ◌∷◌, ◌++◌, ltb, ◌==◌,
  if◌then◌else◌,
}
use esp_dmx.Uid.{Uid, uid_is_broadcast, uid_broadcast_all}
use esp_dmx.Format.{format_is_valid}
use esp_dmx.Packet.{
  sub_device_max, sub_device_all, disc_command, set_command, uid_bytes, le16, cc_is_valid,
  cc_is_request,
}
use esp_dmx.Send.{Driver}
use esp_dmx.Request.{Request, World, Outcome, request_is_ok, send_request}
use esp_dmx.Request.Answered.{get_request}

-- A failed check.
abbrev refused : Option (List ℕ) → Driver → Outcome
refused memory d = record { returned = 0; memory = memory; rdm_ack = none; driver = d }

abbrev fits_one : ℕ → Bool
fits_one sub_device = ltb sub_device sub_device_max

abbrev fits_set : ℕ → Bool
fits_set sub_device = ltb sub_device sub_device_max || sub_device == sub_device_all

abbrev pub set_request : Uid → ℕ → ℕ → List ℕ → List ℕ → ℕ → Request
set_request dest sub_device pid format pd pdl = record {
  dest_uid = dest;
  sub_device = sub_device;
  cc = set_command;
  pid = pid;
  format = some format;
  pd = some pd;
  pdl = pdl;
}

abbrev pub disc_request : Uid → ℕ → Option (List ℕ) → Option (List ℕ) → ℕ → Request
disc_request dest pid format pd pdl = record {
  dest_uid = dest;
  sub_device = 0;
  cc = disc_command;
  pid = pid;
  format = format;
  pd = pd;
  pdl = pdl;
}

-- `rdm_send_get_identify_device`
unfoldable pub send_get_identify_device : World → Uid → ℕ → List ℕ → Bool → Driver → Option Outcome
send_get_identify_device w dest sub_device memory wanted d =
    if not (uid_is_broadcast dest) && fits_one sub_device
    then send_request w (get_request dest sub_device 0x1000) (some (b'b' ∷ b'$' ∷ [])) 1
        (some memory) wanted d
    else some (refused (some memory) d)

-- `rdm_send_set_identify_device`
unfoldable pub send_set_identify_device : World → Uid → ℕ → ℕ → Bool → Driver → Option Outcome
send_set_identify_device w dest sub_device identify wanted d =
    if fits_set sub_device && (identify == 0 || identify == 1)
    then send_request w (set_request dest sub_device 0x1000 (b'b' ∷ b'$' ∷ []) (identify ∷ []) 1)
        none 0 none wanted d
    else some (refused none d)

-- `rdm_send_get_dmx_start_address`
unfoldable pub send_get_dmx_start_address :
    World → Uid → ℕ → List ℕ → Bool → Driver → Option Outcome
send_get_dmx_start_address w dest sub_device memory wanted d =
    if not (uid_is_broadcast dest) && fits_one sub_device
    then send_request w (get_request dest sub_device 0x00f0) (some (b'w' ∷ b'$' ∷ [])) 2
        (some memory) wanted d
    else some (refused (some memory) d)

-- `rdm_send_set_dmx_start_address`
unfoldable pub send_set_dmx_start_address : World → Uid → ℕ → ℕ → Bool → Driver → Option Outcome
send_set_dmx_start_address w dest sub_device address wanted d =
    if fits_set sub_device && ltb address 513
    then send_request w (set_request dest sub_device 0x00f0 (b'w' ∷ b'$' ∷ []) (le16 address) 2)
        none 0 none wanted d
    else some (refused none d)

-- `rdm_send_get_device_info`, whose struct has 19 octets.
unfoldable pub send_get_device_info : World → Uid → ℕ → List ℕ → Bool → Driver → Option Outcome
send_get_device_info w dest sub_device memory wanted d =
    if not (uid_is_broadcast dest) && fits_one sub_device
    then send_request w (get_request dest sub_device 0x0060)
        (some (
          b'x' ∷ b'0' ∷ b'1' ∷ b'x' ∷ b'0' ∷ b'0' ∷ b'w' ∷ b'w' ∷ b'd' ∷ b'w' ∷ b'b' ∷ b'b' ∷ b'w'
          ∷ b'w' ∷ b'b' ∷ b'$' ∷ []))
        19 (some memory) wanted d
    else some (refused (some memory) d)

-- `rdm_send_get_software_version_label`
unfoldable pub send_get_software_version_label :
    World → Uid → ℕ → List ℕ → ℕ → Bool → Driver → Option Outcome
send_get_software_version_label w dest sub_device memory size wanted d =
    if fits_set sub_device
    then send_request w (get_request dest sub_device 0x00c0) (some (b'a' ∷ b'$' ∷ [])) size
        (some memory) wanted d
    else some (refused (some memory) d)

-- `rdm_send_disc_unique_branch`
unfoldable pub send_disc_unique_branch : World → Uid → Uid → Bool → Driver → Option Outcome
send_disc_unique_branch w lower upper wanted d =
    send_request w
      (disc_request uid_broadcast_all 1 (some (b'u' ∷ b'u' ∷ b'$' ∷ []))
        (some (uid_bytes lower ++ uid_bytes upper)) 12)
      none 0 none wanted d

-- `rdm_send_disc_mute` and `rdm_send_disc_un_mute`. The memory that they read to is not the
-- caller's, but their own variable `mute` and what stands behind it.
unfoldable pub send_disc_mute : World → Uid → List ℕ → Bool → Driver → Option Outcome
send_disc_mute w dest memory wanted d =
    send_request w (disc_request dest 2 none none 0) (some (b'w' ∷ b'v' ∷ [])) 8 (some memory)
      wanted d

unfoldable pub send_disc_un_mute : World → Uid → List ℕ → Bool → Driver → Option Outcome
send_disc_un_mute w dest memory wanted d =
    send_request w (disc_request dest 3 none none 0) (some (b'w' ∷ b'v' ∷ [])) 8 (some memory)
      wanted d

label_valid : format_is_valid (some (b'a' ∷ b'$' ∷ [])) ≡ some true
unfolding format_is_valid esp_dmx.Format.check
label_valid = refl

null_valid : format_is_valid none ≡ some true
unfolding format_is_valid
null_valid = refl

-- `rdm_send_get_software_version_label` lets RDM_SUB_DEVICE_ALL pass its check; then an assertion of
-- `rdm_send_request` fails, whatever the device, the memory and the state of the driver.
pub send_get_software_version_label-all :
    (w : World) (dest : Uid) (memory : List ℕ) (size : ℕ) (wanted : Bool) (d : Driver)
    → send_get_software_version_label w dest 0xffff memory size wanted d ≡ none
unfolding send_get_software_version_label send_request request_is_ok cc_is_valid cc_is_request
send_get_software_version_label-all w dest memory size wanted d = rw (null_valid, label_valid) refl
