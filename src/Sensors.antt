-- ===== src/Sensors.antt =====
-- The sensors of a device: the functions of src/rdm/responder/sensor_parameter.c that a program
-- calls. `none` is a failed assertion, or an access behind the end of a parameter's data.
pub mod Values
pub mod Refine
pub mod Sequence
pub mod Past
pub mod Handle
pub mod Register
pub mod Registered
pub mod Requests
pub mod Examples
use esp_dmx.Prelude.{
  ℕ, zero, suc, ◌+◌, ◌*◌, ◌/◌, ◌%◌, Bool, true, false, not, ◌&&◌, ◌||◌, Option, none, some, List,
  [], ◌∷◌, ltb, ◌==◌, if◌then◌else◌, ◌>>=◌, length, get_elem?, set, take, drop, replicate, write_at,
}
use esp_dmx.Packet.{sub_device_max, sub_device_all}
use esp_dmx.Parameter.{Store}
use esp_dmx.Parameter.Access.{get_data}

abbrev pub pid_sensor_definition : ℕ
pid_sensor_definition = 0x0200

abbrev pub pid_sensor_value : ℕ
pid_sensor_value = 0x0201

abbrev pub sensor_num_max : ℕ
sensor_num_max = 0xff

-- The size of a `rdm_sensor_value_t` and of a `rdm_sensor_definition_t`.
abbrev pub value_size : ℕ
value_size = 9

abbrev pub definition_size : ℕ
definition_size = 46

-- An int16_t in memory.
abbrev pub le16 : ℕ → List ℕ
le16 v = (v % 256) ∷ (v / 256 % 256) ∷ []

-- Accesses to `k` octets, or as many as are written, at octet `i` of a block.
abbrev pub read_octets : ℕ → ℕ → List ℕ → Option (List ℕ)
read_octets i k block = if ltb (length block) (i + k) then none else some (take k (drop i block))

abbrev pub write_octets : ℕ → List ℕ → List ℕ → Option (List ℕ)
write_octets i source block =
    if ltb (length block) (i + length source) then none else some (write_at i source block)

-- A change of the block that a pointer points to.
abbrev pub modify : Store → ℕ → (List ℕ → Option (List ℕ)) → Option Store
modify s b f = get_elem? s.heap b >>= λ block.
    f block >>= λ block'. some (record s { heap = set s.heap b block' })

-- `rdm_get_sensors`
unfoldable pub get_sensors : Store → ℕ → Option (Option ℕ)
get_sensors s n = get_data s n pid_sensor_value

-- The first octet of a `rdm_sensors_t`, `sensor_count`.
abbrev pub count_at : Store → ℕ → Option ℕ
count_at s b = get_elem? s.heap b >>= λ block. get_elem? block 0

abbrev pub count_found : Store → Option ℕ → Option ℕ
count_found s none = some 0
count_found s (some b) = count_at s b

-- `rdm_sensor_get_count`
unfoldable pub sensor_get_count : Store → ℕ → Option ℕ
sensor_get_count s n = if ltb n sub_device_max then (get_sensors s n >>= count_found s) else some 0

-- Where `sensor_value[k]` lies in a `rdm_sensors_t`.
abbrev pub value_at : ℕ → ℕ
value_at k = k * value_size + 1

abbrev pub value_found : Store → ℕ → Option ℕ → Option (ℕ × Option (List ℕ))
value_found s k none = some (0, none)
value_found s k (some b) = get_elem? s.heap b >>= λ block.
    read_octets (value_at k) value_size block >>= λ value. some (value_size, some value)

-- `rdm_sensor_get` with a destination: the value returned, and what is copied to it.
unfoldable pub sensor_get : Store → ℕ → ℕ → Option (ℕ × Option (List ℕ))
sensor_get s n k =
    if ltb n sub_device_max
    then (sensor_get_count s n >>= λ count.
        if ltb k count then (get_sensors s n >>= value_found s k) else some (0, none))
    else some (0, none)

-- `sensor_value[k].present_value = v`
unfoldable pub put_present : ℕ → ℕ → List ℕ → Option (List ℕ)
put_present v k block = write_octets (value_at k + 1) (le16 v) block

-- `recorded_value = present_value`
unfoldable pub record_one : ℕ → List ℕ → Option (List ℕ)
record_one k block =
    read_octets (value_at k + 1) 2 block >>= λ v. write_octets (value_at k + 7) v block

-- The four values set to 0, which lie side by side.
unfoldable pub reset_one : ℕ → List ℕ → Option (List ℕ)
reset_one k block = write_octets (value_at k + 1) (replicate 8 0) block

-- A loop over `n` sensors from `k` on, and one from `k` down to 0.
unfoldable pub each_up : (ℕ → List ℕ → Option (List ℕ)) → ℕ → ℕ → List ℕ → Option (List ℕ)
each_up f zero k block = some block
each_up f (suc n) k block = f k block >>= λ block'. each_up f n (k + 1) block'

unfoldable pub each_down : (ℕ → List ℕ → Option (List ℕ)) → ℕ → List ℕ → Option (List ℕ)
each_down f zero block = f 0 block
each_down f (suc k) block = f (suc k) block >>= λ block'. each_down f k block'

-- The test of the sensor's number, and what is done to one sensor or to all.
abbrev pub change_found :
    Store
    → ℕ
    → (List ℕ → Option (List ℕ))
    → (ℕ → List ℕ → Option (List ℕ))
    → Option ℕ
    → Option (Bool × Store)
change_found s k one all none = some (false, s)
change_found s k one all (some b) = count_at s b >>= λ count.
    if ltb count k && not (k == sensor_num_max)
    then some (false, s)
    else (modify s b (if k == sensor_num_max then all count else one) >>= λ s'. some (true, s'))

unfoldable pub change :
    Store
    → ℕ
    → ℕ
    → (List ℕ → Option (List ℕ))
    → (ℕ → List ℕ → Option (List ℕ))
    → Option (Bool × Store)
change s n k one all =
    if ltb n sub_device_max || n == sub_device_all
    then (get_sensors s n >>= change_found s k one all)
    else some (false, s)

-- `rdm_sensor_set`
unfoldable pub sensor_set : Store → ℕ → ℕ → ℕ → Option (Bool × Store)
sensor_set s n k v = change s n k (put_present v k) (λ count. each_up (put_present v) count 0)

-- `rdm_sensor_record`, whose loop starts at the count.
unfoldable pub sensor_record : Store → ℕ → ℕ → Option (Bool × Store)
sensor_record s n k = change s n k (record_one k) (each_down record_one)

-- `rdm_sensor_reset`
unfoldable pub sensor_reset : Store → ℕ → ℕ → Option (Bool × Store)
sensor_reset s n k = change s n k (reset_one k) (each_down reset_one)

-- The octet `num` of the definition `k` in a block.
abbrev pub num_at : Store → ℕ → ℕ → Option ℕ
num_at s b k = get_elem? s.heap b >>= λ block. get_elem? block (k * definition_size)

abbrev pub define_at : Store → ℕ → List ℕ → Option ℕ → Option (Bool × Store)
define_at s k definition none = some (false, s)
define_at s k definition (some b) = num_at s b k >>= λ num.
    if not (num == 0xff)
    then some (false, s)
    else (modify s b (write_octets (k * definition_size) definition) >>= λ s'. some (true, s'))

abbrev pub define_checked : Store → ℕ → List ℕ → Option ℕ → Option (Bool × Store)
define_checked s k definition none = some (false, s)
define_checked s k definition (some b) = count_at s b >>= λ count.
    if ltb count k
    then some (false, s)
    else (get_data s 0 pid_sensor_definition >>= define_at s k definition)

-- `rdm_sensor_definition_add` of a definition with the number `k` that is in memory.
unfoldable pub sensor_definition_add : Store → ℕ → ℕ → List ℕ → Option (Bool × Store)
sensor_definition_add s n k definition =
    if ltb n sub_device_max || n == sub_device_all
    then (get_sensors s n >>= define_checked s k definition)
    else some (false, s)

abbrev pub defined_at : Store → ℕ → Option ℕ → Option (Option (ℕ × ℕ))
defined_at s k none = some none
defined_at s k (some b) =
    num_at s b k >>= λ num. some (if num == 0xff then none else some (b, k * definition_size))

abbrev pub defined_checked : Store → ℕ → Option ℕ → Option (Option (ℕ × ℕ))
defined_checked s k none = some none
defined_checked s k (some b) = count_at s b >>= λ count.
    if ltb count k then some none else (get_data s 0 pid_sensor_definition >>= defined_at s k)

-- `rdm_sensor_definition_get`: a null pointer, or a block and an offset in it.
unfoldable pub sensor_definition_get : Store → ℕ → ℕ → Option (Option (ℕ × ℕ))
sensor_definition_get s n k =
    if ltb n sub_device_max || n == sub_device_all
    then (get_sensors s n >>= defined_checked s k)
    else some none
