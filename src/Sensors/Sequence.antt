-- ===== src/Sensors/Sequence.antt =====
-- Sequences of changes of a device's sensors.
use esp_dmx.Prelude.{
  ℕ, ◌+◌, ◌<◌, ◌≡◌, refl, ap, ◌∙◌, sym, true, Option, some, List, [], ◌∷◌, arith, ltb, length,
  get_elem?, take, drop, ◌>>=◌,
}
use mathlib.Core.Path.{subst}
use esp_dmx.Parameter.{Store}
use esp_dmx.Parameter.RoundTrip.{get_data-HasData}
use esp_dmx.Sensors.{get_sensors, sensor_get_count, sensor_get, value_size, value_at, read_octets}
use esp_dmx.Sensors.Values.{Sensor, value_bytes, update, length-update, table, read_octets-table}
use esp_dmx.Sensors.Refine.{HasSensors, Step, run, effect, run-refines}

-- A sequence of changes of sensors.
unfoldable pub run_all : List (Step × ℕ) → Store → ℕ → Option Store
run_all [] s n = some s
run_all ((a, k) ∷ as_) s n = run a s n k >>= λ (done, s'). run_all as_ s' n

abbrev pub effects : List (Step × ℕ) → List Sensor → List Sensor
effects [] xs = xs
effects ((a, k) ∷ as_) xs = effects as_ (update xs k (effect a))

-- Each sensor that is changed is one of `m`.
abbrev pub AreSensors : List (Step × ℕ) → ℕ → Type 0
AreSensors [] m = Unit {0}
AreSensors ((a, k) ∷ as_) m = (k < m) × AreSensors as_ m

length-effects :
    (steps : List (Step × ℕ)) (xs : List Sensor) → length (effects steps xs) ≡ length xs
length-effects [] xs = refl
length-effects ((a, k) ∷ steps) xs =
    length-effects steps (update xs k (effect a)) ∙ length-update xs k (effect a)

run_all-HasSensors :
    (steps : List (Step × ℕ)) {s : Store} {n : ℕ} {xs : List Sensor}
    → HasSensors s n xs
    → AreSensors steps (length xs)
    → (s' : Store) × (run_all steps s n ≡ some s') × HasSensors s' n (effects steps xs)
unfolding run_all
run_all-HasSensors [] {s} h are = (s, refl, h)
run_all-HasSensors ((a, k) ∷ steps) {s} {n} {xs} h (lt, are) =
    let (s1, e, h1) = run-refines a k h lt in
    let (s2, e2, h2) =
      run_all-HasSensors steps h1
        (subst (AreSensors steps) (sym (length-update xs k (effect a))) are) in
    (s2, rw (e, e2) refl, h2)

value_read : (x : Sensor) (rest : List ℕ) → take 9 (drop 0 (value_bytes x rest)) ≡ value_bytes x []
value_read x rest = refl

pub value_octets :
    (xs : List Sensor) (k : ℕ) (x : Sensor)
    → k < length xs
    → get_elem? xs k ≡ some x
    → read_octets (value_at k) value_size (table (length xs) xs) ≡ some (value_bytes x [])
value_octets xs k x lt e =
    let first : value_at k ≡ value_at k + 0 = omega arith in
    ap (λ i. read_octets i 9 (table (length xs) xs)) first
    ∙ read_octets-table (length xs) xs k 0 9 x (value_bytes x []) e lt (omega arith) (value_read x)

pub sensor_get-HasSensors :
    {s : Store} {n : ℕ} {xs : List Sensor} (k : ℕ) (x : Sensor)
    → HasSensors s n xs
    → k < length xs
    → get_elem? xs k ≡ some x
    → sensor_get s n k ≡ some (9, some (value_bytes x []))
unfolding sensor_get sensor_get_count get_sensors
sensor_get-HasSensors {s} {n} {xs} k x h lt e =
    rw (small, get_data-HasData h.data_, h.data_.block_at, within, value_octets xs k x lt e) refl
  where
    small : ltb n 513 ≡ true
    small = let fits = h.data_.num_fits in ground arith

    within : ltb k (length xs) ≡ true
    within = ground arith

-- The sensors of a device are a list: any sequence of `rdm_sensor_set`, `rdm_sensor_record` and
-- `rdm_sensor_reset` of single sensors below the count succeeds, and `rdm_sensor_get` then returns
-- for each sensor the nine octets of the list's element after the same changes of the list's
-- elements.
pub sensors-refine :
    {s : Store} {n : ℕ} {xs : List Sensor} (steps : List (Step × ℕ)) (k : ℕ) (x : Sensor)
    → HasSensors s n xs
    → AreSensors steps (length xs)
    → k < length xs
    → get_elem? (effects steps xs) k ≡ some x
    → (s' : Store) × (run_all steps s n ≡ some s')
      × (sensor_get s' n k ≡ some (9, some (value_bytes x [])))
      × HasSensors s' n (effects steps xs)
sensors-refine {s} {n} {xs} steps k x h are lt e =
    let (s', r, h') = run_all-HasSensors steps h are in
    (s', r, sensor_get-HasSensors k x h' (omega (arith, lt, length-effects steps xs)) e, h')
