-- ===== src/Sensors/Past.antt =====
-- The accesses of Sensors behind the last sensor.
use esp_dmx.Prelude.{
  ℕ, zero, suc, ◌+◌, ◌<◌, ◌≡◌, refl, true, false, not, ◌&&◌, ◌||◌, none, List, arith, ltb, ◌==◌,
  length, if◌then◌else◌, Option,
}
use esp_dmx.Parameter.{Store}
use esp_dmx.Parameter.RoundTrip.{get_data-HasData}
use esp_dmx.Sensors.{
  get_sensors, value_at, put_present, record_one, reset_one, each_down, change, sensor_set,
  sensor_record, sensor_reset,
}
use esp_dmx.Sensors.Values.{Sensor, length-values_bytes, table}
use esp_dmx.Sensors.Refine.{HasSensors, Step, present_, record_, reset_, run}

put_present-past :
    (v : ℕ) (xs : List Sensor) → put_present v (length xs) (table (length xs) xs) ≡ none
unfolding put_present
put_present-past v xs = rw outside refl
  where
    outside : ltb (length (table (length xs) xs)) (value_at (length xs) + 1 + 2) ≡ true
    outside = let l = length-values_bytes xs in ground arith

record_one-past : (xs : List Sensor) → record_one (length xs) (table (length xs) xs) ≡ none
unfolding record_one
record_one-past xs = rw outside refl
  where
    outside : ltb (length (table (length xs) xs)) (value_at (length xs) + 1 + 2) ≡ true
    outside = let l = length-values_bytes xs in ground arith

reset_one-past : (xs : List Sensor) → reset_one (length xs) (table (length xs) xs) ≡ none
unfolding reset_one
reset_one-past xs = rw outside refl
  where
    outside : ltb (length (table (length xs) xs)) (value_at (length xs) + 1 + 8) ≡ true
    outside = let l = length-values_bytes xs in ground arith

-- The downward loop begins behind the last sensor.
each_down-past :
    (f : ℕ → List ℕ → Option (List ℕ)) (n : ℕ) (block : List ℕ)
    → f n block ≡ none
    → each_down f n block ≡ none
unfolding each_down
each_down-past f zero block e = e
each_down-past f (suc n) block e = rw e refl

faults :
    {s : Store} {n : ℕ} {xs : List Sensor}
    → (h : HasSensors s n xs) (k : ℕ) (one : List ℕ → Option (List ℕ))
      (all : ℕ → List ℕ → Option (List ℕ))
    → (ltb (length xs) k && not (k == 255)) ≡ false
    → (if k == 255 then all (length xs) else one) (table (length xs) xs) ≡ none
    → change s n k one all ≡ none
unfolding change get_sensors
faults {s} {n} {xs} h k one all fits e =
    rw (allowed, get_data-HasData h.data_, h.data_.block_at, fits, e) refl
  where
    allowed : (ltb n 513 || n == 0xffff) ≡ true
    allowed = let small = h.data_.num_fits in ground arith

-- `rdm_sensor_set`, `rdm_sensor_record` and `rdm_sensor_reset` of the sensor whose number is the
-- count of sensors, which their tests let through, access memory behind the end of the sensors'
-- data, if the count is below 255.
pub run-past_end :
    {s : Store} {n : ℕ} {xs : List Sensor} (a : Step)
    → HasSensors s n xs
    → length xs < 255
    → run a s n (length xs) ≡ none
unfolding run sensor_set sensor_record sensor_reset
run-past_end {s} {n} {xs} a h few = by_step a
  where
    one_ : (length xs == 255) ≡ false
    one_ = ground arith

    fits : (ltb (length xs) (length xs) && not (length xs == 255)) ≡ false
    fits = ground arith

    by_step : (a : Step) → run a s n (length xs) ≡ none
    by_step (present_ v) = faults h (length xs) _ _ fits (rw one_ (put_present-past v xs))
    by_step record_ = faults h (length xs) _ _ fits (rw one_ (record_one-past xs))
    by_step reset_ = faults h (length xs) _ _ fits (rw one_ (reset_one-past xs))

-- `rdm_sensor_record` and `rdm_sensor_reset` of all sensors access memory behind the end of the
-- sensors' data, whatever the count of sensors is.
pub record_all-past_end :
    {s : Store} {n : ℕ} {xs : List Sensor}
    → HasSensors s n xs
    → (sensor_record s n 255 ≡ none) × (sensor_reset s n 255 ≡ none)
unfolding sensor_record sensor_reset
record_all-past_end {s} {n} {xs} h = (
  faults h 255 (record_one 255) (each_down record_one) fits
      (each_down-past record_one (length xs) (table (length xs) xs) (record_one-past xs)),
  faults h 255 (reset_one 255) (each_down reset_one) fits
      (each_down-past reset_one (length xs) (table (length xs) xs) (reset_one-past xs)),
)
  where
    fits : (ltb (length xs) 255 && not (255 == 255)) ≡ false
    fits = ground arith
