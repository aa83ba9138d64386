-- ===== src/Sensors/Refine.antt =====
-- The functions of Sensors as operations on a list of sensors.
use esp_dmx.Prelude.{
  ℕ, suc, ◌+◌, ◌<◌, ◌≤◌, ◌≡◌, refl, ap, sym, true, false, not, Bool, ◌&&◌, ◌||◌, Option, some, List,
  [], ◌∷◌, ◌++◌, map, append_assoc, arith, ltb, ◌==◌, length, length-append, set, if◌then◌else◌,
}
use mathlib.Core.Path.{subst}
use esp_dmx.Parameter.{Param, Device, Store}
use esp_dmx.Parameter.RoundTrip.{HasData, get_data-HasData, modified-HasData}
use esp_dmx.Sensors.{
  get_sensors, put_present, record_one, reset_one, each_up, change, sensor_set, sensor_record,
  sensor_reset,
}
use esp_dmx.Sensors.Values.{
  Sensor, update, with_present, with_recorded, cleared, length-update, length-values_bytes, table,
  Acts, put_present-Acts, record_one-Acts, reset_one-Acts,
}

-- Device `n` has these sensors, 255 at most, in a block of their size.
pub record HasSensors (s : Store) (n : ℕ) (xs : List Sensor) : Type 0 where
  pub i : ℕ
  pub b : ℕ
  pub device : Device
  pub param : Param
  pub few : length xs ≤ 255
  pub data_ : HasData s n 0x0201 i b device param (table (length xs) xs)

pub length-map : (g : Sensor → Sensor) (xs : List Sensor) → length (map g xs) ≡ length xs
length-map g [] = refl
length-map g (x ∷ xs) = ap suc (length-map g xs)

pub update-append :
    (front : List Sensor) (x : Sensor) (xs : List Sensor) (g : Sensor → Sensor)
    → update (front ++ (x ∷ xs)) (length front) g ≡ front ++ (g x ∷ xs)
update-append [] x xs g = refl
update-append (y ∷ front) x xs g = ap (λ ys. y ∷ ys) (update-append front x xs g)

-- The loop over the sensors behind those of `front`.
each_up-table :
    (f : ℕ → List ℕ → Option (List ℕ)) (g : Sensor → Sensor) (count : ℕ) (front xs : List Sensor)
    → Acts f g
    → each_up f (length xs) (length front) (table count (front ++ xs))
      ≡ some (table count (front ++ map g xs))
unfolding each_up
each_up-table f g count front [] acts = refl
each_up-table f g count front (x ∷ xs) acts =
    let next : length front + 1 ≡ length (front ++ (g x ∷ [])) =
      omega (arith, length-append front (g x ∷ [])) in
    let later : each_up f (length xs) (length front + 1) (table count ((front ++ (g x ∷ [])) ++ xs))
        ≡ some (table count ((front ++ (g x ∷ [])) ++ map g xs)) =
      rw next (each_up-table f g count (front ++ (g x ∷ [])) xs acts) in
    rw
      (
        acts count (front ++ (x ∷ xs)) (length front) inside,
        update-append front x xs g,
        sym (append_assoc front (g x ∷ []) xs),
        later,
      )
      (ap (λ ys. some (table count ys)) (append_assoc front (g x ∷ []) (map g xs)))
  where
    inside : length front < length (front ++ (x ∷ xs))
    inside = omega (arith, length-append front (x ∷ xs))

-- A pointer's block after a change that keeps its length.
changed :
    {s : Store} {n : ℕ} {xs : List Sensor}
    → (h : HasSensors s n xs) (k : ℕ) (one : List ℕ → Option (List ℕ))
      (all : ℕ → List ℕ → Option (List ℕ)) (ys : List Sensor)
    → (ltb (length xs) k && not (k == 255)) ≡ false
    → length ys ≡ length xs
    → (if k == 255 then all (length xs) else one) (table (length xs) xs)
      ≡ some (table (length xs) ys)
    → (s' : Store) × (change s n k one all ≡ some (true, s')) × HasSensors s' n ys
unfolding change get_sensors
changed {s} {n} {xs} h k one all ys fits same e = (
  record s { heap = set s.heap h.b (table (length xs) ys) },
  rw (allowed, get_data-HasData h.data_, h.data_.block_at, fits, e) refl,
  record {
    i = h.i;
    b = h.b;
    device = h.device;
    param = h.param;
    few = omega (arith, h.few, same);
    data_ = sized;
  },
)
  where
    sized :
        HasData
          (record s { heap = set s.heap h.b (table (length xs) ys) })
          n
          0x0201
          h.i
          h.b
          h.device
          h.param
          (table (length ys) ys)
    sized =
        subst
          (λ c.
            HasData (record s { heap = set s.heap h.b (table (length xs) ys) }) n 0x0201 h.i h.b
              h.device h.param (table c ys))
          (sym same)
          (modified-HasData h.data_ (table (length xs) ys)
            (omega (arith, length-values_bytes xs, length-values_bytes ys, same)))

    allowed : (ltb n 513 || n == 0xffff) ≡ true
    allowed = let small = h.data_.num_fits in ground arith

-- The changes of one sensor.
pub data Step : Type 0 where
  present_ : ℕ → Step
  record_ reset_ : Step

unfoldable pub run : Step → Store → ℕ → ℕ → Option (Bool × Store)
run (present_ v) s n k = sensor_set s n k v
run record_ s n k = sensor_record s n k
run reset_ s n k = sensor_reset s n k

abbrev pub effect : Step → Sensor → Sensor
effect (present_ v) = with_present v
effect record_ = with_recorded
effect reset_ = cleared

pub run-refines :
    {s : Store} {n : ℕ} {xs : List Sensor} (a : Step) (k : ℕ)
    → HasSensors s n xs
    → k < length xs
    → (s' : Store) × (run a s n k ≡ some (true, s')) × HasSensors s' n (update xs k (effect a))
unfolding run sensor_set sensor_record sensor_reset
run-refines {s} {n} {xs} a k h lt = by_step a
  where
    one_ : (k == 255) ≡ false
    one_ = let few = h.few in ground arith

    fits : (ltb (length xs) k && not (k == 255)) ≡ false
    fits = ground arith

    by_step :
        (a : Step)
        → (s' : Store) × (run a s n k ≡ some (true, s')) × HasSensors s' n (update xs k (effect a))
    by_step (present_ v) =
        changed h k (put_present v k) _ (update xs k (with_present v)) fits (length-update xs k _)
          (rw one_ (put_present-Acts v (length xs) xs k lt))
    by_step record_ =
        changed h k (record_one k) _ (update xs k with_recorded) fits (length-update xs k _)
          (rw one_ (record_one-Acts (length xs) xs k lt))
    by_step reset_ =
        changed h k (reset_one k) _ (update xs k cleared) fits (length-update xs k _)
          (rw one_ (reset_one-Acts (length xs) xs k lt))

-- `rdm_sensor_set` of all sensors.
pub sensor_set-all :
    {s : Store} {n : ℕ} {xs : List Sensor} (v : ℕ)
    → HasSensors s n xs
    → (s' : Store) × (sensor_set s n 255 v ≡ some (true, s'))
      × HasSensors s' n (map (with_present v) xs)
unfolding sensor_set
sensor_set-all {s} {n} {xs} v h =
    changed h 255 (put_present v 255) (λ count. each_up (put_present v) count 0)
      (map (with_present v) xs) (ground arith) (length-map (with_present v) xs)
      (each_up-table (put_present v) (with_present v) (length xs) [] xs (put_present-Acts v))
