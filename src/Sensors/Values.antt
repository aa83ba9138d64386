-- ===== src/Sensors/Values.antt =====
-- The octets of a table of sensors, and what the accesses of Sensors do to them.
use esp_dmx.Prelude.{
  false, ℕ, zero, suc, ◌+◌, ◌*◌, ◌/◌, ◌%◌, ◌<◌, ◌≤◌, ◌≡◌, refl, ap, ◌∙◌, sym, Option, none, some,
  List, [], ◌∷◌, arith, ltb, length, get_elem?, take, drop, write_at, replicate,
}
use esp_dmx.Sensors.{le16, value_at, read_octets, write_octets, put_present, record_one, reset_one}

-- A `rdm_sensor_value_t`; each value is taken modulo 2 ^ 16 where it is stored.
pub record Sensor : Type 0 where
  pub num : ℕ
  pub present : ℕ
  pub lowest : ℕ
  pub highest : ℕ
  pub recorded : ℕ

-- The octets of a sensor, with the octets behind them.
abbrev pub value_bytes : Sensor → List ℕ → List ℕ
value_bytes x rest =
    x.num
    ∷ (x.present % 256)
    ∷ (x.present / 256 % 256)
    ∷ (x.lowest % 256)
    ∷ (x.lowest / 256 % 256)
    ∷ (x.highest % 256)
    ∷ (x.highest / 256 % 256)
    ∷ (x.recorded % 256)
    ∷ (x.recorded / 256 % 256)
    ∷ rest

abbrev pub values_bytes : List Sensor → List ℕ
values_bytes [] = []
values_bytes (x ∷ xs) = value_bytes x (values_bytes xs)

-- The entry at an index changed.
abbrev pub update : List Sensor → ℕ → (Sensor → Sensor) → List Sensor
update [] k g = []
update (x ∷ xs) zero g = g x ∷ xs
update (x ∷ xs) (suc k) g = x ∷ update xs k g

abbrev pub with_present : ℕ → Sensor → Sensor
with_present v x = record x { present = v }

abbrev pub with_recorded : Sensor → Sensor
with_recorded x = record x { recorded = x.present }

abbrev pub cleared : Sensor → Sensor
cleared x = record x { present = 0; lowest = 0; highest = 0; recorded = 0 }

pub length-update :
    (xs : List Sensor) (k : ℕ) (g : Sensor → Sensor) → length (update xs k g) ≡ length xs
length-update [] k g = refl
length-update (x ∷ xs) zero g = refl
length-update (x ∷ xs) (suc k) g = ap suc (length-update xs k g)

pub length-values_bytes : (xs : List Sensor) → length (values_bytes xs) ≡ length xs * 9
length-values_bytes [] = refl
length-values_bytes (x ∷ xs) = omega (arith, length-values_bytes xs)

abbrev sensor_or : Sensor → Option Sensor → Sensor
sensor_or y none = y
sensor_or y (some x) = x

abbrev next : ℕ → ℕ
next i = suc (suc (suc (suc (suc (suc (suc (suc (suc i))))))))

add_zero : (o : ℕ) → 0 + o ≡ o
add_zero o = omega arith

further : (k o : ℕ) → suc k * 9 + o ≡ next (k * 9 + o)
further k o = omega arith

write-values :
    (xs : List Sensor) (k o : ℕ) (source : List ℕ) (x : Sensor) (g : Sensor → Sensor)
    → get_elem? xs k ≡ some x
    → ((rest : List ℕ) → write_at o source (value_bytes x rest) ≡ value_bytes (g x) rest)
    → write_at (k * 9 + o) source (values_bytes xs) ≡ values_bytes (update xs k g)
write-values [] k o source x g e h = absurd (ground (arith, e))
write-values (y ∷ xs) zero o source x g e h =
    let same : y ≡ x = ap (sensor_or y) e in
    rw (add_zero o) (
      ap (λ z. write_at o source (value_bytes z (values_bytes xs))) same
      ∙ h (values_bytes xs)
      ∙ ap (λ z. value_bytes (g z) (values_bytes xs)) (sym same))
write-values (y ∷ xs) (suc k) o source x g e h =
    rw (further k o, write-values xs k o source x g e h) refl

read-values :
    (xs : List Sensor) (k o m : ℕ) (x : Sensor) (octets : List ℕ)
    → get_elem? xs k ≡ some x
    → ((rest : List ℕ) → take m (drop o (value_bytes x rest)) ≡ octets)
    → take m (drop (k * 9 + o) (values_bytes xs)) ≡ octets
read-values [] k o m x octets e h = absurd (ground (arith, e))
read-values (y ∷ xs) zero o m x octets e h =
    let same : y ≡ x = ap (sensor_or y) e in
    rw (add_zero o)
      (ap (λ z. take m (drop o (value_bytes z (values_bytes xs)))) same ∙ h (values_bytes xs))
read-values (y ∷ xs) (suc k) o m x octets e h = rw (further k o) (read-values xs k o m x octets e h)

pub write_nothing : (d : List ℕ) → write_at 0 [] d ≡ d
write_nothing [] = refl
write_nothing (x ∷ d) = refl

-- A `rdm_sensors_t` of these sensors.
abbrev pub table : ℕ → List Sensor → List ℕ
table count xs = count ∷ values_bytes xs

shifted : (k o : ℕ) → value_at k + o ≡ suc (k * 9 + o)
shifted k o = omega arith

pub write_octets-table :
    (count : ℕ) (xs : List Sensor) (k o : ℕ) (source : List ℕ) (x : Sensor) (g : Sensor → Sensor)
    → get_elem? xs k ≡ some x
    → k < length xs
    → o + length source ≤ 9
    → ((rest : List ℕ) → write_at o source (value_bytes x rest) ≡ value_bytes (g x) rest)
    → write_octets (value_at k + o) source (table count xs) ≡ some (table count (update xs k g))
write_octets-table count xs k o source x g e lt fits h =
    rw (shifted k o, inside) (ap (λ b. some (count ∷ b)) (write-values xs k o source x g e h))
  where
    inside : ltb (length (table count xs)) (suc (k * 9 + o) + length source) ≡ false
    inside = let l = length-values_bytes xs in ground arith

pub read_octets-table :
    (count : ℕ) (xs : List Sensor) (k o m : ℕ) (x : Sensor) (octets : List ℕ)
    → get_elem? xs k ≡ some x
    → k < length xs
    → o + m ≤ 9
    → ((rest : List ℕ) → take m (drop o (value_bytes x rest)) ≡ octets)
    → read_octets (value_at k + o) m (table count xs) ≡ some octets
read_octets-table count xs k o m x octets e lt fits h =
    rw (shifted k o, inside) (ap some (read-values xs k o m x octets e h))
  where
    inside : ltb (length (table count xs)) (suc (k * 9 + o) + m) ≡ false
    inside = let l = length-values_bytes xs in ground arith

pub found : (xs : List Sensor) (k : ℕ) → k < length xs → (x : Sensor) × (get_elem? xs k ≡ some x)
found [] k h = absurd (omega arith)
found (x ∷ xs) zero h = (x, refl)
found (x ∷ xs) (suc k) h = found xs k (omega arith)

-- A store to one sensor, as its table sees it.
abbrev pub Acts : (ℕ → List ℕ → Option (List ℕ)) → (Sensor → Sensor) → Type 0
Acts f g =
    (count : ℕ) (xs : List Sensor) (k : ℕ)
    → k < length xs
    → f k (table count xs) ≡ some (table count (update xs k g))

pub put_present-Acts : (v : ℕ) → Acts (put_present v) (with_present v)
unfolding put_present
put_present-Acts v count xs k lt =
    let (x, e) = found xs k lt in
    write_octets-table count xs k 1 (le16 v) x (with_present v) e lt (omega arith) (λ rest. refl)

pub reset_one-Acts : Acts reset_one cleared
unfolding reset_one
reset_one-Acts count xs k lt =
    let (x, e) = found xs k lt in
    write_octets-table count xs k 1 (replicate 8 0) x cleared e lt (omega arith)
      (λ rest. ap (λ d. value_bytes (cleared x) d) (write_nothing rest))

pub record_one-Acts : Acts record_one with_recorded
unfolding record_one
record_one-Acts count xs k lt =
    let (x, e) = found xs k lt in
    rw (read_octets-table count xs k 1 2 x (le16 x.present) e lt (omega arith) (λ rest. refl)) (
      write_octets-table count xs k 7 (le16 x.present) x with_recorded e lt (omega arith)
        (λ rest. ap (λ d. value_bytes (with_recorded x) d) (write_nothing rest)))
