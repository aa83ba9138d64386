-- ===== src/Sensors/Registered.antt =====
-- What `rdm_register_sensor_value` establishes.
use esp_dmx.Prelude.{
  ℕ, zero, suc, ◌+◌, ◌*◌, ◌%◌, ◌<◌, ◌≤◌, ◌≡◌, refl, sym, ap, ◌∙◌, true, false, Option, some, List,
  [], ◌∷◌, ◌++◌, append_assoc, arith, ltb, length, length-append, get_elem?, replicate,
}
use mathlib.Core.Path.{subst}
use esp_dmx.Format.{format_is_valid}
use esp_dmx.Parameter.{Param, Device, Store}
use esp_dmx.Parameter.Added.{HasRoom, length-replicate, add-zeros}
use esp_dmx.Parameter.RoundTrip.{HasData, get_data-HasData, modified-HasData}
use esp_dmx.Parameter.Callback.{definition_get}
use esp_dmx.Responder.Defined.{IsDefinable, define_added-HasData}
use esp_dmx.Responder.Register.{definition_is_ok, has_handlers}
use esp_dmx.Sensors.{get_sensors, each_up, write_octets, value_at}
use esp_dmx.Sensors.Values.{
  Sensor, values_bytes, value_bytes, length-values_bytes, table, write_nothing, write_octets-table,
}
use esp_dmx.Sensors.Refine.{HasSensors, update-append}
use esp_dmx.Sensors.Register.{
  value_definition, put_number, number_sensors, values_added, register_sensor_value,
}

value_definition-IsDefinable : IsDefinable value_definition
unfolding format_is_valid esp_dmx.Format.check definition_is_ok has_handlers
value_definition-IsDefinable = record {
  ok = refl;
  get_request = refl;
  get_response = refl;
  set_request = refl;
  set_response = refl;
}

abbrev pub blank : ℕ → Sensor
blank k = record { num = k; present = 0; lowest = 0; highest = 0; recorded = 0 }

-- `n` sensors with all values 0, numbered from `k` on, in octets.
abbrev pub numbered : ℕ → ℕ → List Sensor
numbered k zero = []
numbered k (suc n) = blank (k % 256) ∷ numbered (k + 1) n

abbrev blanks : ℕ → List Sensor
blanks zero = []
blanks (suc n) = blank 0 ∷ blanks n

length-blanks : (n : ℕ) → length (blanks n) ≡ n
length-blanks zero = refl
length-blanks (suc n) = ap suc (length-blanks n)

pub length-numbered : (k n : ℕ) → length (numbered k n) ≡ n
length-numbered k zero = refl
length-numbered k (suc n) = ap suc (length-numbered (k + 1) n)

zeros : (n : ℕ) → replicate (n * 9) 0 ≡ values_bytes (blanks n)
zeros zero = refl
zeros (suc n) = ap (λ m. replicate m 0) (nine n) ∙ ap (λ xs. value_bytes (blank 0) xs) (zeros n)
  where
    nine : (n : ℕ) → suc n * 9 ≡ suc (suc (suc (suc (suc (suc (suc (suc (suc (n * 9)))))))))
    nine n = omega arith

abbrev with_num : ℕ → Sensor → Sensor
with_num k x = record x { num = k % 256 }

at_front :
    (front : List Sensor) (x : Sensor) (xs : List Sensor)
    → get_elem? (front ++ (x ∷ xs)) (length front) ≡ some x
at_front [] x xs = refl
at_front (y ∷ front) x xs = at_front front x xs

put_number-front :
    (count : ℕ) (front : List Sensor) (xs : List Sensor)
    → put_number (length front) (table count (front ++ (blank 0 ∷ xs)))
      ≡ some (table count (front ++ (blank (length front % 256) ∷ xs)))
unfolding put_number
put_number-front count front xs =
    let k = length front in
    let first : value_at k ≡ value_at k + 0 = omega arith in
    let inside : k < length (front ++ (blank 0 ∷ xs)) =
      omega (arith, length-append front (blank 0 ∷ xs)) in
    ap (λ i. write_octets i ((k % 256) ∷ []) (table count (front ++ (blank 0 ∷ xs)))) first
    ∙ write_octets-table count (front ++ (blank 0 ∷ xs)) k 0 ((k % 256) ∷ []) (blank 0) (with_num k)
        (at_front front (blank 0) xs) inside (omega arith) (λ rest. refl)
    ∙ ap (λ ys. some (table count ys)) (update-append front (blank 0) xs (with_num k))

number_each :
    (count n : ℕ) (front : List Sensor)
    → each_up put_number n (length front) (table count (front ++ blanks n))
      ≡ some (table count (front ++ numbered (length front) n))
unfolding each_up
number_each count zero front = refl
number_each count (suc n) front =
    let x = blank (length front % 256) in
    let next : length front + 1 ≡ length (front ++ (x ∷ [])) =
      omega (arith, length-append front (x ∷ [])) in
    let later : each_up put_number n (length front + 1)
          (table count ((front ++ (x ∷ [])) ++ blanks n))
        ≡ some (table count ((front ++ (x ∷ [])) ++ numbered (length front + 1) n)) =
      rw next (number_each count n (front ++ (x ∷ []))) in
    rw
      (put_number-front count front (blanks n), sym (append_assoc front (x ∷ []) (blanks n)), later)
      (ap (λ ys. some (table count ys))
        (append_assoc front (x ∷ []) (numbered (length front + 1) n)))

number_sensors-zeros :
    (count : ℕ)
    → number_sensors count (replicate (1 + 9 * count) 0) ≡ some (table count (numbered 0 count))
unfolding number_sensors
number_sensors-zeros count =
    rw (size, zeros count, within, write_nothing (values_bytes (blanks count)))
      (number_each count count [])
  where
    size : 1 + 9 * count ≡ suc (count * 9)
    size = omega arith

    within : ltb (suc (length (values_bytes (blanks count)))) 1 ≡ false
    within = ground arith

recounted :
    {s : Store} {n pid i b count count' : ℕ} {d : Device} {p : Param} (xs : List Sensor)
    → HasData s n pid i b d p (table count xs)
    → count ≡ count'
    → HasData s n pid i b d p (table count' xs)
recounted {s} {n} {pid} {i} {b} {count} {count'} {d} {p} xs has e =
    subst (λ c. HasData s n pid i b d p (table c xs)) e has

-- `rdm_register_sensor_value` on a root device with room for the parameter returns true, and the
-- device has its definition and as many sensors as were asked for, 255 at most: they are numbered
-- from 0 on, and their values are 0.
pub register_sensor_value-HasSensors :
    {s : Store} (count address : ℕ) (callback context : Option ℕ)
    → HasRoom s 0x0201
    → count ≤ 255
    → (s' : Store) × (register_sensor_value true s count address callback context ≡ some (true, s'))
      × (definition_get s' 0 0x0201 ≡ some (some address))
      × HasSensors s' 0 (numbered 0 count)
unfolding register_sensor_value values_added get_sensors
register_sensor_value-HasSensors {s} count address callback context room few =
    let at_most : length (numbered 0 count) ≤ 255 = omega (arith, few, length-numbered 0 count) in
    let (s1, d1, e1, has1) = add-zeros (1 + 9 * count) room (omega arith) in
    let same : length (table count (numbered 0 count)) ≡ length (replicate (1 + 9 * count) 0) =
      omega (
        arith,
        length-values_bytes (numbered 0 count),
        length-numbered 0 count,
        length-replicate (1 + 9 * count) 0,
      ) in
    let has2 = modified-HasData has1 (table count (numbered 0 count)) same in
    let (s3, d3, e3, found, has3) =
      define_added-HasData address value_definition callback context has2
        value_definition-IsDefinable in
    (
      s3,
      rw (e1, get_data-HasData has1, has1.block_at, number_sensors-zeros count, e3) refl,
      found,
      record {
        i = _;
        b = _;
        device = _;
        param = _;
        few = at_most;
        data_ = recounted (numbered 0 count) has3 (sym (length-numbered 0 count));
      },
    )
