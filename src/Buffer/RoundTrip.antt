-- ===== src/Buffer/RoundTrip.antt =====
-- Writing slots and reading them back.
use esp_dmx.Prelude.{
  ◌++◌, ℕ, zero, suc, ◌+◌, ◌-◌, ◌^◌, ◌<◌, ◌≤◌, ◌≡◌, refl, ap, ◌∙◌, false, ◌||◌, some, List, [], ◌∷◌,
  arith, ltb, min, length, length-take, take, drop, write_at, lt→ltb, ◌==◌, if◌then◌else◌,
}
use esp_dmx.Buffer.{Port, is_sending, copy_in, read_offset, write_offset}
use esp_dmx.Buffer.Clamp.{clamp_size-min, read_offset-min}

take-drop-write_at :
    (n o : ℕ) (xs d : List ℕ)
    → length xs ≡ n
    → o + n ≤ length d
    → take n (drop o (write_at o xs d)) ≡ xs
take-drop-write_at zero o [] d e h = refl
take-drop-write_at zero o (x ∷ xs) d e h = absurd (omega arith)
take-drop-write_at (suc n) zero [] d e h = absurd (omega arith)
take-drop-write_at (suc n) zero (x ∷ xs) [] e h = absurd (omega arith)
take-drop-write_at (suc n) zero (x ∷ xs) (y ∷ d) e h =
    ap (λ zs. x ∷ zs) (take-drop-write_at n 0 xs d (omega arith) (omega arith))
take-drop-write_at (suc n) (suc o) xs [] e h = absurd (omega arith)
take-drop-write_at (suc n) (suc o) xs (y ∷ d) e h =
    take-drop-write_at (suc n) o xs d e (omega arith)

write_at-whole : (xs ys : List ℕ) → length xs ≡ length ys → write_at 0 xs ys ≡ xs
write_at-whole [] [] e = refl
write_at-whole [] (y ∷ ys) e = absurd (omega arith)
write_at-whole (x ∷ xs) [] e = absurd (omega arith)
write_at-whole (x ∷ xs) (y ∷ ys) e = ap (λ zs. x ∷ zs) (write_at-whole xs ys (omega arith))

write_at-take-drop :
    (o m : ℕ) (xs d : List ℕ)
    → m ≡ o + length xs
    → m ≤ length d
    → write_at o xs d ≡ take o d ++ (xs ++ drop m d)
write_at-take-drop zero zero [] [] e h = refl
write_at-take-drop zero zero [] (y ∷ d) e h = refl
write_at-take-drop zero (suc m) [] d e h = absurd (omega arith)
write_at-take-drop zero zero (x ∷ xs) d e h = absurd (omega arith)
write_at-take-drop zero (suc m) (x ∷ xs) [] e h = absurd (omega arith)
write_at-take-drop zero (suc m) (x ∷ xs) (y ∷ d) e h =
    ap (λ zs. x ∷ zs) (write_at-take-drop 0 m xs d (omega arith) (omega arith))
write_at-take-drop (suc o) zero xs d e h = absurd (omega arith)
write_at-take-drop (suc o) (suc m) xs [] e h = absurd (omega arith)
write_at-take-drop (suc o) (suc m) xs (y ∷ d) e h =
    ap (λ zs. y ∷ zs) (write_at-take-drop o m xs d (omega arith) (omega arith))

-- `dmx_write_offset` on a port that is not sending, of at least one octet to an offset in the
-- buffer, where `size + offset` stays below 2 ^ 32 and the source is long enough: the size returned
-- is clamped to the end of the buffer, `dmx_read_offset` of that range then returns what was
-- written, and the buffer holds that between the slots that it held before and behind.
pub read_offset-write_offset :
    (port : Port) (offset size : ℕ) (source dest : List ℕ)
    → length port.data_ ≡ 513
    → is_sending port.status ≡ false
    → offset < 513
    → 0 < size
    → size + offset < 2 ^ 32
    → size ≤ length source
    → length dest ≡ min size (513 - offset)
    → let n = min size (513 - offset) in
      (port' : Port) × (write_offset port offset source size ≡ some (n, port'))
      × (read_offset port'.data_ offset dest n ≡ some (n, take n source))
      × (port'.data_ ≡ take offset port.data_ ++ (take n source ++ drop (offset + n) port.data_))
unfolding write_offset copy_in
read_offset-write_offset port offset size source dest len quiet h pos small given room =
    let n = min size (513 - offset) in
    let xs = take n source in
    let data' = write_at offset xs port.data_ in
    let count : length xs ≡ n = omega (arith, length-take n source) in
    let whole : take n (drop offset data') ≡ xs =
      take-drop-write_at n offset xs port.data_ count (omega arith) in
    (
      record port { data_ = data'; rts = if port.rts == 1 then 0 else port.rts },
      rw (lt→ltb offset 513 h, clamp_size-min offset size h pos small, quiet, fits) refl,
      read_offset-min data' dest offset n h (omega arith) (omega arith) (omega arith)
          ∙ ap (λ m. some (m, write_at 0 (take m (drop offset data')) dest)) (omega arith)
          ∙ ap (λ ys. some (n, ys))
              (ap (λ ys. write_at 0 ys dest) whole ∙ write_at-whole xs dest (omega arith)),
      write_at-take-drop offset (offset + n) xs port.data_ (omega arith) (omega arith),
    )
  where
    fits :
        (ltb 513 (offset + min size (513 - offset))
          || ltb (length source) (min size (513 - offset)))
        ≡ false
    fits = ground arith
