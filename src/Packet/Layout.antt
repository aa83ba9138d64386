-- ===== src/Packet/Layout.antt =====
-- Lists under the operations of the packet code: parts of a buffer, and sums over parts.
use esp_dmx.Prelude.{
  ℕ, zero, suc, ◌+◌, ◌%◌, ◌^◌, ◌<◌, ◌≤◌, ◌≡◌, refl, sym, ap, ◌∙◌, List, [], ◌∷◌, ◌++◌, arith,
  length, get_or, take, drop, write_at,
}
use esp_dmx.Packet.Read.{checksum}

pub write_at-zero : (s d : List ℕ) → length s ≤ length d → write_at 0 s d ≡ s ++ drop (length s) d
write_at-zero [] [] h = refl
write_at-zero [] (x ∷ d) h = refl
write_at-zero (y ∷ s) [] h = absurd (omega arith)
write_at-zero (y ∷ s) (x ∷ d) h = ap (λ l. y ∷ l) (write_at-zero s d (omega arith))

pub write_at-append : (a s d : List ℕ) → write_at (length a) s (a ++ d) ≡ a ++ write_at 0 s d
write_at-append [] s d = refl
write_at-append (x ∷ a) s d = ap (λ l. x ∷ l) (write_at-append a s d)

pub get_or-append : (a b : List ℕ) (i : ℕ) → get_or (a ++ b) (length a + i) 0 ≡ get_or b i 0
get_or-append [] b i = ap (λ k. get_or b k 0) (omega arith)
get_or-append (x ∷ a) b i =
    let e : length (x ∷ a) + i ≡ suc (length a + i) = omega arith in rw e (get_or-append a b i)

-- The sum of a front part does not see what follows it.
pub checksum-append :
    (a b : List ℕ) (acc : ℕ) → checksum (length a) (a ++ b) acc ≡ checksum (length a) a acc
unfolding checksum
checksum-append [] b acc = refl
checksum-append (x ∷ a) b acc = checksum-append a b ((acc + x) % 2 ^ 16)

pub checksum-lt : (n : ℕ) (xs : List ℕ) (acc : ℕ) → acc < 2 ^ 16 → checksum n xs acc < 2 ^ 16
unfolding checksum
checksum-lt zero xs acc h = h
checksum-lt (suc n) [] acc h = h
checksum-lt (suc n) (x ∷ xs) acc h = checksum-lt n xs ((acc + x) % 2 ^ 16) (omega arith)

pub length-drop : (n m : ℕ) (xs : List ℕ) → length xs ≡ n + m → length (drop n xs) ≡ m
length-drop zero m xs h = omega arith
length-drop (suc n) m [] h = omega arith
length-drop (suc n) m (x ∷ xs) h = length-drop n m xs (omega arith)

drop-nil : (n : ℕ) → drop {A = ℕ} n [] ≡ []
drop-nil zero = refl
drop-nil (suc n) = refl

take_nil : (n : ℕ) → take {A = ℕ} n [] ≡ []
take_nil zero = refl
take_nil (suc n) = refl

pub drop-drop : (n m : ℕ) (xs : List ℕ) → drop m (drop n xs) ≡ drop (n + m) xs
drop-drop zero m xs = ap (λ k. drop k xs) (omega arith)
drop-drop (suc n) m [] = drop-nil m ∙ sym (drop-nil (suc n + m))
drop-drop (suc n) m (x ∷ xs) = drop-drop n m xs ∙ ap (λ k. drop k (x ∷ xs)) shift
  where
    shift : suc (n + m) ≡ suc n + m
    shift = omega arith

pub take-append : (a b : List ℕ) → take (length a) (a ++ b) ≡ a
take-append [] b = refl
take-append (x ∷ a) b = ap (λ l. x ∷ l) (take-append a b)

-- What follows a front part, put behind it.
pub take-drop : (n m : ℕ) (xs : List ℕ) → take n xs ++ take m (drop n xs) ≡ take (n + m) xs
take-drop zero m xs = ap (λ k. take k xs) (omega arith)
take-drop (suc n) m [] = take_nil m ∙ sym (take_nil (suc n + m))
take-drop (suc n) m (x ∷ xs) = ap (λ l. x ∷ l) (take-drop n m xs) ∙ ap (λ k. take k (x ∷ xs)) shift
  where
    shift : suc (n + m) ≡ suc n + m
    shift = omega arith
