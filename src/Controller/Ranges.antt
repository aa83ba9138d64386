-- ===== src/Controller/Ranges.antt =====
-- Sorted lists of UIDs as numbers, and the part of one that lies in a range.
use esp_dmx.Prelude.{
  ℕ, ◌+◌, ◌<◌, ◌≤◌, ◌≡◌, refl, inl, inr, List, [], ◌∷◌, ◌++◌, Bool, false, arith, leb, ◌==◌,
  if◌then◌else◌, ◌&&◌, ◌||◌, Bool-cases,
}

abbrev pub AllAbove : ℕ → List ℕ → Type 0
AllAbove x [] = Unit
AllAbove x (y ∷ ys) = (x < y) × AllAbove x ys

abbrev pub IsSorted : List ℕ → Type 0
IsSorted [] = Unit
IsSorted (x ∷ xs) = AllAbove x xs × IsSorted xs

abbrev pub between : ℕ → ℕ → List ℕ → List ℕ
between lo hi [] = []
between lo hi (x ∷ xs) = if leb lo x && leb x hi then x ∷ between lo hi xs else between lo hi xs

abbrev pub has : ℕ → List ℕ → Bool
has a [] = false
has a (x ∷ xs) = x == a || has a xs

pub between-above : (lo hi x : ℕ) (xs : List ℕ) → hi ≤ x → AllAbove x xs → between lo hi xs ≡ []
between-above lo hi x [] h a = refl
between-above lo hi x (y ∷ ys) h (lt, a) = ground (arith, between-above lo hi x ys h a)

pub between-split :
    (lo mid hi : ℕ) (xs : List ℕ)
    → lo ≤ mid
    → mid ≤ hi
    → IsSorted xs
    → between lo hi xs ≡ between lo mid xs ++ between (mid + 1) hi xs
between-split lo mid hi [] p q s = refl
between-split lo mid hi (x ∷ xs) p q (a, s) =
    ground (arith, between-split lo mid hi xs p q s, between-above lo mid x xs)

has-above : (x : ℕ) (xs : List ℕ) → AllAbove x xs → has x xs ≡ false
has-above x [] a = refl
has-above x (y ∷ ys) (lt, a) = ground (arith, has-above x ys a)

pub between-one :
    (n : ℕ) (xs : List ℕ) → IsSorted xs → between n n xs ≡ (if has n xs then n ∷ [] else [])
between-one n [] s = refl
between-one n (x ∷ xs) (a, s) = elim (Bool-cases (x == n)) [
  | inl e ↦
      let p : x ≡ n = ground arith in rw (e, between-above n n x xs (omega arith) a) (ground arith)
  | inr e ↦ ground (arith, between-one n xs s)
]
