-- ===== src/Format/Fields.antt =====
-- The fields of formats of tokens of a fixed size, 'b', 'w', 'd' and 'u', and the order of their bytes.
use mathlib.Core.List.{reverse}
use esp_dmx.Prelude.{
  take, ℕ, zero, suc, ◌+◌, ◌*◌, ◌≡◌, refl, ap, ◌∙◌, List, [], ◌∷◌, ◌++◌, arith, length,
  append_assoc, sym, drop,
}
use esp_dmx.Format.{Token, byte, word, dword, uid, token_size, swapped}

-- The characters of the fixed tokens.
pub data FixedToken : Type 0 where
  b w d u : FixedToken

abbrev pub char_of : FixedToken → ℕ
char_of b = b'b'
char_of w = b'w'
char_of d = b'd'
char_of u = b'u'

abbrev pub kind : FixedToken → Token
kind b = byte
kind w = word
kind d = dword
kind u = uid

abbrev pub format_of : List FixedToken → List ℕ
format_of [] = []
format_of (t ∷ ts) = char_of t ∷ format_of ts

abbrev pub size_of : FixedToken → ℕ
size_of t = token_size (kind t)

abbrev pub total : List FixedToken → ℕ
total [] = 0
total (t ∷ ts) = size_of t + total ts

-- The bytes of the fields with each field's bytes turned round.
abbrev pub reversed_fields : List FixedToken → List ℕ → List ℕ
reversed_fields [] xs = []
reversed_fields (t ∷ ts) xs = swapped (kind t) xs ++ reversed_fields ts (drop (size_of t) xs)

abbrev pub dropped : List FixedToken → List ℕ → List ℕ
dropped [] xs = xs
dropped (t ∷ ts) xs = dropped ts (drop (size_of t) xs)

-- `k` passes over a format.
abbrev pub repeat : ℕ → List FixedToken → List FixedToken
repeat zero ts = []
repeat (suc k) ts = ts ++ repeat k ts

pub reversed_fields-append :
    (ts us : List FixedToken) (xs : List ℕ)
    → reversed_fields (ts ++ us) xs ≡ reversed_fields ts xs ++ reversed_fields us (dropped ts xs)
reversed_fields-append [] us xs = refl
reversed_fields-append (t ∷ ts) us xs =
    ap (λ (r : List ℕ). swapped (kind t) xs ++ r)
      (reversed_fields-append ts us (drop (size_of t) xs))
    ∙ sym (append_assoc (swapped (kind t) xs) (reversed_fields ts (drop (size_of t) xs)) _)

abbrev pub Reverses : List FixedToken → List ℕ → Type 0
Reverses ts xs =
    (length (reversed_fields ts xs) ≡ length xs) × (reversed_fields ts (reversed_fields ts xs) ≡ xs)

-- Turning the fields round twice gives the bytes back.
pub reversed_fields-Reverses :
    (ts : List FixedToken) (xs : List ℕ) → total ts ≡ length xs → Reverses ts xs
reversed_fields-Reverses [] [] h = (refl, refl)
reversed_fields-Reverses [] (x ∷ xs) h = absurd (omega arith)
reversed_fields-Reverses (b ∷ ts) [] h = absurd (omega arith)
reversed_fields-Reverses (b ∷ ts) (p ∷ xs) h =
    let (len, back) = reversed_fields-Reverses ts xs (omega arith) in
    (omega arith, ap (λ y. p ∷ y) back)
reversed_fields-Reverses (w ∷ ts) [] h = absurd (omega arith)
reversed_fields-Reverses (w ∷ ts) (p ∷ []) h = absurd (omega arith)
reversed_fields-Reverses (w ∷ ts) (p ∷ q ∷ xs) h =
    let (len, back) = reversed_fields-Reverses ts xs (omega arith) in
    (omega arith, ap (λ y. p ∷ q ∷ y) back)
reversed_fields-Reverses (d ∷ ts) [] h = absurd (omega arith)
reversed_fields-Reverses (d ∷ ts) (p ∷ []) h = absurd (omega arith)
reversed_fields-Reverses (d ∷ ts) (p ∷ q ∷ []) h = absurd (omega arith)
reversed_fields-Reverses (d ∷ ts) (p ∷ q ∷ r ∷ []) h = absurd (omega arith)
reversed_fields-Reverses (d ∷ ts) (p ∷ q ∷ r ∷ s ∷ xs) h =
    let (len, back) = reversed_fields-Reverses ts xs (omega arith) in
    (omega arith, ap (λ y. p ∷ q ∷ r ∷ s ∷ y) back)
reversed_fields-Reverses (u ∷ ts) [] h = absurd (omega arith)
reversed_fields-Reverses (u ∷ ts) (p ∷ []) h = absurd (omega arith)
reversed_fields-Reverses (u ∷ ts) (p ∷ q ∷ []) h = absurd (omega arith)
reversed_fields-Reverses (u ∷ ts) (p ∷ q ∷ r ∷ []) h = absurd (omega arith)
reversed_fields-Reverses (u ∷ ts) (p ∷ q ∷ r ∷ s ∷ []) h = absurd (omega arith)
reversed_fields-Reverses (u ∷ ts) (p ∷ q ∷ r ∷ s ∷ t ∷ []) h = absurd (omega arith)
reversed_fields-Reverses (u ∷ ts) (p ∷ q ∷ r ∷ s ∷ t ∷ v ∷ xs) h =
    let (len, back) = reversed_fields-Reverses ts xs (omega arith) in
    (omega arith, ap (λ y. p ∷ q ∷ r ∷ s ∷ t ∷ v ∷ y) back)

total-append : (ts us : List FixedToken) → total (ts ++ us) ≡ total ts + total us
total-append [] us = omega arith
total-append (t ∷ ts) us = omega (arith, total-append ts us)

pub total-repeat : (k : ℕ) (ts : List FixedToken) → total (repeat k ts) ≡ k * total ts
total-repeat zero ts = omega arith
total-repeat (suc k) ts = omega (arith, total-append ts (repeat k ts), total-repeat k ts)

-- The widths of the integers of a field: a UID is a word and a double word.
abbrev pub widths : FixedToken → List ℕ
widths b = 1 ∷ []
widths w = 2 ∷ []
widths d = 4 ∷ []
widths u = 2 ∷ 4 ∷ []

abbrev pub all_widths : List FixedToken → List ℕ
all_widths [] = []
all_widths (t ∷ ts) = widths t ++ all_widths ts

-- Integers of these widths with the other order of their bytes.
abbrev pub other_order : List ℕ → List ℕ → List ℕ
other_order [] xs = []
other_order (n ∷ ns) xs = reverse (take n xs) ++ other_order ns (drop n xs)

pub reversed_fields-other_order :
    (ts : List FixedToken) (xs : List ℕ)
    → total ts ≡ length xs
    → reversed_fields ts xs ≡ other_order (all_widths ts) xs
reversed_fields-other_order [] xs h = refl
reversed_fields-other_order (b ∷ ts) [] h = absurd (omega arith)
reversed_fields-other_order (b ∷ ts) (p ∷ xs) h =
    ap (λ y. p ∷ y) (reversed_fields-other_order ts xs (omega arith))
reversed_fields-other_order (w ∷ ts) [] h = absurd (omega arith)
reversed_fields-other_order (w ∷ ts) (p ∷ []) h = absurd (omega arith)
reversed_fields-other_order (w ∷ ts) (p ∷ q ∷ xs) h =
    ap (λ y. q ∷ p ∷ y) (reversed_fields-other_order ts xs (omega arith))
reversed_fields-other_order (d ∷ ts) [] h = absurd (omega arith)
reversed_fields-other_order (d ∷ ts) (p ∷ []) h = absurd (omega arith)
reversed_fields-other_order (d ∷ ts) (p ∷ q ∷ []) h = absurd (omega arith)
reversed_fields-other_order (d ∷ ts) (p ∷ q ∷ r ∷ []) h = absurd (omega arith)
reversed_fields-other_order (d ∷ ts) (p ∷ q ∷ r ∷ s ∷ xs) h =
    ap (λ y. s ∷ r ∷ q ∷ p ∷ y) (reversed_fields-other_order ts xs (omega arith))
reversed_fields-other_order (u ∷ ts) [] h = absurd (omega arith)
reversed_fields-other_order (u ∷ ts) (p ∷ []) h = absurd (omega arith)
reversed_fields-other_order (u ∷ ts) (p ∷ q ∷ []) h = absurd (omega arith)
reversed_fields-other_order (u ∷ ts) (p ∷ q ∷ r ∷ []) h = absurd (omega arith)
reversed_fields-other_order (u ∷ ts) (p ∷ q ∷ r ∷ s ∷ []) h = absurd (omega arith)
reversed_fields-other_order (u ∷ ts) (p ∷ q ∷ r ∷ s ∷ t ∷ []) h = absurd (omega arith)
reversed_fields-other_order (u ∷ ts) (p ∷ q ∷ r ∷ s ∷ t ∷ v ∷ xs) h =
    ap (λ y. q ∷ p ∷ v ∷ t ∷ s ∷ r ∷ y) (reversed_fields-other_order ts xs (omega arith))
