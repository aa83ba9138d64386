-- ===== src/Packet/Corruption.antt =====
-- The checksum notices a packet in which one octet was changed.
use esp_dmx.Prelude.{
  ℕ, zero, suc, ◌+◌, ◌%◌, ◌^◌, ◌<◌, ◌≡◌, ◌≢◌, refl, sym, ap₂, ◌∙◌, List, [], ◌∷◌, none, arith,
  length, set, get_or, ne→==,
}
use esp_dmx.Packet.{sc, sub_sc, be16}
use esp_dmx.Packet.Read.{checksum, read_header, read_standard}

-- The sum does not wrap to the same value when one of the summed octets changes.
checksum-shift :
    (n : ℕ) (xs : List ℕ) (a b : ℕ)
    → a < 2 ^ 16
    → b < 2 ^ 16
    → a ≢ b
    → checksum n xs a ≢ checksum n xs b
unfolding checksum
checksum-shift zero xs a b ha hb ne = ne
checksum-shift (suc n) [] a b ha hb ne = ne
checksum-shift (suc n) (x ∷ xs) a b ha hb ne =
    checksum-shift n xs ((a + x) % 2 ^ 16) ((b + x) % 2 ^ 16) (omega arith) (omega arith)
      (omega arith)

checksum-set_ne :
    (n : ℕ) (xs : List ℕ) (acc i y : ℕ)
    → i < n
    → i < length xs
    → get_or xs i 0 < 256
    → y < 256
    → y ≢ get_or xs i 0
    → acc < 2 ^ 16
    → checksum n (set xs i y) acc ≢ checksum n xs acc
unfolding checksum
checksum-set_ne zero xs acc i y hn hl hx hy ne ha = absurd (omega arith)
checksum-set_ne (suc n) [] acc i y hn hl hx hy ne ha = absurd (omega arith)
checksum-set_ne (suc n) (x ∷ xs) acc zero y hn hl hx hy ne ha =
    checksum-shift n xs ((acc + y) % 2 ^ 16) ((acc + x) % 2 ^ 16) (omega arith) (omega arith)
      (omega arith)
checksum-set_ne (suc n) (x ∷ xs) acc (suc i) y hn hl hx hy ne ha =
    checksum-set_ne n xs ((acc + x) % 2 ^ 16) i y (omega arith) (omega arith) hx hy ne (omega arith)

get_or-set_after : (xs : List ℕ) (i k y : ℕ) → i < k → get_or (set xs i y) k 0 ≡ get_or xs k 0
get_or-set_after [] i k y h = refl
get_or-set_after (x ∷ xs) i zero y h = absurd (omega arith)
get_or-set_after (x ∷ xs) zero (suc k) y h = refl
get_or-set_after (x ∷ xs) (suc i) (suc k) y h = get_or-set_after xs i k y (omega arith)

-- The octets that a standard packet's checksum is compared with.
abbrev given : ℕ → List ℕ → ℕ
given len d = be16 (get_or d len 0) (get_or d (len + 1) 0)

agree_of_accepted :
    (len : ℕ) (r : List ℕ)
    → let d = sc ∷ sub_sc ∷ len ∷ r in read_header d ≢ none → checksum len d 0 ≡ given len d
unfolding read_header read_standard
agree_of_accepted len r h = ground arith

refused :
    (len : ℕ) (r : List ℕ)
    → let d = sc ∷ sub_sc ∷ len ∷ r in checksum len d 0 ≢ given len d → read_header d ≡ none
unfolding read_header read_standard
refused len r h = rw (ne→== _ _ h) refl

-- If `rdm_read_header` accepts a standard packet, it refuses every buffer that differs from it in
-- exactly one octet, where that octet, number `3 + j`, stands behind the length octet and before the
-- checksum, and the old value and the new one are octets.
pub read_header-set-none :
    (len j y : ℕ) (r : List ℕ)
    → read_header (sc ∷ sub_sc ∷ len ∷ r) ≢ none
    → 3 + j < len
    → j < length r
    → get_or r j 0 < 256
    → y < 256
    → y ≢ get_or r j 0
    → read_header (sc ∷ sub_sc ∷ len ∷ set r j y) ≡ none
read_header-set-none len j y r accepted hi inside hx hy ne = refused len (set r j y) (λ same.
    checksum-set_ne len d 0 (suc (suc (suc j))) y (omega arith) (omega arith) hx hy ne (omega arith)
      (same
        ∙ ap₂ be16 (after len (omega arith)) (after (len + 1) (omega arith))
        ∙ sym (agree_of_accepted len r accepted)))
  where
    d : List ℕ
    d = sc ∷ sub_sc ∷ len ∷ r

    after : (k : ℕ) → 3 + j < k → get_or (set d (suc (suc (suc j))) y) k 0 ≡ get_or d k 0
    after k h = get_or-set_after d (suc (suc (suc j))) k y (omega arith)
