-- ===== src/Format/Fixed.antt =====
-- Formats of tokens of a fixed size: 'b', 'w', 'd' and 'u'.
use esp_dmx.Prelude.{
  ℕ, zero, suc, ◌+◌, ◌-◌, ◌*◌, ◌%◌, ◌^◌, ◌<◌, ◌≤◌, ◌≡◌, refl, ap, ◌∙◌, List, [], ◌∷◌, ◌++◌, Bool,
  true, false, some, arith, ◌==◌, length, append_assoc, append-nil, ap₂, sym, ne→==, drop,
}
use esp_dmx.Format.{
  Cursor, format_ended, finished, swapped, advance, encode_tokens, encode_loop, start,
  format_encode, format_is_valid,
}
use esp_dmx.Format.Fields.{
  FixedToken, b, w, d, u, char_of, kind, format_of, size_of, total, reversed_fields, dropped,
  repeat, reversed_fields-append, reversed_fields-Reverses, total-repeat, all_widths, other_order,
  reversed_fields-other_order,
}

-- One token copies its field.
encode_tokens-cons :
    (nulls : Bool) (t : FixedToken) (f : List ℕ) (s : Cursor)
    → size_of t ≤ length s.src
    → encode_tokens nulls zero (char_of t ∷ f) s
      ≡ encode_tokens nulls zero f (advance (size_of t) (swapped (kind t) s.src) s)
unfolding encode_tokens
encode_tokens-cons nulls b f s h = ground arith
encode_tokens-cons nulls w f s h = ground arith
encode_tokens-cons nulls d f s h = ground arith
encode_tokens-cons nulls u f s h = ground arith

length-drop_add : (n m : ℕ) (xs : List ℕ) → n + m ≡ length xs → length (drop n xs) ≡ m
length-drop_add zero m xs h = omega arith
length-drop_add (suc n) m [] h = omega arith
length-drop_add (suc n) m (x ∷ xs) h = length-drop_add n m xs (omega arith)

length-dropped :
    (ts : List FixedToken) (m : ℕ) (xs : List ℕ)
    → total ts + m ≡ length xs
    → length (dropped ts xs) ≡ m
length-dropped [] m xs h = omega arith
length-dropped (t ∷ ts) m xs h =
    length-dropped ts m (drop (size_of t) xs)
      (omega (arith, length-drop_add (size_of t) (total ts + m) xs (omega arith)))

-- The cursor behind one pass over the tokens.
abbrev passed : List FixedToken → Cursor → Cursor
passed ts s = record {
  src = dropped ts s.src;
  size = s.size - total ts;
  out = s.out ++ reversed_fields ts s.src;
  encoded = s.encoded + total ts;
}

advance-size : (t n : ℕ) → t ≤ n → n < 2 ^ 32 → (n + 2 ^ 32 - t) % 2 ^ 32 ≡ n - t
advance-size t n h k = omega arith

cursor_ext :
    {s s' : Cursor}
    → s.src ≡ s'.src
    → s.size ≡ s'.size
    → s.out ≡ s'.out
    → s.encoded ≡ s'.encoded
    → s ≡ s'
cursor_ext p q r e = λ i. record { src = p i; size = q i; out = r i; encoded = e i }

encode_tokens-passed :
    (nulls : Bool) (ts : List FixedToken) (m : ℕ) (s : Cursor)
    → total ts + m ≡ length s.src
    → total ts ≤ s.size
    → s.size < 2 ^ 32
    → encode_tokens nulls zero (format_of ts) s ≡ format_ended (passed ts s)
encode_tokens-passed nulls [] m s h k l =
    unfold encode_tokens in
    ap format_ended (cursor_ext refl (omega arith) (sym (append-nil s.out)) (omega arith))
encode_tokens-passed nulls (t ∷ ts) m s h k l =
    encode_tokens-cons nulls t (format_of ts) s (omega arith)
    ∙ encode_tokens-passed nulls ts m s' (omega (arith, cut)) (omega (arith, shrunk))
        (omega (arith, shrunk))
    ∙ ap format_ended (
        cursor_ext refl (omega (arith, shrunk)) (append_assoc s.out (swapped (kind t) s.src) _)
          (omega arith))
  where
    s' : Cursor
    s' = advance (size_of t) (swapped (kind t) s.src) s

    shrunk : s'.size ≡ s.size - size_of t
    shrunk = advance-size (size_of t) s.size (omega arith) l

    cut : length s'.src ≡ total ts + m
    cut = length-drop_add (size_of t) (total ts + m) s.src (omega arith)

encode_loop-repeat :
    (k fuel : ℕ) (nulls : Bool) (ts : List FixedToken) (s : Cursor)
    → k < fuel
    → 0 < total ts
    → k * total ts ≡ length s.src
    → k * total ts ≡ s.size
    → s.size < 2 ^ 32
    → encode_loop fuel nulls (format_of ts) s
      ≡ finished (s.out ++ reversed_fields (repeat k ts) s.src) (s.encoded + k * total ts)
unfolding encode_loop
encode_loop-repeat k zero nulls ts s hf pos hl hs hw = elim hf [ ]
encode_loop-repeat zero (suc fuel) nulls ts s hf pos hl hs hw =
    let z : s.size ≡ 0 = omega arith in rw (z, append-nil) (ap (finished s.out) (omega arith))
encode_loop-repeat (suc k) (suc fuel) nulls ts s hf pos hl hs hw =
    rw (some_left, encode_tokens-passed nulls ts (k * total ts) s rest (omega (arith, rest)) hw)
      (encode_loop-repeat k fuel nulls ts (passed ts s) (omega arith) pos
          (sym (length-dropped ts (k * total ts) s.src rest)) (omega (arith, rest, hs))
          (omega arith)
        ∙ ap₂ finished
            (append_assoc s.out (reversed_fields ts s.src) _
              ∙ ap (λ (r : List ℕ). s.out ++ r)
                  (sym (reversed_fields-append ts (repeat k ts) s.src)))
            (omega arith))
  where
    rest : total ts + k * total ts ≡ length s.src
    rest = omega arith

    some_left : (s.size == 0) ≡ false
    some_left = ne→== s.size 0 (omega arith)

-- On a valid format of fixed tokens, `rdm_format_encode` copies `k` blocks of the format's size with
-- the bytes of each field turned round, whatever `encode_nulls` is.
pub encode_fixed :
    (k fuel : ℕ) (nulls : Bool) (ts : List FixedToken) (src : List ℕ)
    → format_is_valid (some (format_of ts)) ≡ some true
    → k < fuel
    → 0 < total ts
    → k * total ts ≡ length src
    → k * total ts < 2 ^ 32
    → format_encode fuel (some (format_of ts)) src (length src) nulls
      ≡ finished (reversed_fields (repeat k ts) src) (length src)
unfolding format_encode
encode_fixed k fuel nulls ts src valid hf pos hl hw =
    rw (valid, format_encode)
      (encode_loop-repeat k fuel nulls ts (start src (length src)) hf pos hl hl (omega arith)
        ∙ ap (finished (reversed_fields (repeat k ts) src)) (omega arith))

-- Encoding with a valid format of fixed tokens, whatever `encode_nulls` is, turns round the bytes of
-- each integer of `k` blocks of the format's size, shorter than 2 ^ 32 bytes in all, and encoding what
-- was encoded gives the source back; both passes return its length.
pub encode-encode :
    (k fuel : ℕ) (nulls nulls' : Bool) (ts : List FixedToken) (src : List ℕ)
    → format_is_valid (some (format_of ts)) ≡ some true
    → k < fuel
    → 0 < total ts
    → k * total ts ≡ length src
    → k * total ts < 2 ^ 32
    → (out : List ℕ) × (format_encode fuel (some (format_of ts)) src (length src) nulls
        ≡ finished out (length src))
      × (out ≡ other_order (all_widths (repeat k ts)) src)
      × (length out ≡ length src)
      × (format_encode fuel (some (format_of ts)) out (length out) nulls'
          ≡ finished src (length src))
encode-encode k fuel nulls nulls' ts src valid hf pos hl hw =
    let (same, back) = reversed_fields-Reverses (repeat k ts) src (total-repeat k ts ∙ hl) in
    let out = reversed_fields (repeat k ts) src in
    (
      out,
      encode_fixed k fuel nulls ts src valid hf pos hl hw,
      reversed_fields-other_order (repeat k ts) src (total-repeat k ts ∙ hl),
      same,
      encode_fixed k fuel nulls' ts out valid hf pos (hl ∙ sym same) hw ∙ ap₂ finished back same,
    )
