-- ===== src/Format/Examples.antt =====
-- The theorems on formats at concrete ones.
use esp_dmx.Prelude.{ℕ, ◌≡◌, refl, true, false, some, List, [], ◌∷◌, arith, length}
use esp_dmx.Format.{finished, format_encode, format_is_valid, check}
use esp_dmx.Format.Fields.{other_order, all_widths, repeat, FixedToken, format_of}
use esp_dmx.Format.Fixed.{encode-encode}

-- "wb", as the parameter DISPLAY_LEVEL might have it, and two such blocks.
abbrev word_byte : List FixedToken
word_byte = FixedToken.w ∷ FixedToken.b ∷ []

abbrev two_blocks : List ℕ
two_blocks = 1 ∷ 2 ∷ 3 ∷ 4 ∷ 5 ∷ 6 ∷ []

valid : format_is_valid (some (format_of word_byte)) ≡ some true
unfolding format_is_valid check
valid = refl

upper_valid : format_is_valid (some (b'W' ∷ [])) ≡ some true
unfolding format_is_valid check
upper_valid = refl

encode-encode_example :
    (out : List ℕ) × (format_encode 3 (some (format_of word_byte)) two_blocks 6 true
      ≡ finished out 6)
    × (out ≡ other_order (all_widths (repeat 2 word_byte)) two_blocks)
    × (length out ≡ 6)
    × (format_encode 3 (some (format_of word_byte)) out (length out) false ≡ finished two_blocks 6)
encode-encode_example =
    encode-encode 2 3 true false word_byte two_blocks valid (omega arith) (omega arith) refl
      (omega arith)
