-- ===== src/Format/Uppercase.antt =====
-- Upper-case letters: accepted by `rdm_format_is_valid`, not understood by `rdm_format_encode`.
use esp_dmx.Prelude.{ℕ, suc, ◌<◌, ◌≡◌, List, ◌∷◌, Bool, true, some, arith}
use esp_dmx.Format.{
  unreachable_symbol, encode_tokens, encode_loop, is_upper, format_encode, format_is_valid,
}

-- Every call of `rdm_format_encode` with source to encode and a valid format that begins with an
-- upper-case letter runs into `__unreachable`: the letter is raised by 'A', not lowered.
pub encode_upper :
    (fuel : ℕ) (c : ℕ) (f src : List ℕ) (size : ℕ) (nulls : Bool)
    → is_upper c ≡ true
    → format_is_valid (some (c ∷ f)) ≡ some true
    → 0 < size
    → format_encode (suc fuel) (some (c ∷ f)) src size nulls ≡ unreachable_symbol
unfolding format_encode
encode_upper fuel c f src size nulls up valid pos =
    rw (valid, format_encode) (unfold encode_loop encode_tokens in ground arith)
