-- ===== src/Format.antt =====
-- The parameter format strings of src/rdm/driver.c: `rdm_format_is_valid` and `rdm_format_encode`.
-- A C string is the list of its characters before the terminating null.
pub mod Fields
pub mod Fixed
pub mod Uppercase
pub mod Examples
use esp_dmx.Prelude.{
  ℕ, zero, suc, ◌+◌, ◌-◌, ◌*◌, ◌%◌, ◌^◌, Bool, true, false, Option, none, some, List, [], ◌∷◌, ◌++◌,
  ltb, leb, ◌==◌, if◌then◌else◌, not, ◌&&◌, ◌||◌, ◌>>=◌, get_or, length, take, drop, replicate,
}

-- `isxdigit`
abbrev pub is_xdigit : ℕ → Bool
is_xdigit c = (leb b'0' c && leb c b'9') || (leb b'a' c && leb c b'f') || (leb b'A' c && leb c b'F')

-- What a character asks of the two functions: a token of so many bytes, or one of the others.
pub data Token : Type 0 where
  space stop byte word dword uid optional_uid ascii hex unknown : Token

-- The characters that the loop of `rdm_format_encode` knows.
abbrev pub token_of : ℕ → Token
token_of c =
    if c == b' '
    then space
    else if c == b'$'
    then stop
    else if c == b'b'
    then byte
    else if c == b'w'
    then word
    else if c == b'd'
    then dword
    else if c == b'u'
    then uid
    else if c == b'v'
    then optional_uid
    else if c == b'a'
    then ascii
    else if c == b'x'
    then hex
    else unknown

abbrev pub is_upper : ℕ → Bool
is_upper c = leb b'A' c && leb c b'Z'

-- The switch of `rdm_format_is_valid`, which takes either case.
abbrev pub token_of_any : ℕ → Token
token_of_any c = token_of (if is_upper c then c + 32 else c)

abbrev pub token_size : Token → ℕ
token_size byte = 1
token_size word = 2
token_size dword = 4
token_size uid = 6
token_size optional_uid = 6
token_size hex = 1
token_size ascii = 32
token_size _ = 0

abbrev pub is_last : Token → Bool
is_last optional_uid = true
is_last ascii = true
is_last stop = true
is_last _ = false

-- The end of `rdm_format_is_valid` for a format with no last token. `none` is the remainder by 0.
abbrev pub check_size : ℕ → Option Bool
check_size size = if size == 0 then none else some (ltb 0 (231 - 231 % size))

-- The end of `rdm_format_is_valid` behind a last token: only the end or a `$` may follow.
abbrev pub check_rest : List ℕ → ℕ → Option Bool
check_rest [] size = some (ltb 0 size)
check_rest (c ∷ f) size = some (c == b'$' && ltb 0 size)

-- The loop of `rdm_format_is_valid`; `size` is `parameter_size`. The first argument counts the
-- characters of a hex literal that are still to be checked.
unfoldable pub check : ℕ → List ℕ → ℕ → Option Bool
check (suc k) [] size = some false
check (suc k) (c ∷ f) size = let rest = check k f size in if is_xdigit c then rest else some false
check zero [] size = check_size size
check zero (c ∷ f) size =
    let t = token_of_any c in
    let size' = size + token_size t in
    let on =
      if ltb 231 size'
      then some false
      else (if is_last t then check_rest f size' else check zero f size') in
    elim t [
      | space ↦ check zero f size
      | unknown ↦ some false
      | hex ↦ if ltb 231 (size + 1) then some false else check 2 f (size + 1)
      | _ ↦ on
    ]

-- `rdm_format_is_valid`: a null pointer is valid, `none` is a remainder by 0.
unfoldable pub format_is_valid : Option (List ℕ) → Option Bool
unfolding check
format_is_valid none = some true
format_is_valid (some f) = check 0 f 0

-- How a call of `rdm_format_encode` ends: with the bytes written from `dest` on and the value
-- returned; at an unknown symbol (`__unreachable`); at a failed assertion; by reading past the end
-- of the source or the format (also through a null format); or not within the fuel.
pub data Encoded : Type 0 where
  finished : List ℕ → ℕ → Encoded
  unreachable_symbol invalid_format overread out_of_fuel : Encoded

-- The cursor of the loop: what is left of the source's memory, `src_size`, the bytes written so
-- far, and `encoded`.
pub record Cursor : Type 0 where
  pub src : List ℕ
  pub size : ℕ
  pub out : List ℕ
  pub encoded : ℕ

-- One pass over the format ends the call, or reaches the end of the format.
pub data Pass : Type 0 where
  returned : Encoded → Pass
  format_ended : Cursor → Pass

-- `dest += token_size; src += token_size; src_size -= token_size`, which wraps as a size_t does.
abbrev pub advance : ℕ → List ℕ → Cursor → Cursor
advance t bytes s = record {
  src = drop t s.src;
  size = (s.size + 2 ^ 32 - t) % 2 ^ 32;
  out = s.out ++ bytes;
  encoded = s.encoded + t;
}

-- `bswap16` and `bswap32` of a number in memory turn its bytes round.
abbrev pub swapped : Token → List ℕ → List ℕ
swapped word (a ∷ b ∷ r) = b ∷ a ∷ []
swapped dword (a ∷ b ∷ c ∷ d ∷ r) = d ∷ c ∷ b ∷ a ∷ []
swapped uid (a ∷ b ∷ c ∷ d ∷ e ∷ f ∷ r) = b ∷ a ∷ f ∷ e ∷ d ∷ c ∷ []
swapped _ (a ∷ r) = a ∷ []
swapped _ [] = []

abbrev pub all_zero : ℕ → List ℕ → Bool
all_zero zero xs = true
all_zero (suc n) [] = true
all_zero (suc n) (x ∷ xs) = x == 0 && all_zero n xs

-- `strnlen`, or `none` if the memory ends before the string or the limit does.
abbrev pub strnlen : ℕ → List ℕ → Option ℕ
strnlen zero xs = some 0
strnlen (suc n) [] = none
strnlen (suc n) (x ∷ xs) = if x == 0 then some 0 else (strnlen n xs >>= λ k. some (suc k))

abbrev pub hex_digit : ℕ → ℕ
hex_digit c = if leb c b'9' then c - b'0' else if leb c b'F' then c - b'A' + 10 else c - b'a' + 10

-- The two characters of a hex literal as `strtol(str, NULL, 16)` reads them.
abbrev pub hex_byte : List ℕ → ℕ
hex_byte f = (hex_digit (get_or f 0 0) * 16 + hex_digit (get_or f 1 0)) % 256

-- The case 'a'.
abbrev pub encode_ascii : Bool → Cursor → Pass
encode_ascii nulls s = elim (strnlen (if ltb s.size 32 then s.size else 32) s.src) [
  | none ↦ returned overread
  | some n ↦ returned (
      if nulls
      then finished (s.out ++ take n s.src ++ (0 ∷ [])) (s.encoded + n + 1)
      else finished (s.out ++ take n s.src) (s.encoded + n))
]

-- The case 'v'.
abbrev pub encode_optional : Bool → Cursor → Pass
encode_optional nulls s =
    if ltb s.size 6 || (leb 6 (length s.src) && all_zero 6 s.src)
    then returned (
        if nulls
        then finished (s.out ++ replicate 6 0) (s.encoded + 6)
        else finished s.out s.encoded)
    else if ltb (length s.src) 6
    then returned overread
    else returned (finished (s.out ++ swapped uid s.src) (s.encoded + 6))

-- The inner loop over the format's characters. The first argument counts characters to skip. The
-- letter is lowered by `c += 'A'`, as the source has it.
unfoldable pub encode_tokens : Bool → ℕ → List ℕ → Cursor → Pass
encode_tokens nulls zero [] s = format_ended s
encode_tokens nulls (suc k) [] s = returned overread
encode_tokens nulls (suc k) (c ∷ f) s = encode_tokens nulls k f s
encode_tokens nulls zero (c ∷ f) s =
    let t = token_of (if is_upper c then (c + b'A') % 256 else c) in
    let next = encode_tokens nulls zero f (advance (token_size t) (swapped t s.src) s) in
    let copy = if ltb (length s.src) (token_size t) then returned overread else next in
    elim t [
      | space ↦ encode_tokens nulls zero f s
      | stop ↦ returned (finished s.out s.encoded)
      | optional_uid ↦ encode_optional nulls s
      | ascii ↦ encode_ascii nulls s
      | hex ↦ encode_tokens nulls 2 f (advance 1 (hex_byte f ∷ []) s)
      | unknown ↦ returned unreachable_symbol
      | _ ↦ copy
    ]

-- The outer loop: passes over the format while there is source left.
unfoldable pub encode_loop : ℕ → Bool → List ℕ → Cursor → Encoded
encode_loop zero nulls f s = out_of_fuel
encode_loop (suc fuel) nulls f s =
    let pass : Encoded = elim (encode_tokens nulls zero f s) [
      | returned e ↦ e
      | format_ended s' ↦ encode_loop fuel nulls f s'
    ] in
    if s.size == 0 then finished s.out s.encoded else pass

abbrev pub start : List ℕ → ℕ → Cursor
start src size = record { src = src; size = size; out = []; encoded = 0 }

-- `rdm_format_encode` on the memory behind `src`; a remainder by 0 in the assertion traps. A null
-- format is valid, and is read only if there is source left.
unfoldable pub format_encode : ℕ → Option (List ℕ) → List ℕ → ℕ → Bool → Encoded
format_encode fuel none src size nulls = if size == 0 then finished [] 0 else overread
format_encode fuel (some f) src size nulls = elim (format_is_valid (some f)) [
  | some true ↦ encode_loop fuel nulls f (start src size)
  | _ ↦ invalid_format
]
