-- ===== src/Uart/Parse/Prefix.antt =====
-- The parser of dmx_uart_isr on the first slots of a standard RDM packet.
use esp_dmx.Prelude.{
  ℕ, zero, suc, ◌+◌, ◌<◌, ◌≤◌, ◌≡◌, refl, sym, ◌∙◌, true, false, some, List, [], ◌∷◌, ◌++◌, arith,
  ltb, leb, length, get_or,
}
use esp_dmx.Packet.{Header, sc, sub_sc, cc_is_valid}
use esp_dmx.Packet.Read.{read_header}
use esp_dmx.Uart.{Link}
use esp_dmx.Uart.Parse.{parse_rdm, received}

-- A list starts with the octets of a whole packet that is read as the header `h`.
pub record IsFrame (xs : List ℕ) (h : Header) : Type 0 where
  pub starts : get_or xs 0 0 ≡ sc
  pub continues : get_or xs 1 0 ≡ sub_sc
  pub len : length xs ≡ get_or xs 2 0 + 2
  pub at_least_24 : 24 ≤ get_or xs 2 0
  pub fits : length xs ≤ 257
  pub cc_valid : cc_is_valid (get_or xs 20 0) ≡ true
  pub reads : (rest : List ℕ) → read_header (xs ++ rest) ≡ some h

pub get_or-front : (a b : List ℕ) (i : ℕ) → i < length a → get_or (a ++ b) i 0 ≡ get_or a i 0
get_or-front [] b i h = absurd (omega arith)
get_or-front (x ∷ a) b zero h = refl
get_or-front (x ∷ a) b (suc i) h = get_or-front a b i (omega arith)

-- Two lists with the same front agree there.
pub get_or-same :
    (a b c : List ℕ) (i : ℕ) → i < length a → get_or (a ++ b) i 0 ≡ get_or (a ++ c) i 0
get_or-same a b c i h = get_or-front a b i h ∙ sym (get_or-front a c i h)

-- The conditions the parser tests, on the slots before the head.
pub record Looks (l : Link) (n len : ℕ) : Type 0 where
  pub at_head : l.head ≡ some n
  pub second : get_or l.data_ 1 0 ≡ sub_sc
  pub third : get_or l.data_ 2 0 ≡ len
  pub valid : cc_is_valid (get_or l.data_ 20 0) ≡ true

pub parse_rdm-few :
    (now : ℕ) (l : Link) (n : ℕ) → l.head ≡ some n → n < 26 → parse_rdm now l ≡ (false, l)
unfolding parse_rdm
parse_rdm-few now l n e h = let t : leb 26 n ≡ false = ground arith in rw (e, t) refl

pub parse_rdm-short :
    (now : ℕ) (l : Link) (n len : ℕ)
    → Looks l n len
    → 26 ≤ n
    → 24 ≤ len
    → n < len + 2
    → parse_rdm now l ≡ (false, l)
unfolding parse_rdm
parse_rdm-short now l n len v a b c =
    let t : leb 26 n ≡ true = ground arith in
    let u : ltb len 24 ≡ false = ground arith in
    let w : leb (len + 2) n ≡ false = ground arith in
    rw (v.at_head, t, v.second, v.third, v.valid, u, w) refl

pub parse_rdm-whole :
    (now : ℕ) (l : Link) (n len : ℕ) (h : Header)
    → Looks l n len
    → 24 ≤ len
    → n ≡ len + 2
    → read_header l.data_ ≡ some h
    → parse_rdm now l ≡ (true, received now l)
unfolding parse_rdm
parse_rdm-whole now l n len h v a c d =
    let t : leb 26 n ≡ true = ground arith in
    let u : ltb len 24 ≡ false = ground arith in
    let w : leb (len + 2) n ≡ true = ground arith in
    rw (v.at_head, t, v.second, v.third, v.valid, u, w, d) refl
