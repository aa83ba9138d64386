-- ===== src/Responder/Octet.antt =====
-- A request whose parameter data is one octet, as a handler reads it.
use esp_dmx.Prelude.{
  ℕ, ◌≡◌, refl, true, false, some, List, [], ◌∷◌, arith, ltb, length, get_or, drop,
}
use esp_dmx.Format.{
  finished, returned, start, encode_tokens, encode_loop, format_encode, format_is_valid,
}
use esp_dmx.Packet.Read.{read_pd}
use esp_dmx.Responder.{Responder, Program, read_request}

-- "b$"
abbrev octet_format : List ℕ
octet_format = b'b' ∷ b'$' ∷ []

-- The buffer holds a request with the octet `x` as its parameter data.
pub record HasOctet (p : Program) (r : Responder) (x : ℕ) : Type 0 where
  pub rest : List ℕ
  pub first : ℕ
  pub others : List ℕ
  pub fuel_is : p.fuel ≡ 2
  pub stack_is : p.stack ≡ first ∷ others
  pub pdl_is : get_or r.driver.data_ 23 0 ≡ 1
  pub pd_is : drop 24 r.driver.data_ ≡ x ∷ rest

tokens :
    (x : ℕ) (rest : List ℕ)
    → encode_tokens true 0 octet_format (start (x ∷ rest) 1) ≡ returned (finished (x ∷ []) 1)
unfolding encode_tokens
tokens x rest = rw there refl
  where
    there : ltb (length (x ∷ rest)) 1 ≡ false
    there = ground arith

format_encode-octet :
    (x : ℕ) (rest : List ℕ)
    → format_encode 2 (some octet_format) (x ∷ rest) 1 true ≡ finished (x ∷ []) 1
unfolding format_encode format_is_valid esp_dmx.Format.check encode_loop
format_encode-octet x rest = rw (tokens x rest) refl

pub read_request-octet :
    {p : Program} {r : Responder} {x : ℕ}
    → HasOctet p r x
    → read_request p (some octet_format) 1 1 r ≡ some (1, x ∷ [])
unfolding read_request read_pd format_is_valid esp_dmx.Format.check
read_request-octet {p} {r} {x} has =
    rw (has.pdl_is, has.pd_is, has.fuel_is, has.stack_is, format_encode-octet x has.rest) refl
