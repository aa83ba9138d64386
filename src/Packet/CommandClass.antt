-- ===== src/Packet/CommandClass.antt =====
-- What the macros `rdm_cc_is_valid` and `rdm_cc_is_request` say of an octet.
use esp_dmx.Prelude.{
  ℕ, ◌%◌, ◌<◌, ◌≡◌, refl, ◌↔◌, ◌⊎◌, true, arith, ◌==◌, ◌&&◌, bit_and, holds_below,
  holds_below→holds,
}
use esp_dmx.Packet.{cc_is_valid, cc_is_request}

masks_table : holds_below 256 (λ x. bit_and x 0xf == x % 16 && bit_and x 1 == x % 2) ≡ true
unfolding holds_below
masks_table = refl

masks : (x : ℕ) → x < 256 → (bit_and x 0xf ≡ x % 16) × (bit_and x 1 ≡ x % 2)
masks x h =
    let both : (bit_and x 0xf == x % 16 && bit_and x 1 == x % 2) ≡ true =
      holds_below→holds 256 _ x masks_table h in
    (ground arith, ground arith)

-- For an octet the validity check looks at the low four bits alone, since it shifts the others out:
-- it accepts exactly the octets that end in 0 or 1, whatever command class their high bits name.
pub valid_iff : (cc : ℕ) → cc < 256 → (cc_is_valid cc ≡ true) ↔ ((cc % 16 ≡ 0) ⊎ (cc % 16 ≡ 1))
unfolding cc_is_valid
valid_iff cc h = let m = (masks cc h).0 in (λ e. grind arith, λ e. grind arith)

-- A response's command class is that of the request with the lowest bit set.
pub request_iff : (cc : ℕ) → cc < 256 → (cc_is_request cc ≡ true) ↔ (cc % 2 ≡ 0)
unfolding cc_is_request
request_iff cc h = let m = (masks cc h).1 in (λ e. ground arith, λ e. ground arith)
