-- ===== src/Product/Language.antt =====
-- The language of a device.
use esp_dmx.Prelude.{ℕ, ◌<◌, ◌≡◌, refl, Bool, false, Option, none, some, List, ◌∷◌, arith, ne→==}
use esp_dmx.Parameter.{Store}
use esp_dmx.Parameter.Access.{get_data}
use esp_dmx.Setup.{not_set}
use esp_dmx.Product.{language_passes, set_language}
use esp_dmx.Product.Register.{register_language}

two_refused :
    (a b : ℕ) (rest : List ℕ) → 0 < a → 0 < b → language_passes (a ∷ b ∷ 0 ∷ rest) ≡ some false
two_refused a b rest h k = rw (ne→== a 0 (omega arith), ne→== b 0 (omega arith)) refl

-- `rdm_register_language` and `rdm_set_language` return false for each code of two characters and
-- change nothing, the first on a device that does not have the parameter yet.
pub language-two :
    (memory : Bool) (s : Store) (a b : ℕ) (rest : List ℕ) (address : ℕ)
    (callback context : Option ℕ)
    → 0 < a
    → 0 < b
    → get_data s 0 0x00b0 ≡ some none
    → (register_language memory s (some (a ∷ b ∷ 0 ∷ rest)) address callback context
        ≡ some (false, s))
      × (set_language s (some (a ∷ b ∷ 0 ∷ rest)) ≡ some (not_set s))
unfolding register_language set_language
language-two memory s a b rest address callback context h k missing =
    (rw (missing, two_refused a b rest h k) refl, rw (two_refused a b rest h k) refl)
