-- ===== src/Product/Label.antt =====
-- The label of a device, as its registration leaves it.
use esp_dmx.Prelude.{
  ℕ, zero, suc, ◌-◌, ◌<◌, ◌≤◌, ◌≡◌, refl, sym, ap, ◌∙◌, true, Option, none, some, List, [], ◌∷◌,
  ◌++◌, arith, ltb, length, length-append, take, replicate, ne→==,
}
use esp_dmx.Format.{strnlen, format_is_valid}
use esp_dmx.Packet.Layout.{take-append}
use esp_dmx.Parameter.{Store, get_entry}
use esp_dmx.Parameter.Access.{exists_}
use esp_dmx.Parameter.Added.{HasRoom, length-replicate}
use esp_dmx.Parameter.RoundTrip.{copy_HasData}
use esp_dmx.Responder.Defined.{IsDefinable}
use esp_dmx.Responder.Register.{definition_is_ok, has_handlers}
use esp_dmx.Setup.Registered.{add_local-defined}
use esp_dmx.Supported.{copied_text}
use esp_dmx.Product.{get_device_label}
use esp_dmx.Product.Register.{label_definition, register_device_label}

-- The characters of a text are not 0.
abbrev pub AreCharacters : List ℕ → Type 0
AreCharacters [] = Unit {0}
AreCharacters (x ∷ xs) = (0 < x) × AreCharacters xs

abbrev pub padded : ℕ → List ℕ → List ℕ
padded n text = text ++ replicate (n - length text) 0

pub strnlen-text :
    (n : ℕ) (text rest : List ℕ)
    → AreCharacters text
    → length text < n
    → strnlen n (text ++ (0 ∷ rest)) ≡ some (length text)
strnlen-text zero text rest c lt = absurd (omega arith)
strnlen-text (suc n) [] rest c lt = refl
strnlen-text (suc n) (x ∷ text) rest (pos, c) lt =
    rw (ne→== x 0 (omega arith), strnlen-text n text rest c (omega arith)) refl

pub copied_text-text :
    (n : ℕ) (text rest : List ℕ)
    → AreCharacters text
    → length text ≤ n
    → copied_text n (text ++ (0 ∷ rest)) ≡ some (padded n text)
unfolding copied_text
copied_text-text zero [] rest c le = refl
copied_text-text zero (x ∷ text) rest c le = absurd (omega arith)
copied_text-text (suc n) [] rest c le =
    let all : suc n ≡ suc n - 0 = omega arith in ap (λ m. some (replicate m 0)) all
copied_text-text (suc n) (x ∷ text) rest (pos, c) le =
    let fewer : suc n - suc (length text) ≡ n - length text = omega arith in
    rw (ne→== x 0 (omega arith), copied_text-text n text rest c (omega arith), fewer) refl

pub length-padded : (n : ℕ) (text : List ℕ) → length text ≤ n → length (padded n text) ≡ n
length-padded n text le = omega (
  arith,
  length-append text (replicate (n - length text) 0),
  length-replicate (n - length text) 0,
)

take_all : (xs : List ℕ) → take (length xs) xs ≡ xs
take_all [] = refl
take_all (x ∷ xs) = ap (λ ys. x ∷ ys) (take_all xs)

first_part :
    (value : List ℕ) (last_ : ℕ)
    → length value ≡ 32
    → take 32 (take 33 (value ++ (last_ ∷ []))) ≡ value
first_part value last_ e =
    let whole : 33 ≡ length (value ++ (last_ ∷ [])) =
      omega (arith, length-append value (last_ ∷ []), e) in
    ap (take 32) (ap (λ k. take k (value ++ (last_ ∷ []))) whole ∙ take_all (value ++ (last_ ∷ [])))
    ∙ ap (λ k. take k (value ++ (last_ ∷ []))) (sym e)
    ∙ take-append value (last_ ∷ [])

label_definition-IsDefinable : IsDefinable label_definition
unfolding format_is_valid esp_dmx.Format.check definition_is_ok has_handlers
label_definition-IsDefinable = record {
  ok = refl;
  get_request = refl;
  get_response = refl;
  set_request = refl;
  set_response = refl;
}

-- `rdm_register_device_label` of a text of up to 32 characters, on a root device with room for the
-- parameter, which it does not have, returns true, and `rdm_get_device_label` with room for 32
-- characters then returns 32 and the text, padded with zeros.
pub register_device_label-get :
    {s : Store} (text rest : List ℕ) (last_ address : ℕ) (callback context : Option ℕ)
    → HasRoom s 0x0082
    → get_entry s 0 0x0082 ≡ some none
    → AreCharacters text
    → length text ≤ 32
    → (s' : Store) × (register_device_label true s
          (some (text ++ (0 ∷ rest)))
          last_
          address
          callback
          context
        ≡ some (true, s'))
      × (get_device_label s' 32 ≡ some (32, padded 32 text))
unfolding register_device_label get_device_label exists_
register_device_label-get {s} text rest last_ address callback context room missing c le =
    let value = padded 32 text in
    let whole : length (value ++ (last_ ∷ [])) ≡ 33 =
      omega (arith, length-append value (last_ ∷ []), length-padded 32 text le) in
    let (s', d', e, found, has) =
      add_local-defined address label_definition callback context (value ++ (last_ ∷ [])) 33 room
        (omega arith) label_definition-IsDefinable (omega (arith, whole)) in
    (
      s',
      rw
          (
            missing,
            strnlen-text 33 text rest c (omega arith),
            passes,
            copied_text-text 32 text rest c le,
            e,
          )
          refl,
      copy_HasData has 32 (omega arith)
          ∙ ap (λ xs. some (32, xs)) (first_part value last_ (length-padded 32 text le)),
    )
  where
    passes : ltb (length text) 33 ≡ true
    passes = ground arith
