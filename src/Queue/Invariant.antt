-- ===== src/Queue/Invariant.antt =====
-- The ring stays free of repetitions.
use esp_dmx.Prelude.{
  ℕ, ◌+◌, ◌<◌, ◌≡◌, refl, ap, inl, inr, List, [], ◌∷◌, ◌++◌, Bool, false, some, arith, ltb, length,
  Bool-cases, ◌==◌, ◌||◌,
}
use esp_dmx.Queue.{Queue, push}
use esp_dmx.Queue.Window.{IsValid, count, contents, contains}
use esp_dmx.Queue.Refine.{spec_push, push_refines}

-- No PID stands twice.
abbrev pub IsDistinct : List ℕ → Type 0
IsDistinct [] = Unit
IsDistinct (x ∷ xs) = (contains x xs ≡ false) × IsDistinct xs

contains-snoc : (a x : ℕ) (xs : List ℕ) → contains a (xs ++ (x ∷ [])) ≡ (contains a xs || (x == a))
contains-snoc a x [] = ground arith
contains-snoc a x (y ∷ xs) = ground (arith, contains-snoc a x xs)

snoc-IsDistinct :
    (x : ℕ) (xs : List ℕ) → contains x xs ≡ false → IsDistinct xs → IsDistinct (xs ++ (x ∷ []))
snoc-IsDistinct x [] h d = (refl, tt)
snoc-IsDistinct x (y ∷ xs) h (new, d) =
    (ground (arith, contains-snoc y x xs), snoc-IsDistinct x xs (ground arith) d)

spec_push-IsDistinct :
    (cap : ℕ) (xs : List ℕ) (x : ℕ) → IsDistinct xs → IsDistinct (spec_push cap xs x).1
spec_push-IsDistinct cap xs x d = elim (Bool-cases (contains x xs)) [
  | inl e ↦ rw e d
  | inr e ↦ elim (Bool-cases (ltb (length xs + 1) cap)) [
    | inl room ↦ rw (e, room) (snoc-IsDistinct x xs e d)
    | inr full ↦ rw (e, full) d
  ]
]

-- A push that returns leaves no PID twice in a ring that held none twice, on a well-formed ring
-- whose head has not wrapped round to index 0 behind the entries.
pub push-IsDistinct :
    {q q' : Queue} {b : Bool} (fuel pid : ℕ)
    → IsValid q
    → (q.head ≡ 0 → q.tail ≡ 0)
    → 0 < pid
    → count q < fuel
    → push fuel q pid ≡ some (b, q')
    → IsDistinct (contents q)
    → IsDistinct (contents q')
push-IsDistinct {q} {q'} {b} fuel pid v straight hp hf ran d =
    let (r, runs, same, keeps) = push_refines fuel pid v straight hp hf in
    let answer : ◌≡◌ {A = Bool × Queue} (b, q') r = cc in
    let e : contents q' ≡ contents r.1 = ap (λ (o : Bool × Queue). contents o.1) answer in
    rw (e, ap (λ (o : Bool × List ℕ). o.1) same)
      (spec_push-IsDistinct q.max_size (contents q) pid d)
