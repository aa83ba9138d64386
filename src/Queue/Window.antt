-- ===== src/Queue/Window.antt =====
-- What a ring holds: the PIDs from `tail` up to `head`, going round at `max_size`.
use esp_dmx.Prelude.{
  ℕ, zero, suc, ◌+◌, ◌-◌, ◌<◌, ◌≤◌, ◌≡◌, refl, ap, ap₂, ◌⊎◌, inl, inr, List, [], ◌∷◌, ◌++◌, Bool,
  false, arith, ltb, ◌==◌, if◌then◌else◌, length, get_or, set, get_or-set_self, get_or-set_ne,
  Bool-cases, ◌||◌,
}
use esp_dmx.Queue.{Queue}

-- The index after one that may have reached the end.
abbrev pub norm : ℕ → ℕ → ℕ
norm max i = if i == max then 0 else i

abbrev pub window : List ℕ → ℕ → ℕ → ℕ → List ℕ
window buf max i zero = []
window buf max i (suc n) = get_or buf i 0 ∷ window buf max (norm max (i + 1)) n

abbrev pub count : Queue → ℕ
count q = if ltb q.head q.tail then q.head + q.max_size - q.tail else q.head - q.tail

abbrev pub contents : Queue → List ℕ
contents q = window q.buf q.max_size q.tail (count q)

abbrev pub contains : ℕ → List ℕ → Bool
contains a [] = false
contains a (x ∷ xs) = x == a || contains a xs

pub record IsValid (q : Queue) : Type 0 where
  pub max_pos : 0 < q.max_size
  pub max_small : q.max_size < 65536
  pub head_in : q.head < q.max_size
  pub tail_in : q.tail < q.max_size
  pub buf_length : length q.buf ≡ q.max_size

pub length-window : (buf : List ℕ) (max i n : ℕ) → length (window buf max i n) ≡ n
length-window buf max i zero = refl
length-window buf max i (suc n) = ap suc (length-window buf max (norm max (i + 1)) n)

-- `n` steps from index `i` lead to `head`, straight or once round the end.
abbrev pub Reaches : ℕ → ℕ → ℕ → ℕ → Type 0
Reaches max head i n = (i + n ≡ head) ⊎ ((i + n ≡ head + max) × (n < max))

pub tail-Reaches : {q : Queue} → IsValid q → Reaches q.max_size q.head q.tail (count q)
tail-Reaches {q} v = elim (Bool-cases (ltb q.head q.tail)) [
  | inl lt ↦ rw lt (inr (ground arith, ground arith))
  | inr ge ↦ rw ge (inl (ground arith))
]

Reaches-norm :
    (max head i n : ℕ)
    → i < max
    → head < max
    → Reaches max head i (suc n)
    → Reaches max head (norm max (i + 1)) n
Reaches-norm max head i n hi hh r = elim (Bool-cases (i + 1 == max)) [
  | inl e ↦ rw e (inl (ground arith))
  | inr e ↦
      rw e (elim r [ inl a ↦ inl (omega arith) | inr (a, b) ↦ inr (omega arith, omega arith) ])
]

-- Writing just past a window extends it by what is written.
pub window-set :
    (buf : List ℕ) (max head x i n : ℕ)
    → head < length buf
    → head < max
    → i < max
    → n < max
    → suc n ≤ max
    → Reaches max head i n
    → window (set buf head x) max i (suc n) ≡ window buf max i n ++ (x ∷ [])
window-set buf max head x i zero hb hh hi hn hs r =
    let e : i ≡ head = omega arith in rw e (ap (λ y. y ∷ []) (get_or-set_self buf head x 0 hb))
window-set buf max head x i (suc n) hb hh hi hn hs r =
    ap₂ ◌∷◌ (get_or-set_ne buf head i x 0 (omega arith)) (
      window-set buf max head x (norm max (i + 1)) n hb hh (ground arith) (omega arith)
        (omega arith) (Reaches-norm max head i n hi hh r))
