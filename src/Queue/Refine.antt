-- ===== src/Queue/Refine.antt =====
-- `rdm_queue_push`, `rdm_queue_pop` and `rdm_queue_size` against a bounded list without repetitions.
use esp_dmx.Prelude.{
  ℕ, zero, suc, ◌+◌, ◌-◌, ◌%◌, ◌<◌, ◌≤◌, ◌≡◌, refl, ap, ◌∙◌, ◌⊎◌, inl, inr, List, [], ◌∷◌, ◌++◌,
  Bool, true, false, some, arith, ltb, ◌==◌, if◌then◌else◌, length, get_or, set, length-set,
  Bool-cases, ◌≢◌, min,
}
use native.Mathlib.Nat.{mod-eq_of_lt, mod-eq-sub-mod}
use esp_dmx.Queue.{Queue, scan, store, push, pop, size}
use esp_dmx.Queue.Window.{
  IsValid, norm, window, count, contents, contains, length-window, tail-Reaches, window-set,
}

-- A push on a list of at most `cap - 1` PIDs: one that is present stays where it is, a new one goes
-- to the end if there is room.
abbrev pub spec_push : ℕ → List ℕ → ℕ → Bool × List ℕ
spec_push cap xs x =
    if contains x xs
    then (true, xs)
    else if ltb (length xs + 1) cap
    then (true, xs ++ (x ∷ []))
    else (false, xs)

abbrev pub spec_pop : List ℕ → ℕ × List ℕ
spec_pop [] = (0, [])
spec_pop (x ∷ xs) = (x, xs)

-- `n` indices are to be read from `i` on, where `i` may have reached the end.
abbrev ToRead : Queue → ℕ → ℕ → Type 0
ToRead q i n = (i + n ≡ q.head) ⊎ ((i + n ≡ q.head + q.max_size) × (0 < q.head) × (n < q.max_size))

scan-contains :
    {q : Queue} (fuel pid i n : ℕ)
    → IsValid q
    → n < fuel
    → i ≤ q.max_size
    → ToRead q i n
    → scan fuel q pid i ≡ some (contains pid (window q.buf q.max_size (norm q.max_size i) n))
unfolding scan
scan-contains zero pid i n v hf hi r = elim hf [ ]
scan-contains {q} (suc fuel) pid i zero v hf hi r =
    let e : i ≡ q.head = omega arith in rw e (ground arith)
scan-contains {q} (suc fuel) pid i (suc n) v hf hi r = elim (Bool-cases (i == q.max_size)) [
  | inl e ↦
      let r' : ToRead q 1 n = inl (ground arith) in
      rw e (ground (arith, scan-contains {q = q} fuel pid 1 n v (omega arith) (omega arith) r'))
  | inr e ↦
      let r' : ToRead q (i + 1) n = elim r [
        | inl a ↦ inl (omega arith)
        | inr (a, b, c) ↦ inr (omega arith, b, omega arith)
      ] in
      let hi' : i + 1 ≤ q.max_size = ground arith in
      let ne : i ≢ q.head = omega arith in
      rw e (ground (arith, scan-contains {q = q} fuel pid (i + 1) n v (omega arith) hi' r'))
]

-- An end that wrapped round to index 0 while entries remain is the case that `scan` never leaves.
abbrev pub IsWrappedToZero : Queue → Type 0
IsWrappedToZero q = (q.head ≡ 0) × (0 < q.tail)

-- Advancing the head by one puts one more index in the window.
advanced : Queue → ℕ → Queue
advanced q pid = record q { buf = set q.buf q.head pid; head = norm q.max_size (q.head + 1) }

abbrev full : Queue → Bool
full q = if ltb (count q + 1) q.max_size then false else true

mod_wrap : (h m : ℕ) → h < m → (h + 1) % m ≡ norm m (h + 1)
mod_wrap h m lt = elim (Bool-cases (h + 1 == m)) [
  | inl e ↦ rw e (
      ground (
        arith,
        mod-eq-sub-mod {n = h + 1} {m = m} (ground arith),
        mod-eq_of_lt {n = h + 1 - m} {m = m},
      ))
  | inr e ↦ rw e (mod-eq_of_lt (ground arith))
]

full_lem : {q : Queue} → IsValid q → ((q.head + 1) % q.max_size == q.tail) ≡ full q
full_lem {q} v = rw (mod_wrap q.head q.max_size v.head_in) (ground arith)

count-advanced :
    {q : Queue} (pid : ℕ)
    → IsValid q
    → count q + 1 < q.max_size
    → count (advanced q pid) ≡ suc (count q)
unfolding advanced
count-advanced pid v room = ground arith

contents-advanced :
    {q : Queue} (pid : ℕ)
    → IsValid q
    → count q + 1 < q.max_size
    → contents (advanced q pid) ≡ contents q ++ (pid ∷ [])
unfolding advanced
contents-advanced {q} pid v room =
    ap (λ n. window (set q.buf q.head pid) q.max_size q.tail n) (count-advanced {q = q} pid v room)
    ∙ window-set q.buf q.max_size q.head pid q.tail (count q) (omega arith) v.head_in v.tail_in
        (omega arith) (omega arith) (tail-Reaches v)

advanced-IsValid : {q : Queue} (pid : ℕ) → IsValid q → IsValid (advanced q pid)
unfolding advanced
advanced-IsValid {q} pid v = ground (arith, length-set q.buf q.head pid)

store-absent :
    {q : Queue} (pid : ℕ)
    → IsValid q
    → store q pid false
      ≡ (if ltb (count q + 1) q.max_size then (true, advanced q pid) else (false, q))
unfolding store advanced
store-absent {q} pid v = rw (full_lem {q = q} v) (ground arith)

store_refines :
    {q : Queue} (pid : ℕ)
    → IsValid q
    → let r = store q pid (contains pid (contents q)) in
      ((r.0, contents r.1) ≡ spec_push q.max_size (contents q) pid) × IsValid r.1
store_refines {q} pid v = elim (Bool-cases (contains pid (contents q))) [
  | inl e ↦ rw e (unfold store in (refl, v))
  | inr e ↦
      rw (e, store-absent pid v, length-window q.buf q.max_size q.tail (count q))
        (ground (arith, contents-advanced {q = q} pid v, advanced-IsValid {q = q} pid v))
]

-- `rdm_queue_push` on a well-formed ring whose head has not wrapped round to index 0 behind the
-- entries: with fuel for the entries and one round more it returns, says what the bounded list
-- says, and leaves the ring well formed and holding that list.
pub push_refines :
    {q : Queue} (fuel pid : ℕ)
    → IsValid q
    → (q.head ≡ 0 → q.tail ≡ 0)
    → 0 < pid
    → count q < fuel
    → (r : Bool × Queue) × (push fuel q pid ≡ some r)
      × ((r.0, contents r.1) ≡ spec_push q.max_size (contents q) pid)
      × IsValid r.1
unfolding push
push_refines {q} fuel pid v straight hp hf =
    let (same, keeps) = store_refines pid v in
    (store q pid (contains pid (contents q)), rw found (ground arith), same, keeps)
  where
    start : ToRead q q.tail (count q)
    start = elim (Bool-cases (ltb q.head q.tail)) [
      | inl e ↦ rw e (inr (ground arith, ground arith, ground arith))
      | inr e ↦ rw e (inl (ground arith))
    ]

    found : scan fuel q pid q.tail ≡ some (contains pid (contents q))
    found =
        scan-contains fuel pid q.tail (count q) v hf (omega arith) start
        ∙ ap (λ i. some (contains pid (window q.buf q.max_size i (count q)))) (ground arith)

popped : Queue → Queue
popped q = record q { tail = norm q.max_size (q.tail + 1); previous = get_or q.buf q.tail 0 }

pop-cases :
    {q : Queue}
    → IsValid q
    → pop q ≡ (if ltb 0 (count q) then (get_or q.buf q.tail 0, popped q) else (0, q))
unfolding pop popped
pop-cases v = ground arith

count-popped : {q : Queue} → IsValid q → 0 < count q → count q ≡ suc (count (popped q))
unfolding popped
count-popped v h = ground arith

popped-IsValid : {q : Queue} → IsValid q → IsValid (popped q)
unfolding popped
popped-IsValid v = ground arith

contents-popped :
    {q : Queue} → IsValid q → 0 < count q → contents q ≡ get_or q.buf q.tail 0 ∷ contents (popped q)
unfolding popped
contents-popped {q} v h = ap (λ n. window q.buf q.max_size q.tail n) (count-popped v h)

-- `rdm_queue_pop` on a well-formed ring returns the oldest PID, or 0 if there is none, removes it,
-- and leaves the ring well formed.
pub pop_refines :
    {q : Queue}
    → IsValid q
    → let r = pop q in ((r.0, contents r.1) ≡ spec_pop (contents q)) × IsValid r.1
pop_refines {q} v = elim (Bool-cases (ltb 0 (count q))) [
  | inl e ↦ rw (pop-cases v, e, contents-popped v (ground arith)) (refl, popped-IsValid v)
  | inr e ↦
      let z : count q ≡ 0 = ground arith in
      let nil : contents q ≡ [] = ap (λ n. window q.buf q.max_size q.tail n) z in
      rw (pop-cases v, e, nil) (refl, v)
]

-- `rdm_queue_size` is the number of PIDs that the ring holds, or 255 if it holds more.
pub size-length : {q : Queue} → IsValid q → size q ≡ min 255 (length (contents q))
unfolding size
size-length {q} v = rw (length-window q.buf q.max_size q.tail (count q)) (ground arith)
