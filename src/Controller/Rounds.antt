-- ===== src/Controller/Rounds.antt =====
-- One round of the search on a lossless bus: what `visit` does with a range of numbers.
use esp_dmx.Prelude.{
  ℕ, zero, suc, ◌+◌, ◌/◌, ◌^◌, ◌<◌, ◌≤◌, ◌≡◌, ◌≢◌, refl, sym, ap, ◌∙◌, inl, inr, List, [], ◌∷◌,
  ◌++◌, Bool, true, false, arith, ltb, ◌==◌, length, map, append-nil, Bool-cases, ne→==, ==_refl,
}
use esp_dmx.Uid.{number, uid_is_eq, uid_is_target}
use esp_dmx.Controller.{
  Bus, Branch, Search, found, ack_ok, ack_none, of_number, mute_attempts, branch_attempts,
  visit_one, lower_half, upper_half, visit,
}
use esp_dmx.Controller.Ranges.{between, has, between-one}
use esp_dmx.Controller.Lossless.{IsLossless}

pub number-of_number : (n : ℕ) → n < 2 ^ 48 → number (of_number n) ≡ n
number-of_number n h = omega arith

same_iff :
    (lo hi : ℕ) → lo < 2 ^ 48 → hi < 2 ^ 48 → uid_is_eq (of_number lo) (of_number hi) ≡ (lo == hi)
unfolding uid_is_eq
same_iff lo hi h k = ground arith

-- A UID targets no device above it: the broadcast UID of a manufacturer is the last one of its own.
not_target : (n m : ℕ) → n < m → m < 2 ^ 48 → uid_is_target (of_number m) (of_number n) ≡ false
unfolding uid_is_target uid_is_eq
not_target n m h k = ground arith

abbrev pub range : ℕ → ℕ → Branch
range lo hi = record { lower_bound = of_number lo; upper_bound = of_number hi }

pub halves :
    (lo hi : ℕ)
    → lo < 2 ^ 48
    → hi < 2 ^ 48
    → (lower_half (range lo hi) ≡ range lo ((lo + hi) / 2))
      × (upper_half (range lo hi) ≡ range ((lo + hi) / 2 + 1) hi)
unfolding lower_half upper_half
halves lo hi h k = (ap (λ n. range lo (n / 2)) sum, ap (λ n. range (n / 2 + 1) hi) sum)
  where
    sum : number (of_number lo) + number (of_number hi) ≡ lo + hi
    sum = omega (arith, number-of_number lo h, number-of_number hi k)

module _ {S : Type 0} (b : Bus S) (devs : List ℕ) (muted : S → ℕ → Bool)
    (net : IsLossless b devs muted) where
  -- Nothing above `hi` changes between two states of the bus.
  abbrev pub Keeps : ℕ → S → S → Type 0
  Keeps hi s s' = (m : ℕ) → hi < m → m < 2 ^ 48 → muted s' m ≡ muted s m

  mute_above : (n : ℕ) (s : S) → n < 2 ^ 48 → Keeps n s (b.send_mute (of_number n) s).1
  mute_above n s h m above fits = net.mute_others n m s h fits (not_target n m above fits)

  abbrev pub Fresh : ℕ → ℕ → S → Type 0
  Fresh lo hi s = (m : ℕ) → lo ≤ m → m ≤ hi → muted s m ≡ false

  -- The attempts end at a reply that satisfies the first one's law.
  mute_present :
      (k n : ℕ) (s : S)
      → n < 2 ^ 48
      → has n devs ≡ true
      → mute_attempts b k (of_number n) s ≡ b.send_mute (of_number n) s
  unfolding mute_attempts
  mute_present zero n s h e = refl
  mute_present (suc k) n s h e = rw (net.mute_found n s h e) refl

  mute_missing :
      (k n : ℕ) (s : S)
      → n < 2 ^ 48
      → has n devs ≡ false
      → ((mute_attempts b k (of_number n) s).0.response ≢ ack_ok)
        × Keeps n s (mute_attempts b k (of_number n) s).1
  unfolding mute_attempts
  mute_missing zero n s h e = (net.mute_absent n s h e, mute_above n s h)
  mute_missing (suc k) n s h e =
      let (not_ok, keeps) = mute_missing k n (b.send_mute (of_number n) s).1 h e in
      rw (ne→== _ ack_ok (net.mute_absent n s h e))
        (not_ok, λ m above fits. keeps m above fits ∙ mute_above n s h m above fits)

  branch_occupied :
      (k lo hi : ℕ) (s : S)
      → lo < 2 ^ 48
      → hi < 2 ^ 48
      → between lo hi devs ≢ []
      → Fresh lo hi s
      → branch_attempts b k (range lo hi) s ≡ b.send_branch (of_number lo) (of_number hi) s
  unfolding branch_attempts
  branch_occupied zero lo hi s h h' some_one fresh = refl
  branch_occupied (suc k) lo hi s h h' some_one fresh =
      rw (ne→== _ ack_none (net.branch_answers lo hi s h h' some_one fresh)) refl

  branch_empty :
      (k lo hi : ℕ) (s : S)
      → lo < 2 ^ 48
      → hi < 2 ^ 48
      → between lo hi devs ≡ []
      → ((branch_attempts b k (range lo hi) s).0.response ≡ ack_none)
        × ((m : ℕ) → muted (branch_attempts b k (range lo hi) s).1 m ≡ muted s m)
  unfolding branch_attempts
  branch_empty zero lo hi s h h' nobody =
      (net.branch_silent lo hi s h h' nobody, λ m. net.branch_muted lo hi m s)
  branch_empty (suc k) lo hi s h h' nobody =
      let (silent, keeps) =
        branch_empty k lo hi (b.send_branch (of_number lo) (of_number hi) s).1 h h' nobody in
      rw (net.branch_silent lo hi s h h' nobody) (silent, λ m. keeps m ∙ net.branch_muted lo hi m s)

  -- The search's state when the devices `us` have been reported.
  abbrev pub after : List Branch → List ℕ → Search S → S → Search S
  after rest us st s' = record {
    stack = rest;
    calls = st.calls ++ map of_number us;
    num_found = st.num_found + length us;
    bus = s';
  }

  pub search_ext :
      {st st' : Search S}
      → st.stack ≡ st'.stack
      → st.calls ≡ st'.calls
      → st.num_found ≡ st'.num_found
      → st.bus ≡ st'.bus
      → st ≡ st'
  search_ext p q r s = λ i. record { stack = p i; calls = q i; num_found = r i; bus = s i }

  abbrev pub Visited : ℕ → ℕ → Search S → Type 0
  Visited lo hi st =
      (s' : S) × Keeps hi st.bus s'
      × (visit b (range lo hi) st ≡ found (after st.stack (between lo hi devs) st s'))

  -- A range of one number: its device is muted and reported, if there is one.
  pub visit_single : (n : ℕ) (st : Search S) → n < 2 ^ 48 → Visited n n st
  unfolding visit
  visit_single n st h = elim (Bool-cases (has n devs)) [
    | inl e ↦
        let one : between n n devs ≡ n ∷ [] = rw e at (between-one n devs net.sorted) in
        (
          (b.send_mute (of_number n) st.bus).1,
          mute_above n st.bus h,
          rw (same_iff n n h h, ==_refl, one)
              (unfold visit_one in
                rw (mute_present 2 n st.bus h e, net.mute_found n st.bus h e) refl),
        )
    | inr e ↦
        let (not_ok, keeps) = mute_missing 2 n st.bus h e in
        let no_one : between n n devs ≡ [] = rw e at (between-one n devs net.sorted) in
        (
          (mute_attempts b 2 (of_number n) st.bus).1,
          keeps,
          rw (same_iff n n h h, ==_refl, no_one)
              (unfold visit_one in
                rw (ne→== _ ack_ok not_ok)
                  (ap found (search_ext refl (sym (append-nil st.calls)) (omega arith) refl))),
        )
  ]

  -- A longer range without devices is dropped.
  pub visit_empty :
      (lo hi : ℕ) (st : Search S)
      → lo < hi
      → hi < 2 ^ 48
      → between lo hi devs ≡ []
      → Visited lo hi st
  unfolding visit
  visit_empty lo hi st lt h nobody =
      let (silent, keeps) = branch_empty 2 lo hi st.bus (omega arith) h nobody in
      (
        (branch_attempts b 2 (range lo hi) st.bus).1,
        λ m above fits. keeps m,
        rw (same_iff lo hi (omega arith) h, ne→== lo hi (omega arith), nobody, silent)
            (ap found (search_ext refl (sym (append-nil st.calls)) (omega arith) refl)),
      )

  -- A longer range with devices is put back as its two halves.
  pub visit_split :
      (lo hi : ℕ) (st : Search S)
      → lo < hi
      → hi < 2 ^ 48
      → between lo hi devs ≢ []
      → Fresh lo hi st.bus
      → length st.stack + 2 ≤ 49
      → (s' : S) × ((m : ℕ) → muted s' m ≡ muted st.bus m)
        × (visit b (range lo hi) st
            ≡ found (record st {
              stack = range lo ((lo + hi) / 2) ∷ range ((lo + hi) / 2 + 1) hi ∷ st.stack;
              bus = s';
            }))
  unfolding visit
  visit_split lo hi st lt h some_one fresh room =
      let sent = b.send_branch (of_number lo) (of_number hi) st.bus in
      let (low, high) = halves lo hi (omega arith) h in
      (
        sent.1,
        λ m. net.branch_muted lo hi m st.bus,
        rw
            (
              same_iff lo hi (omega arith) h,
              ne→== lo hi (omega arith),
              branch_occupied 2 lo hi st.bus (omega arith) h some_one fresh,
              ne→== _ ack_none (net.branch_answers lo hi st.bus (omega arith) h some_one fresh),
              no_overflow,
            )
            (λ i. found (record st { stack = low i ∷ high i ∷ st.stack; bus = sent.1 })),
      )
    where
      no_overflow : ltb 49 (length st.stack + 2) ≡ false
      no_overflow = ground arith
