-- ===== src/Controller/Complete.antt =====
-- The whole search on a lossless bus: every device is found once, in order, within the stack.
use esp_dmx.Prelude.{
  ℕ, zero, suc, ◌+◌, ◌-◌, ◌*◌, ◌/◌, ◌^◌, ◌<◌, ◌≤◌, ◌≡◌, ◌≢◌, refl, sym, ap, ◌∙◌, inl, inr, ◌⊎◌,
  List, [], ◌∷◌, ◌++◌, Bool, arith, length, length-append, map, append_assoc, ltb, Bool-cases, some,
  set, length-set, write_at,
}
use native.Mathlib.Nat.{pow-suc}
use mathlib.Core.Path.{subst}
use esp_dmx.Uid.{Uid, uid_broadcast_all}
use esp_dmx.Controller.{
  Bus, Branch, Search, found, of_number, visit, search_loop, discover, store_calls,
  discover_devices_simple, disc_cb,
}
use esp_dmx.Controller.Ranges.{between, between-split}
use esp_dmx.Controller.Lossless.{IsLossless}
use esp_dmx.Controller.Rounds.{
  range, Keeps, Fresh, after, Visited, search_ext, visit_single, visit_empty, visit_split,
}

map-append : (xs ys : List ℕ) → map of_number (xs ++ ys) ≡ map of_number xs ++ map of_number ys
map-append [] ys = refl
map-append (x ∷ xs) ys = ap (λ us. of_number x ∷ us) (map-append xs ys)

the_same : (a b : ℕ) → a ≤ b → b ≤ a → a ≡ b
the_same a b h k = omega arith

rounds :
    (k m n l c d : ℕ)
    → l ≡ m + n
    → 1 ≤ l
    → c ≤ 2 * k * m
    → d ≤ 2 * k * n
    → 2 + c + d ≤ 2 * suc k * l
rounds k m n l c d e one p q = rw e (omega (arith, distrib))
  where
    distrib : 2 * suc k * (m + n) ≡ 2 * k * m + 2 * k * n + 2 * m + 2 * n
    distrib = omega arith

enough_fuel : (l c fuel : ℕ) → c ≤ 2 * 48 * l → 1 + 96 * l ≤ fuel → fuel ≡ suc (c + (fuel - suc c))
enough_fuel l c fuel few enough = omega arith

list_cases : (xs : List ℕ) → (xs ≡ []) ⊎ ((xs ≢ []) × (1 ≤ length xs))
list_cases [] = inl refl
list_cases (x ∷ xs) = inr (λ e. absurd (omega (arith, ap length e)), omega arith)

module _ {S : Type 0} (b : Bus S) (devs : List ℕ) (muted : S → ℕ → Bool)
    (net : IsLossless b devs muted) where
  -- The search of a range from the top of the stack reports the devices in the range and goes on
  -- with the rest of the stack.
  abbrev Handled : ℕ → ℕ → ℕ → List Branch → Search S → Type 0
  Handled k lo hi rest st =
      (c : ℕ) × (s' : S) × (c ≤ 2 * k * length (between lo hi devs))
      × Keeps b devs muted net hi st.bus s'
      × ((fuel : ℕ)
          → search_loop b (suc (c + fuel)) (range lo hi ∷ rest) st
            ≡ search_loop b fuel rest (after b devs muted net rest (between lo hi devs) st s'))

  joined :
      (rest : List Branch) (ws us vs : List ℕ) (st : Search S) (s' : S)
      → ws ≡ us ++ vs
      → record {
        stack = rest;
        calls = (st.calls ++ map of_number us) ++ map of_number vs;
        num_found = (st.num_found + length us) + length vs;
        bus = s';
      }
        ≡ after b devs muted net rest ws st s'
  joined rest ws us vs st s' e =
      search_ext b devs muted net refl
        (append_assoc st.calls (map of_number us) (map of_number vs)
          ∙ ap (λ xs. st.calls ++ xs) (sym (map-append us vs) ∙ ap (map of_number) (sym e)))
        (omega (arith, ap length e, length-append us vs)) refl

  step :
      (fuel : ℕ) (r : Branch) (rest : List Branch) (st st' : Search S)
      → visit b r (record st { stack = rest }) ≡ found st'
      → search_loop b (suc fuel) (r ∷ rest) st ≡ search_loop b fuel st'.stack st'
  unfolding search_loop
  step fuel r rest st st' e = rw (search_loop, e) refl

  done : (fuel : ℕ) (st : Search S) → search_loop b fuel [] st ≡ found (record st { stack = [] })
  unfolding search_loop
  done fuel st = refl

  leaf :
      (k lo hi : ℕ) (rest : List Branch) (st : Search S)
      → Visited b devs muted net lo hi (record st { stack = rest })
      → Handled k lo hi rest st
  leaf k lo hi rest st (s', keeps, e) = (
    0,
    s',
    omega arith,
    keeps,
    λ fuel.
        step (0 + fuel) (range lo hi) rest st _ e
        ∙ ap (λ n. search_loop b n rest (after b devs muted net rest (between lo hi devs) st s'))
            (omega arith),
  )

  split :
      (k lo hi : ℕ) (rest : List Branch) (st : Search S)
      → lo < hi
      → hi < 2 ^ 48
      → Fresh b devs muted net lo hi st.bus
      → 1 ≤ length (between lo hi devs)
      → (s' : S) → ((m : ℕ) → muted s' m ≡ muted st.bus m)
      → (visit b (range lo hi) (record st { stack = rest })
          ≡ found (record st {
            stack = range lo ((lo + hi) / 2) ∷ range ((lo + hi) / 2 + 1) hi ∷ rest;
            bus = s';
          }))
      → ((r : List Branch) (t : Search S)
          → Fresh b devs muted net lo ((lo + hi) / 2) t.bus
          → length r ≡ suc (length rest)
          → Handled k lo ((lo + hi) / 2) r t)
      → ((t : Search S)
          → Fresh b devs muted net ((lo + hi) / 2 + 1) hi t.bus
          → Handled k ((lo + hi) / 2 + 1) hi rest t)
      → Handled (suc k) lo hi rest st
  split k lo hi rest st lt h fresh many s' kept e low high =
      let mid = (lo + hi) / 2 in
      let st' : Search S = record st {
        stack = range lo mid ∷ range (mid + 1) hi ∷ rest;
        bus = s';
      } in
      let (c, t, few, keeps, run) =
        low (range (mid + 1) hi ∷ rest) st' (λ m p q. kept m ∙ fresh m p (omega arith)) refl in
      let us = between lo mid devs in
      let st'' = after b devs muted net (range (mid + 1) hi ∷ rest) us st' t in
      let (d, t', few', keeps', run') =
        high st''
          (λ m p q. keeps m (omega arith) (omega arith) ∙ kept m ∙ fresh m (omega arith) q) in
      let vs = between (mid + 1) hi devs in
      let whole : between lo hi devs ≡ us ++ vs =
        between-split lo mid hi devs (omega arith) (omega arith) net.sorted in
      let sum : length (between lo hi devs) ≡ length us + length vs =
        ap length whole ∙ length-append us vs in
      (
        2 + c + d,
        t',
        rounds k (length us) (length vs) _ c d sum many few few',
        λ m above fits. keeps' m above fits ∙ keeps m (omega arith) fits ∙ kept m,
        λ fuel.
            step (2 + c + d + fuel) (range lo hi) rest st _ e
            ∙ ap (λ n. search_loop b n (range lo mid ∷ range (mid + 1) hi ∷ rest) st') (omega arith)
            ∙ run (suc (d + fuel))
            ∙ run' fuel
            ∙ ap (search_loop b fuel rest) (joined rest (between lo hi devs) us vs st t' whole),
      )

  handle :
      (k lo hi : ℕ) (rest : List Branch) (st : Search S)
      → lo ≤ hi
      → hi < 2 ^ 48
      → hi - lo < 2 ^ k
      → Fresh b devs muted net lo hi st.bus
      → length rest + k + 1 ≤ 49
      → Handled k lo hi rest st
  handle zero lo hi rest st le h size fresh room =
      subst (λ n. Handled 0 lo n rest st) (the_same lo hi le (omega (arith, size)))
        (leaf 0 lo lo rest st (visit_single b devs muted net lo _ (omega arith)))
  handle (suc k) lo hi rest st le h size fresh room = elim (Bool-cases (ltb lo hi)) [
    | inl longer ↦ elim (list_cases (between lo hi devs)) [
      | inl nobody ↦
          leaf (suc k) lo hi rest st (visit_empty b devs muted net lo hi _ (ground arith) h nobody)
      | inr (some_one, many) ↦
          let lt : lo < hi = ground arith in
          let small : hi - lo < 2 * 2 ^ k = omega (arith, size, pow-suc 2 k) in
          let (s', kept, e) =
            visit_split b devs muted net lo hi (record st { stack = rest }) lt h some_one fresh
              (omega arith) in
          split k lo hi rest st lt h fresh many s' kept e
            (λ r t fresh' len.
              handle k lo ((lo + hi) / 2) r t (omega arith) (omega arith) (omega (arith, small))
                fresh' (omega arith))
            (λ t fresh'.
              handle k ((lo + hi) / 2 + 1) hi rest t (omega arith) h (omega (arith, small)) fresh'
                (omega arith))
    ]
    | inr single ↦
        subst (λ n. Handled (suc k) lo n rest st) (the_same lo hi le (ground arith))
          (leaf (suc k) lo lo rest st (visit_single b devs muted net lo _ (omega arith)))
  ]

  -- `rdm_discover_with_callback` on a bus on which nothing gets lost, with fuel for 96 rounds per
  -- device: the search ends, never writes behind its 49 stack entries, and has called the callback
  -- once for every device with a UID up to the highest one, in the UIDs' order.
  pub discover_finds :
      (fuel : ℕ) (s : S)
      → 1 + 96 * length (between 0 (2 ^ 48 - 2) devs) ≤ fuel
      → (s' : S) × (discover b fuel s
          ≡ found (record {
            stack = [];
            calls = map of_number (between 0 (2 ^ 48 - 2) devs);
            num_found = length (between 0 (2 ^ 48 - 2) devs);
            bus = s';
          }))
  unfolding discover
  discover_finds fuel s enough =
      let us = between 0 (2 ^ 48 - 2) devs in
      let start : Search S = record {
        stack = [];
        calls = [];
        num_found = 0;
        bus = b.send_un_mute uid_broadcast_all s;
      } in
      let (c, s', few, keeps, run) =
        handle 48 0 (2 ^ 48 - 2) [] start (omega arith) (omega arith) (omega arith)
          (λ m p q. net.un_mutes s m) (omega arith) in
      (
        s',
        ap (λ n. search_loop b n (range 0 (2 ^ 48 - 2) ∷ []) start)
              (enough_fuel (length us) c fuel few enough)
            ∙ run (fuel - suc c)
            ∙ ap (search_loop b (fuel - suc c) []) (
                search_ext b devs muted net {st = after b devs muted net [] us start s'}
                  {st' = record {
                    stack = [];
                    calls = map of_number us;
                    num_found = length us;
                    bus = s';
                  }}
                  refl refl (omega arith) refl)
            ∙ done (fuel - suc c) _,
      )

write_at-set :
    (i : ℕ) (u : Uid) (us uids : List Uid)
    → write_at (suc i) us (set uids i u) ≡ write_at i (u ∷ us) uids
write_at-set i u us [] = refl
write_at-set zero u us (v ∷ vs) = refl
write_at-set (suc i) u us (v ∷ vs) = ap (λ ws. v ∷ ws) (write_at-set i u us vs)

disc_cb-set : (i : ℕ) (u : Uid) (uids : List Uid) → disc_cb (length uids) i u uids ≡ set uids i u
unfolding disc_cb
disc_cb-set i u uids = elim (Bool-cases (ltb i (length uids))) [
  | inl e ↦ rw e refl
  | inr e ↦ rw e (sym (set_beyond i uids (ground arith)))
]
  where
    set_beyond : (i : ℕ) (vs : List Uid) → length vs ≤ i → set vs i u ≡ vs
    set_beyond i [] h = refl
    set_beyond zero (v ∷ vs) h = absurd (omega arith)
    set_beyond (suc i) (v ∷ vs) h = ap (λ ws. v ∷ ws) (set_beyond i vs (omega arith))

store_calls-write_at :
    (i : ℕ) (us uids : List Uid) → store_calls (length uids) i us uids ≡ write_at i us uids
unfolding store_calls
store_calls-write_at i [] uids = sym (write_at_nil i uids)
  where
    write_at_nil : (i : ℕ) (vs : List Uid) → write_at i [] vs ≡ vs
    write_at_nil i [] = refl
    write_at_nil zero (v ∷ vs) = refl
    write_at_nil (suc i) (v ∷ vs) = ap (λ ws. v ∷ ws) (write_at_nil i vs)
store_calls-write_at i (u ∷ us) uids =
    ap (store_calls (length uids) (i + 1) us) (disc_cb-set i u uids)
    ∙ ap (λ n. store_calls n (i + 1) us (set uids i u)) (sym (length-set uids i u))
    ∙ store_calls-write_at (i + 1) us (set uids i u)
    ∙ ap (λ j. write_at j us (set uids i u)) (omega arith)
    ∙ write_at-set i u us uids

module _ {S : Type 0} (b : Bus S) (devs : List ℕ) (muted : S → ℕ → Bool)
    (net : IsLossless b devs muted) where
  -- `rdm_discover_devices_simple` on such a bus returns the number of devices with a UID up to the
  -- highest one, and has copied their UIDs, in order, to the start of the caller's array, as many
  -- as it has room for.
  pub simple_finds :
      (fuel : ℕ) (uids : List Uid) (s : S)
      → 1 + 96 * length (between 0 (2 ^ 48 - 2) devs) ≤ fuel
      → discover_devices_simple b fuel (length uids) uids s
        ≡ some (
          length (between 0 (2 ^ 48 - 2) devs),
          write_at 0 (map of_number (between 0 (2 ^ 48 - 2) devs)) uids,
        )
  unfolding discover_devices_simple
  simple_finds fuel uids s enough =
      let (s', e) = discover_finds b devs muted net fuel s enough in
      rw
        (
          discover_devices_simple,
          e,
          store_calls-write_at 0 (map of_number (between 0 (2 ^ 48 - 2) devs)) uids,
        )
        refl
