-- ===== src/Controller/Network.antt =====
-- A network of RDM responders that a lossless bus describes: its devices answer by the book.
use esp_dmx.Prelude.{
  ℕ, ◌≤◌, ◌≡◌, ◌≢◌, refl, sym, List, [], ◌∷◌, ◌++◌, ◌∙◌, ap, true, false, arith, leb, if◌then◌else◌,
  ◌&&◌, not, ne→==, Bool-cases, inl, inr,
}
use esp_dmx.Uid.{Uid, uid_null, number, uid_is_target}
use esp_dmx.Controller.{Ack, Bus, of_number, ack_ok, ack_none, ack_invalid}
use esp_dmx.Controller.Ranges.{IsSorted, between, has}
use esp_dmx.Controller.Lossless.{IsLossless}
use esp_dmx.Controller.Rounds.{number-of_number}

-- The devices between two UIDs that are not muted, `s` being the list of the muted ones.
abbrev active : ℕ → ℕ → List ℕ → List ℕ → List ℕ
active lo hi s [] = []
active lo hi s (x ∷ xs) =
    if (leb lo x && leb x hi) && not (has x s) then x ∷ active lo hi s xs else active lo hi s xs

-- Silence, one device's reply, or the collision of several.
abbrev reply : List ℕ → Ack
reply [] = record { response = ack_none; src_uid = uid_null }
reply (x ∷ []) = record { response = ack_ok; src_uid = of_number x }
reply (x ∷ y ∷ xs) = record { response = ack_invalid; src_uid = uid_null }

-- The devices that a UID targets.
abbrev targeted : Uid → List ℕ → List ℕ
targeted u [] = []
targeted u (x ∷ xs) = if uid_is_target (of_number x) u then x ∷ targeted u xs else targeted u xs

-- DISC_MUTE mutes all devices that its UID targets; the one that has this UID replies.
abbrev pub network : List ℕ → Bus (List ℕ)
network devs = record {
  send_un_mute = λ u s. [];
  send_mute = λ u s. (
    if has (number u) devs
        then record { response = ack_ok; src_uid = u }
        else record { response = ack_none; src_uid = uid_null },
    targeted u devs ++ s,
  );
  send_branch = λ lo hi s. (reply (active (number lo) (number hi) s devs), s);
}

active_none : (lo hi : ℕ) (s devs : List ℕ) → between lo hi devs ≡ [] → active lo hi s devs ≡ []
active_none lo hi s [] e = refl
active_none lo hi s (x ∷ xs) e = ground (arith, active_none lo hi s xs)

active_all :
    (lo hi : ℕ) (s devs : List ℕ)
    → ((m : ℕ) → lo ≤ m → m ≤ hi → has m s ≡ false)
    → active lo hi s devs ≡ between lo hi devs
active_all lo hi s [] fresh = refl
active_all lo hi s (x ∷ xs) fresh = ground (arith, active_all lo hi s xs fresh, fresh x)

muting_others :
    (u : Uid) (m : ℕ) (s devs : List ℕ)
    → uid_is_target (of_number m) u ≡ false
    → has m (targeted u devs ++ s) ≡ has m s
muting_others u m s [] e = refl
muting_others u m s (x ∷ xs) e = elim (Bool-cases (uid_is_target (of_number x) u)) [
  | inl t ↦ rw (t, ne→== x m (other t)) (muting_others u m s xs e)
  | inr f ↦ rw f (muting_others u m s xs e)
]
  where
    other : uid_is_target (of_number x) u ≡ true → x ≢ m
    other t same =
        let odd : true ≡ false = sym t ∙ ap (λ n. uid_is_target (of_number n) u) same ∙ e in
        ground arith

reply_some : (xs : List ℕ) → xs ≢ [] → (reply xs).response ≢ ack_none
reply_some [] h = absurd (h refl)
reply_some (x ∷ []) h = λ e. absurd (omega (arith, e))
reply_some (x ∷ y ∷ xs) h = λ e. absurd (omega (arith, e))

pub network-IsLossless :
    (devs : List ℕ) → IsSorted devs → IsLossless (network devs) devs (λ s n. has n s)
network-IsLossless devs sorted = record {
  sorted = sorted;
  un_mutes = λ s n. refl;
  mute_found = λ n s h e. rw (number-of_number n h, e) refl;
  mute_absent = λ n s h e. rw (number-of_number n h, e) (λ p. absurd (omega (arith, p)));
  mute_others = λ n m s h h' e. muting_others (of_number n) m s devs e;
  branch_muted = λ lo hi m s. refl;
  branch_silent = λ lo hi s h h' e.
      rw (number-of_number lo h, number-of_number hi h', active_none lo hi s devs e) refl;
  branch_answers = λ lo hi s h h' some_one fresh.
      rw (number-of_number lo h, number-of_number hi h', active_all lo hi s devs fresh)
        (reply_some (between lo hi devs) some_one);
}
