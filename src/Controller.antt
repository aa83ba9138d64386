-- ===== src/Controller.antt =====
-- src/rdm/controller/discovery.c: the search for devices by halving the space of UIDs.
pub mod Ranges
pub mod Lossless
pub mod Rounds
pub mod Complete
pub mod Network
pub mod Examples
use esp_dmx.Prelude.{
  ℕ, zero, suc, ◌+◌, ◌*◌, ◌/◌, ◌%◌, ◌^◌, Bool, true, false, List, [], ◌∷◌, ◌++◌, ltb, ◌==◌,
  if◌then◌else◌, length, set, Option, none, some,
}
use esp_dmx.Uid.{Uid, uid_broadcast_all, uid_max, uid_null, uid_is_eq, number}

-- What `rdm_ack_t` tells the search.
pub record Ack : Type 0 where
  pub response : ℕ
  pub src_uid : Uid

abbrev pub ack_none : ℕ
ack_none = 0xff

abbrev pub ack_invalid : ℕ
ack_invalid = 0xfe

abbrev pub ack_ok : ℕ
ack_ok = 0x00

-- `rdm_send_disc_un_mute`, `rdm_send_disc_mute` and `rdm_send_disc_unique_branch` on a bus of type
-- `S`: what the search learns of a reply, and the bus behind it.
pub record Bus (S : Type 0) : Type 0 where
  pub send_un_mute : Uid → S → S
  pub send_mute : Uid → S → Ack × S
  pub send_branch : Uid → Uid → S → Ack × S

-- `rdm_disc_unique_branch_t`
pub record Branch : Type 0 where
  pub lower_bound : Uid
  pub upper_bound : Uid

-- A UID from a uint64_t, as the assignments to its fields truncate it.
abbrev pub of_number : ℕ → Uid
of_number n = record { man_id = n / 2 ^ 32 % 2 ^ 16; dev_id = n % 2 ^ 32 }

-- The search's variables: the stack, top first; the UIDs handed to the callback so far, oldest
-- first; `num_found`; and the bus.
pub record Search (S : Type 0) : Type 0 where
  pub stack : List Branch
  pub calls : List Uid
  pub num_found : ℕ
  pub bus : S

-- `overflow` is a write behind the 49 entries of the stack.
pub data Outcome (S : Type 0) : Type 0 where
  found : Search S → Outcome S
  overflow out_of_fuel : Outcome S

-- The two halves of a branch; the lower one is handled first.
unfoldable pub lower_half : Branch → Branch
lower_half r = record r {
  upper_bound = of_number ((number r.lower_bound + number r.upper_bound) / 2);
}

unfoldable pub upper_half : Branch → Branch
upper_half r = record r {
  lower_bound = of_number ((number r.lower_bound + number r.upper_bound) / 2 + 1);
}

module _ {S : Type 0} (b : Bus S) where
  -- The loop that sends DISC_MUTE until it is acknowledged, with `k` further attempts.
  unfoldable pub mute_attempts : ℕ → Uid → S → Ack × S
  mute_attempts zero u s = b.send_mute u s
  mute_attempts (suc k) u s =
      let r = b.send_mute u s in
      let again = mute_attempts k u r.1 in if r.0.response == ack_ok then r else again

  -- The loop that sends DISC_UNIQUE_BRANCH until there is any reply.
  unfoldable pub branch_attempts : ℕ → Branch → S → Ack × S
  branch_attempts zero r s = b.send_branch r.lower_bound r.upper_bound s
  branch_attempts (suc k) r s =
      let a = b.send_branch r.lower_bound r.upper_bound s in
      let again = branch_attempts k r a.1 in if a.0.response == ack_none then again else a

  -- A branch of one UID: mute the device, and report it if it acknowledges.
  unfoldable pub visit_one : Branch → Search S → Search S
  visit_one r st =
      let a = mute_attempts 2 r.lower_bound st.bus in
      if a.0.response == ack_ok
      then record st {
        calls = st.calls ++ (a.0.src_uid ∷ []);
        num_found = st.num_found + 1;
        bus = a.1;
      }
      else record st { bus = a.1 }

  -- One round of the search on the branch that was popped; the stack of `st` is what is left.
  unfoldable pub visit : Branch → Search S → Outcome S
  visit r st =
      let a = branch_attempts 2 r st.bus in
      if uid_is_eq r.lower_bound r.upper_bound
      then found (visit_one r st)
      else if a.0.response == ack_none
      then found (record st { bus = a.1 })
      else if ltb 49 (length st.stack + 2)
      then overflow
      else found (record st { stack = lower_half r ∷ upper_half r ∷ st.stack; bus = a.1 })

  -- The search from a stack, on fuel.
  unfoldable pub search_loop : ℕ → List Branch → Search S → Outcome S
  search_loop fuel [] st = found (record st { stack = [] })
  search_loop zero (r ∷ rest) st = out_of_fuel
  search_loop (suc fuel) (r ∷ rest) st = elim (visit r (record st { stack = rest })) [
    | found st' ↦ search_loop fuel st'.stack st'
    | overflow ↦ overflow
    | out_of_fuel ↦ out_of_fuel
  ]

  -- `rdm_discover_with_callback` on an installed port.
  unfoldable pub discover : ℕ → S → Outcome S
  discover fuel s =
      search_loop fuel (record { lower_bound = uid_null; upper_bound = uid_max } ∷ [])
        (record { stack = []; calls = []; num_found = 0; bus = b.send_un_mute uid_broadcast_all s })

-- `rdm_disc_cb`, called for the device number `num_found` with an array of `num` UIDs.
unfoldable pub disc_cb : ℕ → ℕ → Uid → List Uid → List Uid
disc_cb num num_found u uids = if ltb num_found num then set uids num_found u else uids

-- The calls of `rdm_disc_cb` that a search makes, the first for number `i`.
unfoldable pub store_calls : ℕ → ℕ → List Uid → List Uid → List Uid
unfolding disc_cb
store_calls num i [] uids = uids
store_calls num i (u ∷ us) uids = store_calls num (i + 1) us (disc_cb num i u uids)

-- `rdm_discover_devices_simple`: the number returned and the caller's array.
unfoldable pub discover_devices_simple :
    {S : Type 0} → Bus S → ℕ → ℕ → List Uid → S → Option (ℕ × List Uid)
discover_devices_simple b fuel num uids s = elim (discover b fuel s) [
  | found st ↦ some (st.num_found, store_calls num 0 st.calls uids)
  | _ ↦ none
]
