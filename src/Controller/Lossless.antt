-- ===== src/Controller/Lossless.antt =====
-- A bus on which nothing gets lost: what the search relies on in the replies of the devices.
use esp_dmx.Prelude.{ℕ, ◌^◌, ◌<◌, ◌≤◌, ◌≡◌, ◌≢◌, List, [], Bool, true, false}
use esp_dmx.Uid.{uid_broadcast_all, uid_is_target}
use esp_dmx.Controller.{Bus, of_number, ack_ok, ack_none}
use esp_dmx.Controller.Ranges.{IsSorted, between, has}

-- The devices' UIDs as numbers, in order. `muted s n` says that a device `n` would keep silent.
module _ {S : Type 0} (b : Bus S) (devs : List ℕ) (muted : S → ℕ → Bool) where
  pub record IsLossless : Type 0 where
    pub sorted : IsSorted devs
    pub un_mutes : (s : S) (n : ℕ) → muted (b.send_un_mute uid_broadcast_all s) n ≡ false
    -- A device acknowledges its muting, and nobody else does.
    pub mute_found :
        (n : ℕ) (s : S)
        → n < 2 ^ 48
        → has n devs ≡ true
        → (b.send_mute (of_number n) s).0 ≡ record { response = ack_ok; src_uid = of_number n }
    pub mute_absent :
        (n : ℕ) (s : S)
        → n < 2 ^ 48
        → has n devs ≡ false
        → (b.send_mute (of_number n) s).0.response ≢ ack_ok
    -- A device that the UID does not target takes no notice; a broadcast to a manufacturer's devices
    -- may mute all of them.
    pub mute_others :
        (n m : ℕ) (s : S)
        → n < 2 ^ 48
        → m < 2 ^ 48
        → uid_is_target (of_number m) (of_number n) ≡ false
        → muted (b.send_mute (of_number n) s).1 m ≡ muted s m
    pub branch_muted :
        (lo hi m : ℕ) (s : S)
        → muted (b.send_branch (of_number lo) (of_number hi) s).1 m ≡ muted s m
    -- A range with no device in it gets no reply; one with devices, none of them muted, does.
    pub branch_silent :
        (lo hi : ℕ) (s : S)
        → lo < 2 ^ 48
        → hi < 2 ^ 48
        → between lo hi devs ≡ []
        → (b.send_branch (of_number lo) (of_number hi) s).0.response ≡ ack_none
    pub branch_answers :
        (lo hi : ℕ) (s : S)
        → lo < 2 ^ 48
        → hi < 2 ^ 48
        → between lo hi devs ≢ []
        → ((m : ℕ) → lo ≤ m → m ≤ hi → muted s m ≡ false)
        → (b.send_branch (of_number lo) (of_number hi) s).0.response ≢ ack_none
