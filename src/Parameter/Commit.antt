-- ===== src/Parameter/Commit.antt =====
-- What `dmx_parameter_commit` saves.
use esp_dmx.Prelude.{ℕ, ◌+◌, ◌-◌, ◌%◌, ◌^◌, ◌<◌, ◌≡◌, true, List, [], ◌∷◌, length, set}
use esp_dmx.Parameter.{non_volatile, kind_is_staged, Param, Store, put_params}
use esp_dmx.Parameter.Staged.{IsCounted}

-- Every staged entry has a PID.
abbrev pub HavePids : List Param → Type 0
HavePids [] = Unit
HavePids (p ∷ ps) = (kind_is_staged p.kind ≡ true → 0 < p.pid) × HavePids ps

module _ (s : Store) (no_subs : s.subs ≡ []) (num : s.root.num ≡ 0)
    (len : length s.root.params ≡ s.count_root) (pids : HavePids s.root.params)
    (counted : IsCounted s) where
  -- The table when the staged entry `i` has been committed.
  abbrev committed : ℕ → Param → Store
  committed i p =
      put_params (record s { count_staged = (s.count_staged + 2 ^ 32 - 1) % 2 ^ 32 }) 0
        (set s.root.params i (record p { kind = non_volatile }))
