-- ===== src/Parameter/Callback.antt =====
-- The definition and the callback of a parameter: rdm_definition_get and rdm_callback_set of
-- src/rdm/responder/utils.c.
use esp_dmx.Prelude.{ℕ, Bool, true, false, Option, none, some, List, ◌>>=◌, get_elem?, set}
use esp_dmx.Parameter.{Param, Store, get_entry, put_params}

abbrev pub definition_found : Option (List Param × ℕ) → Option (Option ℕ)
definition_found none = some none
definition_found (some (ps, i)) = get_elem? ps i >>= λ p. some p.definition

-- `rdm_definition_get`
unfoldable pub definition_get : Store → ℕ → ℕ → Option (Option ℕ)
definition_get s n pid = get_entry s n pid >>= definition_found

abbrev callback_found :
    Store → ℕ → Option ℕ → Option ℕ → Option (List Param × ℕ) → Option (Bool × Store)
callback_found s n callback context none = some (false, s)
callback_found s n callback context (some (ps, i)) = get_elem? ps i >>= λ p.
    some (true, put_params s n (set ps i (record p { callback = callback; context = context })))

-- `rdm_callback_set`
unfoldable pub callback_set : Store → ℕ → ℕ → Option ℕ → Option ℕ → Option (Bool × Store)
callback_set s n pid callback context = get_entry s n pid >>= callback_found s n callback context
