-- ===== src/Responder/Defined.antt =====
-- A parameter that is added gets a definition and a callback, and keeps its data.
use esp_dmx.Prelude.{ℕ, ◌≡◌, refl, true, Option, some, List, set}
use esp_dmx.Format.{format_is_valid}
use esp_dmx.Parameter.{Param, Device, Store, put_params}
use esp_dmx.Parameter.RoundTrip.{HasData, entry_found, replaced-HasData}
use esp_dmx.Parameter.Callback.{definition_get, callback_set}
use esp_dmx.Responder.{Definition}
use esp_dmx.Responder.Register.{definition_set, definition_is_ok, define_added}

-- A definition that passes the assertions of `rdm_definition_set`.
pub record IsDefinable (d : Definition) : Type 0 where
  pub ok : definition_is_ok d ≡ true
  pub get_request : format_is_valid d.get_.request_format ≡ some true
  pub get_response : format_is_valid d.get_.response_format ≡ some true
  pub set_request : format_is_valid d.set_command.request_format ≡ some true
  pub set_response : format_is_valid d.set_command.response_format ≡ some true

-- The parameter's entry behind the calls of `rdm_definition_set` and `rdm_callback_set`.
abbrev pub defined_entry : Param → ℕ → Option ℕ → Option ℕ → Param
defined_entry p address callback context = record p {
  definition = some address;
  callback = callback;
  context = context;
}

definition_set-HasData :
    {s : Store} {pid i b : ℕ} {d : Device} {p : Param} {block : List ℕ} (address : ℕ)
    (def : Definition)
    → HasData s 0 pid i b d p block
    → IsDefinable def
    → definition_set s 0 pid address def
      ≡ some (true, put_params s 0 (set d.params i (record p { definition = some address })))
unfolding definition_set
definition_set-HasData address def has ok =
    rw
      (
        ok.get_request,
        ok.get_response,
        ok.set_request,
        ok.set_response,
        ok.ok,
        entry_found has,
        has.param_at,
      )
      refl

callback_set-HasData :
    {s : Store} {pid i b : ℕ} {d : Device} {p : Param} {block : List ℕ}
    (callback context : Option ℕ)
    → HasData s 0 pid i b d p block
    → callback_set s 0 pid callback context
      ≡ some (
        true,
        put_params s 0 (set d.params i (record p { callback = callback; context = context })),
      )
unfolding callback_set
callback_set-HasData callback context has = rw (entry_found has, has.param_at) refl

definition_get-HasData :
    {s : Store} {pid i b : ℕ} {d : Device} {p : Param} {block : List ℕ}
    → HasData s 0 pid i b d p block
    → definition_get s 0 pid ≡ some p.definition
unfolding definition_get
definition_get-HasData has = rw (entry_found has, has.param_at) refl

pub define_added-HasData :
    {s : Store} {pid i b : ℕ} {d : Device} {p : Param} {block : List ℕ} (address : ℕ)
    (def : Definition) (callback context : Option ℕ)
    → HasData s 0 pid i b d p block
    → IsDefinable def
    → (s' : Store) × (d' : Device) × (define_added pid address def callback context (true, s)
        ≡ some (true, s'))
      × (definition_get s' 0 pid ≡ some (some address))
      × HasData s' 0 pid i b d' (defined_entry p address callback context) block
unfolding define_added
define_added-HasData {s} {pid} {i} {b} {d} {p} address def callback context has ok =
    let first = replaced-HasData has (record p { definition = some address }) refl refl refl in
    let entry : Param = defined_entry p address callback context in
    let second = replaced-HasData first entry refl refl refl in
    (
      _,
      _,
      rw (definition_set-HasData address def has ok, callback_set-HasData callback context first)
          refl,
      definition_get-HasData second,
      second,
    )
