-- ===== src/Setup/Handle.antt =====
-- The handlers of src/rdm/responder/dmx_setup.c.
use esp_dmx.Prelude.{
  ℕ, zero, suc, not, Option, none, some, List, [], ◌∷◌, ◌++◌, ◌==◌, if◌then◌else◌, ◌>>=◌, get_or,
  get_elem?, take, drop, write_at,
}
use esp_dmx.Packet.{Header, sub_device_root}
use esp_dmx.Parameter.{Store}
use esp_dmx.Parameter.Access.{parameter_copy}
use esp_dmx.Responder.{
  Definition, Responder, Program, ack, nack, read_request, nr_format_error, nr_hardware_fault,
}
use esp_dmx.Sensors.{le16}
use esp_dmx.Sensors.Handle.{nr_data_out_of_range}
use esp_dmx.Setup.{
  description_size, is_personality, get_personality_count, get_footprint,
  get_personality_description, write_current,
}

abbrev pub personality_set : Program → Header → Responder → ℕ × Store → Option (ℕ × Responder)
personality_set p h r (size, s) =
    if size == 0
    then nack p h nr_hardware_fault (record r { parameters = s })
    else ack p h none none 0 (record r { parameters = s })

-- What the handler of SET DMX_PERSONALITY does with a number.
unfoldable pub set_personality : Program → Header → ℕ → Responder → Option (ℕ × Responder)
set_personality p h num r = get_personality_count r.parameters >>= λ count.
    if not (is_personality num count)
    then nack p h nr_data_out_of_range r
    else (parameter_copy r.parameters h.sub_device h.pid 2 >>= λ copied.
        write_current r.parameters h.sub_device h.pid num copied >>= λ written.
        personality_set p h r written)

-- `rdm_rhd_set_dmx_personality`
unfoldable pub rhd_set_dmx_personality :
    Program → Definition → Header → Responder → Option (ℕ × Responder)
rhd_set_dmx_personality p d h r = read_request p d.set_command.request_format 1 1 r >>= λ (n, m).
    if n == 0 then nack p h nr_format_error r else set_personality p h (get_or m 0 0) r

-- The first `strnlen(text, n)` octets.
unfoldable pub text_of : ℕ → List ℕ → Option (List ℕ)
text_of zero octets = some []
text_of (suc n) [] = none
text_of (suc n) (c ∷ octets) =
    let rest = text_of n octets in if c == 0 then some [] else (rest >>= λ text. some (c ∷ text))

-- The `strnlen` of a null pointer is a fault.
abbrev pub text_at : Store → Option (ℕ × ℕ) → Option (List ℕ)
text_at s none = none
text_at s (some (b, i)) = get_elem? s.heap b >>= λ block. text_of 33 (drop i block)

-- The description in memory: the characters have no terminator, and behind them is what the stack
-- held.
unfoldable pub description_octets : List ℕ → ℕ → ℕ → List ℕ → List ℕ
description_octets stack num footprint text =
    write_at 0 ((num ∷ le16 footprint) ++ text) (take description_size stack)

-- What the handler of GET DMX_PERSONALITY_DESCRIPTION does with a number.
unfoldable pub describe_personality :
    Program → Definition → Header → ℕ → Responder → Option (ℕ × Responder)
describe_personality p d h num r = get_personality_count r.parameters >>= λ count.
    if not (is_personality num count)
    then nack p h nr_data_out_of_range r
    else (get_footprint r.parameters num >>= λ footprint.
        get_personality_description r.parameters num >>= λ at. text_at r.parameters at >>= λ text.
        ack p h d.get_.response_format (some (description_octets p.stack num footprint text))
          description_size r)

-- `rdm_rhd_get_dmx_personality_description`
unfoldable pub rhd_get_dmx_personality_description :
    Program → Definition → Header → Responder → Option (ℕ × Responder)
rhd_get_dmx_personality_description p d h r =
    if not (h.sub_device == sub_device_root)
    then nack p h nr_data_out_of_range r
    else (read_request p d.get_.request_format 1 1 r >>= λ (n, m).
        if n == 0 then nack p h nr_format_error r else describe_personality p d h (get_or m 0 0) r)
