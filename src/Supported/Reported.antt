-- ===== src/Supported/Reported.antt =====
-- What the device reports about the parameters that it has.
use esp_dmx.Prelude.{
  ℕ, zero, suc, ◌+◌, ◌-◌, ◌*◌, ◌/◌, ◌<◌, ◌≤◌, ◌≡◌, refl, sym, ap, ◌∙◌, inl, inr, true, false, some,
  List, [], ◌∷◌, ◌++◌, append_assoc, arith, ltb, if◌then◌else◌, length, length-append, get_elem?,
  Bool-cases, ne→==,
}
use esp_dmx.Packet.{Header}
use esp_dmx.Parameter.{Param, Device, Store, param_count, find_device}
use esp_dmx.Parameter.Devices.{devices}
use esp_dmx.Parameter.Access.{parameter_at}
use esp_dmx.Queue.Window.{contains}
use esp_dmx.Responder.{Definition, Responder, Program, ack}
use esp_dmx.Supported.{
  is_required, collect, words, fill, count_rest, get_supported_parameters,
  rhd_get_supported_parameters,
}

abbrev pub pids : List Param → List ℕ
pids [] = []
pids (p ∷ ps) = p.pid ∷ pids ps

-- The PIDs of the minimum support that the standard asks for: discovery with its muting, the reports
-- about parameters, device information, software version, start address and identification.
abbrev pub required_pids : List ℕ
required_pids = 0x0001 ∷ 0x0002 ∷ 0x0003 ∷ 0x0050 ∷ 0x0051 ∷ 0x0060 ∷ 0x00c0 ∷ 0x00f0 ∷ 0x1000 ∷ []

is_required-contains : (pid : ℕ) → is_required pid ≡ contains pid required_pids
unfolding is_required
is_required-contains pid = ground arith

-- The PIDs that are not among them.
unfoldable pub optional : List ℕ → List ℕ
optional [] = []
optional (x ∷ xs) = if contains x required_pids then optional xs else x ∷ optional xs

-- Every entry holds a parameter.
abbrev pub AllUsed : List Param → Type 0
AllUsed [] = Unit {0}
AllUsed (p ∷ ps) = (0 < p.pid) × AllUsed ps

-- Device `n` has the parameters `front`, followed by an empty entry.
pub record HasParams (s : Store) (n : ℕ) (front : List Param) : Type 0 where
  pub device : Device
  pub end : Param
  pub rest : List Param
  pub num_fits : n < 513
  pub device_found : find_device (devices s) n ≡ some device
  pub params_are : device.params ≡ front ++ (end ∷ rest)
  pub all_used : AllUsed front
  pub end_is : end.pid ≡ 0
  pub few : length front ≤ param_count s n

at_index :
    (before : List Param) (p : Param) (after : List Param)
    → get_elem? (before ++ (p ∷ after)) (length before) ≡ some p
at_index [] p after = refl
at_index (q ∷ before) p after = at_index before p after

parameter_at-front :
    (s : Store) {n : ℕ} {device : Device} (before : List Param) (p : Param) (after : List Param)
    → n < 513
    → find_device (devices s) n ≡ some device
    → device.params ≡ before ++ (p ∷ after)
    → length before ≤ param_count s n
    → parameter_at s n (length before) ≡ some p.pid
unfolding parameter_at
parameter_at-front s {n} {device} before p after h found are few =
    rw (small, inside, found, are, at_index before p after) refl
  where
    small : ltb n 513 ≡ true
    small = ground arith

    inside : ltb (param_count s n) (length before) ≡ false
    inside = ground arith

collect-optional :
    (k : ℕ) (s : Store) {n : ℕ} {device : Device} (before todo : List Param) (end : Param)
    (rest : List Param)
    → n < 513
    → find_device (devices s) n ≡ some device
    → device.params ≡ before ++ (todo ++ (end ∷ rest))
    → AllUsed todo
    → end.pid ≡ 0
    → length before + length todo ≤ param_count s n
    → length todo < k
    → collect k s n (length before) ≡ some (optional (pids todo))
unfolding collect optional
collect-optional zero s before todo end rest h found are used e few lt = absurd (omega arith)
collect-optional (suc k) s before [] end rest h found are used e few lt =
    rw (parameter_at-front s before end rest h found are (omega arith), e) refl
collect-optional (suc k) s {n} before (p ∷ todo) end rest h found are (pos, used) e few lt =
    let next : length before + 1 ≡ length (before ++ (p ∷ [])) =
      omega (arith, length-append before (p ∷ [])) in
    let later : collect k s n (length before + 1) ≡ some (optional (pids todo)) = rw next (
      collect-optional k s (before ++ (p ∷ [])) todo end rest h found
        (are ∙ sym (append_assoc before (p ∷ []) (todo ++ (end ∷ rest)))) used e
        (omega (arith, length-append before (p ∷ []))) (omega arith)) in
    let at = parameter_at-front s before p (todo ++ (end ∷ rest)) h found are (omega arith) in
    elim (Bool-cases (is_required p.pid)) [
      | inl r ↦
          rw (at, ne→== p.pid 0 (omega arith), later, r, sym (is_required-contains p.pid) ∙ r) refl
      | inr r ↦
          rw (at, ne→== p.pid 0 (omega arith), later, r, sym (is_required-contains p.pid) ∙ r) refl
    ]

-- The handler of GET SUPPORTED_PARAMETERS acknowledges with the PIDs of the device's parameters, in
-- their order and without those of the minimum support, if the device has fewer than 115 parameters
-- and an empty entry behind them. (With a full table the loop reads behind it.)
pub rhd_get_supported_parameters-optional :
    {front : List Param} (p : Program) (d : Definition) (h : Header) (r : Responder)
    → HasParams r.parameters h.sub_device front
    → length front < 115
    → let reported = optional (pids front) in
      rhd_get_supported_parameters p d h r
      ≡ ack p h d.get_.response_format (some (words reported)) (length reported * 2) r
unfolding rhd_get_supported_parameters
rhd_get_supported_parameters-optional {front} p d h r has lt =
    rw
      (collect-optional 115 r.parameters [] front has.end has.rest has.num_fits has.device_found
        has.params_are has.all_used has.end_is (omega (arith, has.few)) lt)
      refl

count_rest-all :
    (k : ℕ) (s : Store) {device : Device} (before todo : List Param) (end : Param)
    (rest : List Param)
    → find_device (devices s) 0 ≡ some device
    → device.params ≡ before ++ (todo ++ (end ∷ rest))
    → AllUsed todo
    → end.pid ≡ 0
    → length before + length todo ≤ param_count s 0
    → length todo < k
    → count_rest k s (length before) ≡ some (length todo)
unfolding count_rest
count_rest-all zero s before todo end rest found are used e few lt = absurd (omega arith)
count_rest-all (suc k) s before [] end rest found are used e few lt =
    rw (parameter_at-front s before end rest (omega arith) found are (omega arith), e) refl
count_rest-all (suc k) s before (p ∷ todo) end rest found are (pos, used) e few lt =
    let next : length before + 1 ≡ length (before ++ (p ∷ [])) =
      omega (arith, length-append before (p ∷ [])) in
    let later : count_rest k s (length before + 1) ≡ some (length todo) = rw next (
      count_rest-all k s (before ++ (p ∷ [])) todo end rest found
        (are ∙ sym (append_assoc before (p ∷ []) (todo ++ (end ∷ rest)))) used e
        (omega (arith, length-append before (p ∷ []))) (omega arith)) in
    rw
      (
        parameter_at-front s before p (todo ++ (end ∷ rest)) (omega arith) found are (omega arith),
        ne→== p.pid 0 (omega arith),
        later,
      )
      refl

-- The loop stays at a PID that every responder has, until there is no room left.
fill-required :
    (k : ℕ) (s : Store) (pid : ℕ)
    → parameter_at s 0 0 ≡ some pid
    → 0 < pid
    → is_required pid ≡ true
    → fill k s 0 0 ≡ some ([], 0, 0)
unfolding fill
fill-required zero s pid at pos r = refl
fill-required (suc k) s pid at pos r =
    rw (at, ne→== pid 0 (omega arith), r) (fill-required k s pid at pos r)

-- On a device whose first parameter is one of the minimum support, and whose table has an empty
-- entry behind its parameters, `rdm_get_supported_parameters` writes no PID, however large its
-- destination is, and returns twice the number of all the device's parameters.
pub get_supported_parameters-required :
    {s : Store} {p : Param} {front : List Param} (size : ℕ)
    → HasParams s 0 (p ∷ front)
    → contains p.pid required_pids ≡ true
    → get_supported_parameters s size ≡ some ([], suc (length front) * 2)
unfolding get_supported_parameters
get_supported_parameters-required {s} {p} {front} size has r =
    let at =
      parameter_at-front s [] p (front ++ (has.end ∷ has.rest)) has.num_fits has.device_found
        has.params_are (omega arith) in
    let all =
      count_rest-all (param_count s 0 + 1 - 0) s [] (p ∷ front) has.end has.rest has.device_found
        has.params_are has.all_used has.end_is (omega (arith, has.few)) (omega (arith, has.few)) in
    let counted : 0 + suc (length front) ≡ suc (length front) = omega arith in
    rw (fill-required (size / 2) s p.pid at has.all_used.0 (is_required-contains p.pid ∙ r), all)
      (ap (λ n. some ([], n * 2)) counted)
