-- ===== src/Queue.antt =====
-- The queue of pending messages, src/rdm/responder/queue_status.c: a ring of PIDs without
-- repetitions. `rdm_get_queue` finds it in the parameter QUEUED_MESSAGE, so it may be missing.
pub mod Window
pub mod Invariant
pub mod Refine
pub mod Hang
pub mod Examples
use esp_dmx.Prelude.{
  ℕ, zero, suc, ◌+◌, ◌-◌, ◌%◌, ◌^◌, Bool, true, false, Option, none, some, List, ltb, ◌==◌,
  if◌then◌else◌, get_or, set, not, ◌>>=◌, ◌&&◌,
}

-- `rdm_queue_t`. `buf` is the flexible array `data`.
pub record Queue : Type 0 where
  pub head : ℕ
  pub tail : ℕ
  pub previous : ℕ
  pub max_size : ℕ
  pub buf : List ℕ

-- The loop of `rdm_queue_push` that looks for a PID from index `i` on, with fuel. The body sets an
-- index that has reached `max_size` to 0 before it reads; `none` means that the fuel ran out.
pub scan : ℕ → Queue → ℕ → ℕ → Option Bool
scan zero q pid i = none
scan (suc fuel) q pid i =
    let j = if i == q.max_size then 0 else i in
    let rest = scan fuel q pid (j + 1) in
    let found = if get_or q.buf j 0 == pid then some true else rest in
    if i == q.head then some false else found

-- What follows the loop of `rdm_queue_push`.
pub store : Queue → ℕ → Bool → Bool × Queue
store q pid already_queued =
    let next = (q.head + 1) % 2 ^ 16 in
    if not already_queued && not ((q.head + 1) % q.max_size == q.tail)
    then (
      true,
      record q { buf = set q.buf q.head pid; head = if next == q.max_size then 0 else next },
    )
    else (already_queued, q)

-- `rdm_queue_push` on an installed port that has a queue; `none` means that the search loop is
-- still running when the fuel is used up.
pub push : ℕ → Queue → ℕ → Option (Bool × Queue)
unfolding store
push fuel q pid =
    let pushed = scan fuel q pid q.tail >>= λ found. some (store q pid found) in
    if ltb 0 pid then pushed else some (false, q)

-- `rdm_queue_size`: the difference of the ends, taken round the ring and clamped to 255.
unfoldable pub size : Queue → ℕ
size q =
    let n = if ltb q.head q.tail then q.head + q.max_size - q.tail else q.head - q.tail in
    if ltb 255 n then 255 else n

-- `rdm_queue_pop`: 0 if the queue is empty.
unfoldable pub pop : Queue → ℕ × Queue
unfolding size
pop q =
    let pid = get_or q.buf q.tail 0 in
    let next = (q.tail + 1) % 2 ^ 16 in
    if ltb 0 (size q)
    then (pid, record q { tail = if next == q.max_size then 0 else next; previous = pid })
    else (0, q)

-- The same on a port, where the queue may not be registered.
unfoldable pub queue_size : Option Queue → ℕ
unfolding size
queue_size none = 0
queue_size (some q) = size q

unfoldable pub queue_previous : Option Queue → ℕ
queue_previous none = 0
queue_previous (some q) = q.previous

-- The ring as `rdm_register_queued_message` leaves it: the zeroed block with its capacity set. The
-- capacity is stored in 16 bits, the block is sized by the uint32_t count.
unfoldable pub registered : ℕ → List ℕ → Queue
registered max_count zeros = record {
  head = 0;
  tail = 0;
  previous = 0;
  max_size = max_count % 2 ^ 16;
  buf = zeros;
}
