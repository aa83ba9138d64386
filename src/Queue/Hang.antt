-- ===== src/Queue/Hang.antt =====
-- Where the search loop of `rdm_queue_push` does not end.
use esp_dmx.Prelude.{
  ℕ, zero, suc, ◌+◌, ◌<◌, ◌≡◌, ◌≢◌, refl, inl, inr, none, arith, ◌==◌, get_or, Bool-cases,
}
use esp_dmx.Queue.{Queue, scan, push}

-- From any index but `head` the loop goes round for ever: it resets an index that has reached
-- `max_size` after its test, so it never stands at index 0 when it tests for the head.
scan-none :
    (q : Queue) (fuel pid i : ℕ)
    → q.head ≡ 0
    → ((k : ℕ) → get_or q.buf k 0 ≢ pid)
    → 0 < i
    → scan fuel q pid i ≡ none
unfolding scan
scan-none q zero pid i hz absent hi = refl
scan-none q (suc fuel) pid i hz absent hi = elim (Bool-cases (i == q.max_size)) [
  | inl e ↦ rw e (ground (arith, absent 0, scan-none q fuel pid 1 hz absent))
  | inr e ↦ rw e (ground (arith, absent i, scan-none q fuel pid (i + 1) hz absent))
]

-- `rdm_queue_push` never returns if the head has wrapped round to index 0 behind a tail above 0 and
-- the PID, which is not 0, stands nowhere in the buffer: no amount of fuel is enough.
pub push_hangs :
    (q : Queue) (fuel pid : ℕ)
    → q.head ≡ 0
    → 0 < q.tail
    → 0 < pid
    → ((k : ℕ) → get_or q.buf k 0 ≢ pid)
    → push fuel q pid ≡ none
unfolding push
push_hangs q fuel pid hz ht hp absent = rw (scan-none q fuel pid q.tail hz absent ht) (ground arith)
