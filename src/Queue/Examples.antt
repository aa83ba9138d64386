-- ===== src/Queue/Examples.antt =====
-- The theorems on the queue at small rings.
use esp_dmx.Prelude.{ℕ, zero, suc, ◌≡◌, ◌≢◌, refl, Bool, true, some, none, [], ◌∷◌, arith, get_or}
use esp_dmx.Queue.{Queue, push, pop, size}
use esp_dmx.Queue.Window.{IsValid, contents}
use esp_dmx.Queue.Refine.{spec_push, spec_pop, push_refines, pop_refines}
use esp_dmx.Queue.Hang.{push_hangs}

-- Two PIDs in a ring for four, the older one at index 1.
abbrev ring : Queue
ring = record { head = 3; tail = 1; previous = 0; max_size = 4; buf = 0x50 ∷ 0x60 ∷ 0xf0 ∷ 0 ∷ [] }

-- The same after a push: the head has wrapped to 0.
abbrev pushed_ring : Queue
pushed_ring = record {
  head = 0;
  tail = 1;
  previous = 0;
  max_size = 4;
  buf = 0x50 ∷ 0x60 ∷ 0xf0 ∷ 0x80 ∷ [];
}

ring-IsValid : IsValid ring
ring-IsValid = record {
  max_pos = omega arith;
  max_small = omega arith;
  head_in = omega arith;
  tail_in = omega arith;
  buf_length = refl;
}

push-ring : push 9 ring 0x80 ≡ some (true, pushed_ring)
unfolding push esp_dmx.Queue.scan esp_dmx.Queue.store
push-ring = refl

absent_0x81 : (k : ℕ) → get_or pushed_ring.buf k 0 ≢ 0x81
absent_0x81 zero e = absurd (omega (arith, e))
absent_0x81 (suc zero) e = absurd (omega (arith, e))
absent_0x81 (suc (suc zero)) e = absurd (omega (arith, e))
absent_0x81 (suc (suc (suc zero))) e = absurd (omega (arith, e))
absent_0x81 (suc (suc (suc (suc k)))) e = absurd (omega (arith, e))

push_refines_example :
    (r : Bool × Queue) × (push 9 ring 0x80 ≡ some r)
    × ((r.0, contents r.1) ≡ spec_push 4 (contents ring) 0x80)
    × IsValid r.1
push_refines_example =
    push_refines 9 0x80 ring-IsValid (λ e. absurd (omega (arith, e))) (omega arith) (omega arith)

pop_refines_example :
    ((pop ring).0, contents (pop ring).1) ≡ spec_pop (contents ring) × IsValid (pop ring).1
pop_refines_example = pop_refines {q = ring} ring-IsValid

push_hangs_example : push 1000 pushed_ring 0x81 ≡ none
push_hangs_example = push_hangs pushed_ring 1000 0x81 refl (omega arith) (omega arith) absent_0x81
