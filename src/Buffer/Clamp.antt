-- ===== src/Buffer/Clamp.antt =====
-- How much `dmx_read_offset` and `dmx_write_offset` copy.
use esp_dmx.Prelude.{
  ℕ, ◌+◌, ◌-◌, ◌^◌, ◌<◌, ◌≤◌, ◌≡◌, refl, true, false, ◌||◌, none, some, List, arith, ltb, min,
  length, lt→ltb, take, drop, write_at, if◌then◌else◌, Bool-cases, inl, inr,
}
use esp_dmx.Buffer.{clamp_size, copy_out, read_offset}

-- A sum that does not wrap is clamped to the end of the buffer.
pub clamp_size-min :
    (offset size : ℕ)
    → offset < 513
    → 0 < size
    → size + offset < 2 ^ 32
    → clamp_size offset size ≡ some (min size (513 - offset))
unfolding clamp_size
clamp_size-min offset size h pos small = ground arith

clamp_size-wrapped :
    (offset size : ℕ)
    → offset < 513
    → 0 < size
    → size < 2 ^ 32
    → 2 ^ 32 ≤ size + offset
    → clamp_size offset size ≡ some size
unfolding clamp_size
clamp_size-wrapped offset size h pos wide wraps = ground arith

pub read_offset-min :
    (data_ dest : List ℕ) (offset size : ℕ)
    → offset < 513
    → 0 < size
    → size + offset < 2 ^ 32
    → min size (513 - offset) ≤ length dest
    → let n = min size (513 - offset) in
      read_offset data_ offset dest size ≡ some (n, write_at 0 (take n (drop offset data_)) dest)
unfolding read_offset copy_out
read_offset-min data_ dest offset size h pos small room =
    rw (lt→ltb offset 513 h, clamp_size-min offset size h pos small, fits) refl
  where
    fits :
        (ltb 513 (offset + min size (513 - offset)) || ltb (length dest) (min size (513 - offset)))
        ≡ false
    fits = ground arith

read_offset-wrapped :
    (data_ dest : List ℕ) (offset size : ℕ)
    → offset < 513
    → 0 < size
    → size < 2 ^ 32
    → 2 ^ 32 ≤ size + offset
    → read_offset data_ offset dest size ≡ none
unfolding read_offset copy_out
read_offset-wrapped data_ dest offset size h pos wide wraps =
    rw (lt→ltb offset 513 h, clamp_size-wrapped offset size h pos wide wraps, beyond) refl
  where
    beyond : (ltb 513 (offset + size) || ltb (length dest) size) ≡ true
    beyond = ground arith

-- `dmx_read_offset` from an offset in the buffer to memory that holds what is copied: it copies as
-- many octets as asked for, or as there are up to the end of the buffer, if `size + offset` stays
-- below 2 ^ 32; with a greater size, for which the sum wraps to at most 513, it copies from behind
-- the buffer.
pub read_offset-bounds :
    (data_ dest : List ℕ) (offset size : ℕ)
    → offset < 513
    → 0 < size
    → size < 2 ^ 32
    → min size (513 - offset) ≤ length dest
    → let n = min size (513 - offset) in
      read_offset data_ offset dest size ≡ (
        if ltb (size + offset) (2 ^ 32)
        then some (n, write_at 0 (take n (drop offset data_)) dest)
        else none)
read_offset-bounds data_ dest offset size h pos wide room =
    elim (Bool-cases (ltb (size + offset) (2 ^ 32))) [
      | inl small ↦ rw small (read_offset-min data_ dest offset size h pos (ground arith) room)
      | inr wraps ↦ rw wraps (read_offset-wrapped data_ dest offset size h pos wide (ground arith))
    ]
