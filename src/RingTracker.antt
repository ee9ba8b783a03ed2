-- ===== src/RingTracker.antt =====
-- `class ring_tracker` of projects/peanuts/include/peanuts/ring_tracker.hpp: the log sequence
-- numbers (LSN) between which a ring of bytes is in use. All of it is `uint64_t` arithmetic.
pub mod Capacity
pub mod Offsets
mod Tests
use peanuts.Base.{ℕ, ◌%◌, Bool, leb, ltb, if◌then◌else◌, add64, sub64}

pub record RingTracker : Type 0 where
  pub ring_size : ℕ
  pub head_lsn : ℕ
  pub tail_lsn : ℕ

unfoldable pub make : ℕ → RingTracker
make ring_size = record { ring_size = ring_size; head_lsn = 0; tail_lsn = 0 }

unfoldable pub used_capacity : RingTracker → ℕ
used_capacity t = sub64 t.head_lsn t.tail_lsn

unfoldable pub free_capacity : RingTracker → ℕ
unfolding used_capacity
free_capacity t = sub64 t.ring_size (used_capacity t)

-- `std::exchange`: the head before the call.
unfoldable pub allocate : RingTracker → ℕ → ℕ × RingTracker
allocate t size = (t.head_lsn, record t { head_lsn = add64 t.head_lsn size })

unfoldable pub can_allocate : RingTracker → ℕ → Bool
unfolding free_capacity
can_allocate t size = leb size (free_capacity t)

unfoldable pub release : RingTracker → ℕ → RingTracker
release t size = record t { tail_lsn = add64 t.tail_lsn size }

unfoldable pub can_release : RingTracker → ℕ → Bool
unfolding used_capacity
can_release t size = leb size (used_capacity t)

unfoldable pub to_ofs : ℕ → ℕ → ℕ
to_ofs lsn ring_size = lsn % ring_size

unfoldable pub first_segment_size_ofs : RingTracker → ℕ → ℕ → ℕ
first_segment_size_ofs t ofs size =
    if leb (add64 ofs size) t.ring_size then size else sub64 t.ring_size ofs

unfoldable pub first_segment_size : RingTracker → ℕ → ℕ → ℕ
unfolding first_segment_size_ofs to_ofs
first_segment_size t lsn size = first_segment_size_ofs t (to_ofs lsn t.ring_size) size

unfoldable pub is_wrapping_ofs : RingTracker → ℕ → ℕ → Bool
is_wrapping_ofs t ofs size = ltb t.ring_size (add64 ofs size)

unfoldable pub is_wrapping : RingTracker → ℕ → ℕ → Bool
unfolding is_wrapping_ofs to_ofs
is_wrapping t lsn size = is_wrapping_ofs t (to_ofs lsn t.ring_size) size
