-- ===== src/RingTracker/Tests.antt =====
-- Runs of the tracker, near the end of the 64-bit numbers too.
use peanuts.Base.{◌≡◌, arith, true, two64, ◌-◌, ◌+◌}
use peanuts.RingTracker.{RingTracker, used_capacity, free_capacity, allocate, can_allocate}
use peanuts.RingTracker.Capacity.{IsValid, allocate-IsValid}

-- the head wraps around with the next three bytes
abbrev late : RingTracker
late = record { ring_size = 8; head_lsn = two64 - 2; tail_lsn = two64 - 5 }

late-IsValid : IsValid late
late-IsValid = record {
  size = omega arith;
  head = omega arith;
  tail = omega arith;
  fits = omega arith;
}

allocate-IsValid_example :
    IsValid (allocate late 3).1 × (used_capacity (allocate late 3).1 ≡ used_capacity late + 3)
allocate-IsValid_example = allocate-IsValid late 3 late-IsValid fits
  where
    fits : can_allocate late 3 ≡ true
    fits = unfold can_allocate free_capacity used_capacity in ground arith
