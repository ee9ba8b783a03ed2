-- ===== src/RingTracker/Capacity.antt =====
-- The bytes in use of a tracker, and its ring.
use peanuts.Base.{ℕ, ◌+◌, ◌≤◌, ◌<◌, ◌≡◌, true, arith, two64, sub64}
use peanuts.RingTracker.{RingTracker, make, used_capacity, free_capacity, allocate, can_allocate}
use peanuts.RingTracker.{release, can_release}

pub record IsValid (t : RingTracker) : Type 0 where
  pub size : t.ring_size < two64
  pub head : t.head_lsn < two64
  pub tail : t.tail_lsn < two64
  pub fits : sub64 t.head_lsn t.tail_lsn ≤ t.ring_size

-- A new ring of a 64-bit size is valid, empty and all free.
make-IsValid :
    (n : ℕ)
    → n < two64
    → IsValid (make n) × (used_capacity (make n) ≡ 0) × (free_capacity (make n) ≡ n)
unfolding make used_capacity free_capacity
make-IsValid n h = ground arith

-- On a tracker whose bytes in use fit the ring, the used and the free capacity make up the ring.
used-add-free : (t : RingTracker) → IsValid t → used_capacity t + free_capacity t ≡ t.ring_size
unfolding used_capacity free_capacity
used-add-free t v = ground arith

-- On a tracker whose bytes in use fit the ring, an allocation that it allows takes exactly its
-- bytes and keeps that, also where the head wraps around.
pub allocate-IsValid :
    (t : RingTracker) (size : ℕ)
    → IsValid t
    → can_allocate t size ≡ true
    → IsValid (allocate t size).1 × (used_capacity (allocate t size).1 ≡ used_capacity t + size)
unfolding allocate can_allocate used_capacity
allocate-IsValid t size v h = ground arith

-- On a tracker whose bytes in use fit the ring, a release that it allows gives exactly its bytes
-- back and keeps that.
release-IsValid :
    (t : RingTracker) (size : ℕ)
    → IsValid t
    → can_release t size ≡ true
    → IsValid (release t size) × (used_capacity (release t size) + size ≡ used_capacity t)
unfolding release can_release used_capacity
release-IsValid t size v h = ground arith
