-- ===== src/RingBuffer.antt =====
-- projects/peanuts/include/peanuts/ring_buffer.hpp: a ring of bytes on a block of persistent memory.
-- The block's own reads and writes are parameters, as `BlockType` is in the source.
pub mod Stream
pub mod Transfer
mod Tests
use peanuts.Base.{
  ℕ, Bool, true, false, Option, some, none, List, ◌++◌, length, take, drop, ◌==◌, if◌then◌else◌,
  sub64,
}
use peanuts.RingTracker.{
  RingTracker, to_ofs, first_segment_size_ofs, allocate, can_allocate, release, can_release,
}

-- `read_only_ring_buffer::pread` and `pread_noflush`; `S` is what a read of the block changes.
module _ {S : Type 0} (block_pread : S → ℕ → ℕ → List ℕ × S) where
  unfoldable pub pread : RingTracker → S → ℕ → ℕ → List ℕ × S
  pread t s count lsn =
      let ofs = to_ofs lsn t.ring_size in
      let size = first_segment_size_ofs t ofs count in
      if size == count
      then block_pread s count ofs
      else (let (front, s') = block_pread s size ofs in
          let (back, s'') = block_pread s' (sub64 count size) 0 in (front ++ back, s''))

-- `ring_buffer<rpm_local_block>::pwrite`
module _ {S : Type 0} (block_pwrite : S → List ℕ → ℕ → S) where
  unfoldable pub pwrite : RingTracker → S → List ℕ → ℕ → S
  pwrite t s buf lsn =
      let ofs = to_ofs lsn t.ring_size in
      let size = first_segment_size_ofs t ofs (length buf) in
      if size == length buf
      then block_pwrite s buf ofs
      else block_pwrite (block_pwrite s (take size buf) ofs) (drop size buf) 0

-- The LSN reserved and the tracker behind the call.
unfoldable pub reserve_nb : RingTracker → ℕ → Option (ℕ × RingTracker)
reserve_nb t size = if can_allocate t size then some (allocate t size) else none

unfoldable pub reserve_unsafe : RingTracker → ℕ → ℕ × RingTracker
reserve_unsafe t size = allocate t size

unfoldable pub consume_unsafe : RingTracker → ℕ → ℕ × RingTracker
consume_unsafe t size = let t' = release t size in (t'.tail_lsn, t')

unfoldable pub consume_nb : RingTracker → ℕ → Option (ℕ × RingTracker)
unfolding consume_unsafe
consume_nb t size = if can_release t size then some (consume_unsafe t size) else none
