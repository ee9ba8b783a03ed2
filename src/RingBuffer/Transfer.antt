-- ===== src/RingBuffer/Transfer.antt =====
-- Reads and writes of a ring on a block, in one part or two, beside the stream.
use peanuts.Base.{ℕ, ◌+◌, ◌%◌, ◌^◌, ◌≤◌, ◌<◌, ◌≡◌, ◌∙◌, sym, ap, ap₂, List, ◌++◌, length, arith}
use peanuts.Base.{take, drop, inl, inr, ◌-◌, Bool-cases, ◌==◌, sub64, true, false, take-append-drop}
use peanuts.Base.{length-take, length-drop}
use native.Mathlib.Nat.{mod-lt}
use peanuts.Pmem.{Memory}
use peanuts.RingTracker.{RingTracker, to_ofs, first_segment_size_ofs}
use peanuts.RingTracker.Offsets.{mod-round}
use peanuts.RingBuffer.{pread, pwrite}
use peanuts.RingBuffer.Stream.{stream_read, stream_write, stream_read-append, stream_read-eq-pread}
use peanuts.RingBuffer.Stream.{stream_write-append, stream_write-eq-pwrite}
use peanuts.Pmem

-- The sizes of a ring: there is one, it is not larger than half of the address space, and it holds
-- the range.
pub record IsRange (t : RingTracker) (size : ℕ) : Type 0 where
  pub pos : 0 < t.ring_size
  pub small : t.ring_size < 2 ^ 63
  pub fits : size ≤ t.ring_size

-- The first segment of a range: all of it, or as much as fits before the end of the ring.
module _ (t : RingTracker) (size lsn : ℕ) (r : IsRange t size) where
  segment-whole :
      (first_segment_size_ofs t (lsn % t.ring_size) size == size) ≡ true
      → lsn % t.ring_size + size ≤ t.ring_size
  unfolding first_segment_size_ofs
  segment-whole h = let m : lsn % t.ring_size < t.ring_size = mod-lt lsn r.pos in ground arith

  segment-cut :
      (first_segment_size_ofs t (lsn % t.ring_size) size == size) ≡ false
      → (first_segment_size_ofs t (lsn % t.ring_size) size < size)
        × (lsn % t.ring_size + first_segment_size_ofs t (lsn % t.ring_size) size ≡ t.ring_size)
  unfolding first_segment_size_ofs
  segment-cut h =
      let m : lsn % t.ring_size < t.ring_size = mod-lt lsn r.pos in (ground arith, ground arith)

-- A range of the stream that goes round the end is two ranges of the block.
module _ (base ring : ℕ) (m : Memory) (k lsn : ℕ) (cut : lsn % ring + k ≡ ring) where
  stream_read-cut :
      (j : ℕ)
      → j ≤ ring
      → stream_read base ring m (k + j) lsn
        ≡ Pmem.pread m k (base + lsn % ring) ++ Pmem.pread m j (base + 0)
  stream_read-cut j h =
      let e : (lsn + k) % ring ≡ 0 = mod-round lsn k ring cut in
      stream_read-append base ring m k j lsn
      ∙ ap₂ ◌++◌ (stream_read-eq-pread base ring m k lsn (omega arith)) (
          stream_read-eq-pread base ring m j (lsn + k) (omega arith)
          ∙ ap (λ (x : ℕ). Pmem.pread m j (base + x)) e)

  stream_write-cut :
      (a b : List ℕ)
      → length a ≡ k
      → length b ≤ ring
      → stream_write base ring m (a ++ b) lsn
        ≡ Pmem.pwrite (Pmem.pwrite m a (base + lsn % ring)) b (base + 0)
  stream_write-cut a b l h =
      let e : (lsn + length a) % ring ≡ 0 = mod-round lsn (length a) ring (omega arith) in
      stream_write-append base ring m a b lsn
      ∙ ap (λ (n : Memory). stream_write base ring n b (lsn + length a))
          (stream_write-eq-pwrite base ring m a lsn (omega arith))
      ∙ stream_write-eq-pwrite base ring _ b (lsn + length a) (omega arith)
      ∙ ap (λ (x : ℕ). Pmem.pwrite (Pmem.pwrite m a (base + lsn % ring)) b (base + x)) e

module _ {S : Type 0} (block_pread : S → ℕ → ℕ → List ℕ × S) (m : Memory) (base : ℕ)
    (reads : (s : S) (n ofs : ℕ) → (block_pread s n ofs).0 ≡ Pmem.pread m n (base + ofs)) where
  -- Where the block reads a memory, a read of the ring that is no longer than the ring gives the
  -- bytes of the stream at those log sequence numbers, in one part or in two.
  pub pread-stream_read :
      (t : RingTracker) (s : S) (count lsn : ℕ)
      → IsRange t count
      → (pread block_pread t s count lsn).0 ≡ stream_read base t.ring_size m count lsn
  unfolding pread to_ofs
  pread-stream_read t s count lsn r =
      elim (Bool-cases (first_segment_size_ofs t (lsn % t.ring_size) count == count)) [
        | inl h ↦ rw h (
            reads s count (lsn % t.ring_size)
            ∙ sym
                (stream_read-eq-pread base t.ring_size m count lsn (segment-whole t count lsn r h)))
        | inr h ↦
            let k = first_segment_size_ofs t (lsn % t.ring_size) count in
            let c = segment-cut t count lsn r h in
            let e : k + (count - k) ≡ count = omega (arith, c) in
            let f : sub64 count k ≡ count - k = omega (arith, c, r) in
            rw h (
              ap₂ ◌++◌ (reads s k (lsn % t.ring_size))
                (reads _ (sub64 count k) 0 ∙ ap (λ (x : ℕ). Pmem.pread m x (base + 0)) f)
              ∙ sym (
                  rw e at
                    (stream_read-cut base t.ring_size m k lsn c.1 (count - k) (omega (arith, r)))))
      ]

module _ {S : Type 0} (block_pwrite : S → List ℕ → ℕ → S) (memory : S → Memory) (base : ℕ)
    (writes : (s : S) (buf : List ℕ) (ofs : ℕ)
      → memory (block_pwrite s buf ofs) ≡ Pmem.pwrite (memory s) buf (base + ofs)) where
  -- Where the block writes a memory, a write to the ring that is no longer than the ring puts the
  -- bytes into the stream at those log sequence numbers, in one part or in two.
  pub pwrite-stream_write :
      (t : RingTracker) (s : S) (buf : List ℕ) (lsn : ℕ)
      → IsRange t (length buf)
      → memory (pwrite block_pwrite t s buf lsn) ≡ stream_write base t.ring_size (memory s) buf lsn
  unfolding pwrite to_ofs
  pwrite-stream_write t s buf lsn r =
      elim (Bool-cases (first_segment_size_ofs t (lsn % t.ring_size) (length buf) == length buf)) [
        | inl h ↦ rw h (
            writes s buf (lsn % t.ring_size)
            ∙ sym (
                stream_write-eq-pwrite base t.ring_size (memory s) buf lsn
                  (segment-whole t (length buf) lsn r h)))
        | inr h ↦
            let k = first_segment_size_ofs t (lsn % t.ring_size) (length buf) in
            let c = segment-cut t (length buf) lsn r h in
            rw h (
              writes _ (drop k buf) 0
              ∙ ap (λ (x : Memory). Pmem.pwrite x (drop k buf) (base + 0))
                  (writes s (take k buf) (lsn % t.ring_size))
              ∙ sym (
                  rw (take-append-drop k buf) at (
                    stream_write-cut base t.ring_size (memory s) k lsn c.1 (take k buf) (drop k buf)
                      (omega (arith, c, length-take k buf)) (omega (arith, r, length-drop k buf)))))
      ]
