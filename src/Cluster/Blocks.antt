-- ===== src/Cluster/Blocks.antt =====
-- Writes to a ring, and the memory behind the block of the ring.
use peanuts.Base.{ℕ, ◌+◌, ◌%◌, ◌≤◌, ◌<◌, ◌≡◌, ◌∙◌, refl, List, [], ◌∷◌, arith, ◌⊎◌}
use native.Mathlib.Nat.{mod-lt}
use peanuts.Pmem.{Memory, store}
use peanuts.RingBuffer.Stream.{stream_write}

-- A write to a ring of `ring` bytes from `base` on changes no byte before or behind them.
pub stream_write-block :
    (base ring : ℕ) (m : Memory) (buf : List ℕ) (lsn i : ℕ)
    → 0 < ring
    → (i < base) ⊎ (base + ring ≤ i)
    → stream_write base ring m buf lsn i ≡ m i
unfolding stream_write
stream_write-block base ring m [] lsn i pos out = refl
stream_write-block base ring m (b ∷ buf) lsn i pos out =
    let l : lsn % ring < ring = mod-lt lsn pos in
    stream_write-block base ring (store m (base + lsn % ring) b) buf (lsn + 1) i pos out
    ∙ ground arith
