-- ===== src/RingBuffer/Stream.antt =====
-- The ring as the stream of bytes that it stands for: the byte at each LSN.
use peanuts.Base.{ℕ, zero, suc, ◌+◌, ◌%◌, ◌≤◌, ◌<◌, ◌≡◌, ◌∙◌, refl, ap, ap₂, List, [], ◌∷◌, ◌++◌}
use peanuts.Base.{length, arith, ◌⊎◌, get_elem?, some, sym}
use peanuts.Pmem.{Memory, store, pread, pwrite}
use peanuts.RingTracker.Offsets.{mod-forward, mod-distinct}

-- A block of `ring` bytes from `base` on.
module _ (base ring : ℕ) where
  abbrev pub address : ℕ → ℕ
  address lsn = base + lsn % ring

  unfoldable pub stream_read : Memory → ℕ → ℕ → List ℕ
  stream_read m zero lsn = []
  stream_read m (suc n) lsn = m (address lsn) ∷ stream_read m n (lsn + 1)

  unfoldable pub stream_write : Memory → List ℕ → ℕ → Memory
  stream_write m [] lsn = m
  stream_write m (b ∷ buf) lsn = stream_write (store m (address lsn) b) buf (lsn + 1)

  pub stream_read-append :
      (m : Memory) (i j lsn : ℕ)
      → stream_read m (i + j) lsn ≡ stream_read m i lsn ++ stream_read m j (lsn + i)
  unfolding stream_read
  stream_read-append m zero j lsn = ap₂ (stream_read m) (omega arith) (omega arith)
  stream_read-append m (suc i) j lsn =
      let e : suc i + j ≡ suc (i + j) = omega arith in
      let f : lsn + 1 + i ≡ lsn + suc i = omega arith in
      rw e (ap (◌∷◌ (m (address lsn))) (rw f at (stream_read-append m i j (lsn + 1))))

  -- While it does not go round the end, the stream is a range of the block.
  pub stream_read-eq-pread :
      (m : Memory) (n lsn : ℕ)
      → lsn % ring + n ≤ ring
      → stream_read m n lsn ≡ pread m n (base + lsn % ring)
  unfolding stream_read pread
  stream_read-eq-pread m zero lsn h = refl
  stream_read-eq-pread m (suc zero) lsn h = refl
  stream_read-eq-pread m (suc (suc n)) lsn h =
      let e : (lsn + 1) % ring ≡ lsn % ring + 1 = mod-forward lsn 1 ring (omega arith) in
      ap (◌∷◌ (m (address lsn))) (
        stream_read-eq-pread m (suc n) (lsn + 1) (omega arith) ∙ ap (pread m (suc n)) (omega arith))

  pub stream_write-eq-pwrite :
      (m : Memory) (buf : List ℕ) (lsn : ℕ)
      → lsn % ring + length buf ≤ ring
      → stream_write m buf lsn ≡ pwrite m buf (base + lsn % ring)
  unfolding stream_write pwrite
  stream_write-eq-pwrite m [] lsn h = refl
  stream_write-eq-pwrite m (b ∷ []) lsn h = refl
  stream_write-eq-pwrite m (b ∷ c ∷ buf) lsn h =
      let e : (lsn + 1) % ring ≡ lsn % ring + 1 = mod-forward lsn 1 ring (omega arith) in
      let m' = store m (address lsn) b in
      stream_write-eq-pwrite m' (c ∷ buf) (lsn + 1) (omega arith)
      ∙ ap (pwrite m' (c ∷ buf)) (omega arith)

  pub stream_write-append :
      (m : Memory) (a b : List ℕ) (lsn : ℕ)
      → stream_write m (a ++ b) lsn ≡ stream_write (stream_write m a lsn) b (lsn + length a)
  unfolding stream_write
  stream_write-append m [] b lsn = ap (stream_write m b) (omega arith)
  stream_write-append m (x ∷ a) b lsn =
      stream_write-append (store m (address lsn) x) a b (lsn + 1)
      ∙ ap (stream_write (stream_write m (x ∷ a) lsn) b) (omega arith)

  -- A write reaches no byte of another LSN, as long as all of them lie within one round.
  pub stream_write-outside :
      (m : Memory) (buf : List ℕ) (lsn l : ℕ)
      → (l < lsn) × (lsn + length buf ≤ l + ring) ⊎ (lsn + length buf ≤ l) × (l < lsn + ring)
      → stream_write m buf lsn (address l) ≡ m (address l)
  unfolding stream_write
  stream_write-outside m [] lsn l h = refl
  stream_write-outside m (b ∷ buf) lsn l h =
      stream_write-outside (store m (address lsn) b) buf (lsn + 1) l (omega arith)
      ∙ ground (arith, mod-distinct l lsn ring, mod-distinct lsn l ring)

  pub stream_read-write :
      (m : Memory) (buf : List ℕ) (lsn : ℕ)
      → length buf ≤ ring
      → stream_read (stream_write m buf lsn) (length buf) lsn ≡ buf
  unfolding stream_read stream_write
  stream_read-write m [] lsn h = refl
  stream_read-write m (b ∷ buf) lsn h =
      ap₂ ◌∷◌
        (stream_write-outside (store m (address lsn) b) buf (lsn + 1) lsn (omega arith)
          ∙ ground arith)
        (stream_read-write (store m (address lsn) b) buf (lsn + 1) (omega arith))

  -- A write leaves alone what was written at earlier LSNs, up to one round back.
  pub stream_read-write_outside :
      (m : Memory) (buf : List ℕ) (lsn n l : ℕ)
      → l + n ≤ lsn
      → lsn + length buf ≤ l + ring
      → stream_read (stream_write m buf lsn) n l ≡ stream_read m n l
  unfolding stream_read
  stream_read-write_outside m buf lsn zero l h g = refl
  stream_read-write_outside m buf lsn (suc n) l h g =
      ap₂ ◌∷◌ (stream_write-outside m buf lsn l (omega arith))
        (stream_read-write_outside m buf lsn n (l + 1) (omega arith) (omega arith))

  -- What a write puts at each of its LSNs.
  pub stream_write-at :
      (m : Memory) (buf : List ℕ) (lsn k : ℕ)
      → length buf ≤ ring
      → k < length buf
      → get_elem? buf k ≡ some (stream_write m buf lsn (address (lsn + k)))
  unfolding stream_write
  stream_write-at m [] lsn k h l = absurd (omega arith)
  stream_write-at m (b ∷ buf) lsn zero h l =
      let e : lsn ≡ lsn + 0 = omega arith in
      rw (← e) (
        ap some (
          sym (
            stream_write-outside (store m (address lsn) b) buf (lsn + 1) lsn (omega arith)
            ∙ ground arith)))
  stream_write-at m (b ∷ buf) lsn (suc k) h l =
      let e : lsn + 1 + k ≡ lsn + suc k = omega arith in
      rw (← e)
        (stream_write-at (store m (address lsn) b) buf (lsn + 1) k (omega arith) (omega arith))
