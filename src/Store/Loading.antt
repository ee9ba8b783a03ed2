-- ===== src/Store/Loading.antt =====
-- The loop of `load` on a snapshot that lies in the ring.
use peanuts.Base.{ℕ, zero, suc, ◌+◌, ◌≤◌, ◌<◌, ◌≡◌, refl, ap, ap₂, ◌∙◌, sym, false, Option, some}
use peanuts.Base.{List, [], ◌∷◌, ◌++◌, length, arith, All, take, drop, length-append, ◌%◌, inl}
use peanuts.Base.{le→ltb, add64, lt→ltb, ltb, true, leb, ◌^◌, lt→leb}
use peanuts.Pmem.{Memory}
use peanuts.Pmem.Laws.{pwrite-outside}
use peanuts.RingTracker.{RingTracker, to_ofs, first_segment_size_ofs}
use peanuts.RingBuffer.Stream.{address, stream_read, stream_read-append}
use peanuts.RingBuffer.Transfer.{pread-stream_read}
use peanuts.Rpm.{local_pread}
use peanuts.Store.{Bb, same_file, insert_bb}
use peanuts.Store.Persistence.{entry, load_loop, loaded, ring_bytes, bytes_of, word_of, in_block}
use peanuts.Store.Words.{length-bytes_of, word_of-word, take-length-append, drop-length-append}
use peanuts.Store.Image.{IsSized, image}
use native.Mathlib.Nat.{mod-lt}
use peanuts.Pmem

module _ (base ring : ℕ) (m : Memory) where
  length-stream_read : (n lsn : ℕ) → length (stream_read base ring m n lsn) ≡ n
  unfolding stream_read
  length-stream_read zero lsn = refl
  length-stream_read (suc n) lsn = ap suc (length-stream_read n (lsn + 1))

  -- A range that holds two lists holds the first, and behind it the second.
  stream_read-split :
      (a c : List ℕ) (lsn : ℕ)
      → stream_read base ring m (length (a ++ c)) lsn ≡ a ++ c
      → (stream_read base ring m (length a) lsn ≡ a)
        × (stream_read base ring m (length c) (lsn + length a) ≡ c)
  stream_read-split a c lsn h =
      let x = stream_read base ring m (length a) lsn in
      let y = stream_read base ring m (length c) (lsn + length a) in
      let l : length x ≡ length a = length-stream_read (length a) lsn in
      let e : x ++ y ≡ a ++ c =
        sym (stream_read-append base ring m (length a) (length c) lsn)
        ∙ ap (λ (n : ℕ). stream_read base ring m n lsn) (sym (length-append a c))
        ∙ h in
      (
        sym (take-length-append x y) ∙ ap₂ take l e ∙ take-length-append a c,
        sym (drop-length-append x y) ∙ ap₂ drop l e ∙ drop-length-append a c,
      )

  -- What is written behind the ring is not of the stream.
  pub stream_read-behind :
      (buf : List ℕ) (n lsn : ℕ)
      → 0 < ring
      → stream_read base ring (Pmem.pwrite m buf (base + ring)) n lsn
        ≡ stream_read base ring m n lsn
  unfolding stream_read
  stream_read-behind buf zero lsn h = refl
  stream_read-behind buf (suc n) lsn h =
      let l : lsn % ring < ring = mod-lt lsn h in
      ap₂ ◌∷◌ (pwrite-outside m buf (base + ring) (address base ring lsn) (inl (omega arith)))
        (stream_read-behind buf n (lsn + 1) h)

ring_bytes-stream_read :
    (disp : ℕ) (t : RingTracker) (m : Memory) (n lsn : ℕ)
    → IsSized t
    → n ≤ t.ring_size
    → ring_bytes disp t m n lsn ≡ stream_read disp t.ring_size m n lsn
ring_bytes-stream_read disp t m n lsn s l =
    pread-stream_read (λ u k o. (local_pread m disp k o, u)) m disp
      (λ u k o. unfold local_pread in refl) t tt n lsn
      (record { pos = s.pos; small = s.small; fits = l })

-- A read of no more bytes than the ring has, of a ring that lies in the block.
in_block-fits :
    (block_size : ℕ) (t : RingTracker) (n lsn : ℕ)
    → IsSized t
    → t.ring_size ≤ block_size
    → n ≤ t.ring_size
    → in_block block_size t n lsn ≡ true
unfolding in_block to_ofs first_segment_size_ofs
in_block-fits block_size t n lsn s y h =
    let pos = s.pos in
    let small = s.small in
    let l : lsn % t.ring_size < t.ring_size = mod-lt lsn s.pos in ground arith

-- Files with inodes of their own.
abbrev pub AreDistinct : List Bb → Type 0
AreDistinct [] = Unit
AreDistinct (b ∷ bs) = All (λ (c : Bb). same_file b c ≡ false) bs × AreDistinct bs

abbrev pub insert_all : List Bb → List Bb → List Bb
insert_all [] acc = acc
insert_all (b ∷ bs) acc = insert_all bs (insert_bb b acc)

pub insert_bb-new :
    (b : Bb) (acc : List Bb)
    → All (λ (c : Bb). same_file c b ≡ false) acc
    → insert_bb b acc ≡ acc ++ (b ∷ [])
unfolding insert_bb
insert_bb-new b [] d = refl
insert_bb-new b (c ∷ cs) d = ground (arith, insert_bb-new b cs d.1)

-- The deserialiser reads back what the serialiser wrote for a file.
abbrev pub ReadsBack : (Bb → List ℕ) → (List ℕ → Option Bb) → Bb → Type 0
ReadsBack serialize deserialize b = deserialize (serialize b) ≡ some b

module _ (serialize : Bb → List ℕ) (deserialize : List ℕ → Option Bb) where
  abbrev pub files : List Bb → List ℕ
  files bs = image serialize bs

  load_loop-round :
      (fuel block_size disp : ℕ) (t : RingTracker) (m : Memory) (cur : ℕ) (acc : List Bb) (b : Bb)
      → ltb cur t.head_lsn ≡ true
      → in_block block_size t 8 cur ≡ true
      → leb (2 ^ 63) (word_of (ring_bytes disp t m 8 cur)) ≡ false
      → in_block block_size t (word_of (ring_bytes disp t m 8 cur)) (add64 cur 8) ≡ true
      → deserialize (ring_bytes disp t m (word_of (ring_bytes disp t m 8 cur)) (add64 cur 8))
        ≡ some b
      → load_loop deserialize (suc fuel) block_size disp t m cur acc
        ≡ load_loop deserialize fuel block_size disp t m
            (add64 (add64 cur 8) (word_of (ring_bytes disp t m 8 cur)))
            (insert_bb b acc)
  unfolding load_loop
  load_loop-round fuel block_size disp t m cur acc b l i k j d =
      rw (l, load_loop)
        (rw (i, load_loop) (rw (k, load_loop) (rw (j, load_loop) (rw (d, load_loop) refl))))

  -- Enough fuel for every file takes the loop to the end of the snapshot.
  pub load_loop-image :
      (fuel block_size disp : ℕ) (t : RingTracker) (m : Memory) (cur : ℕ) (bs acc : List Bb)
      → All (ReadsBack serialize deserialize) bs
      → IsSized t
      → t.ring_size ≤ block_size
      → t.tail_lsn ≤ cur
      → cur + length (files bs) ≡ t.head_lsn
      → length (files bs) < fuel
      → stream_read disp t.ring_size m (length (files bs)) cur ≡ files bs
      → load_loop deserialize fuel block_size disp t m cur acc ≡ loaded (insert_all bs acc)
  unfolding load_loop
  load_loop-image zero block_size disp t m cur bs acc r s y l h f e = absurd (omega arith)
  load_loop-image (suc fuel) block_size disp t m cur [] acc r s y l h f e =
      rw (le→ltb cur t.head_lsn (omega arith), load_loop) refl
  load_loop-image (suc fuel) block_size disp t m cur (b ∷ bs) acc r s y l h f e =
      let k = serialize b in
      let n = length-append (entry serialize b) (files bs) in
      let n' : length (entry serialize b) ≡ 8 + length k =
        unfold entry in
        omega (arith, length-append {0} (bytes_of 8 (length k)) k, length-bytes_of 8 (length k)) in
      let outer = stream_read-split disp t.ring_size m (entry serialize b) (files bs) cur e in
      let inner =
        stream_read-split disp t.ring_size m (bytes_of 8 (length k)) k cur
          (unfold entry in outer.0) in
      let w = length-bytes_of 8 (length k) in
      let first : stream_read disp t.ring_size m 8 cur ≡ bytes_of 8 (length k) = rw w at inner.0 in
      let second : stream_read disp t.ring_size m (length k) (cur + 8) ≡ k = rw w at inner.1 in
      let size : word_of (ring_bytes disp t m 8 cur) ≡ length k =
        ap word_of (ring_bytes-stream_read disp t m 8 cur s (omega arith) ∙ first)
        ∙ word_of-word (length k) (omega arith) in
      let c : add64 cur 8 ≡ cur + 8 = omega arith in
      let d : add64 (cur + 8) (length k) ≡ cur + length (entry serialize b) = omega arith in
      let body : deserialize (ring_bytes disp t m (length k) (cur + 8)) ≡ some b =
        ap deserialize
          (ring_bytes-stream_read disp t m (length k) (cur + 8) s (omega arith) ∙ second)
        ∙ r.0 in
      load_loop-round fuel block_size disp t m cur acc b (lt→ltb cur t.head_lsn (omega arith))
        (in_block-fits block_size t 8 cur s y (omega arith))
        (ap (leb (2 ^ 63)) size ∙ lt→leb (length k) (2 ^ 63) (omega arith))
        (ap (λ (x : ℕ). in_block block_size t x (add64 cur 8)) size
          ∙ in_block-fits block_size t (length k) (add64 cur 8) s y (omega arith))
        (ap₂ (λ (x y : ℕ). deserialize (ring_bytes disp t m x y)) size c ∙ body)
      ∙ ap₂
          (λ (x y : ℕ).
            load_loop deserialize fuel block_size disp t m (add64 x y) (insert_bb b acc))
          c size
      ∙ ap (λ (x : ℕ). load_loop deserialize fuel block_size disp t m x (insert_bb b acc)) d
      ∙ load_loop-image fuel block_size disp t m (cur + length (entry serialize b)) bs
          (insert_bb b acc) r.1 s y (omega arith) (omega arith) (omega arith) outer.1
