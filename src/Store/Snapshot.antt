-- ===== src/Store/Snapshot.antt =====
-- `load` behind `save`.
use peanuts.Base.{ℕ, ◌+◌, ◌≡◌, ap, ◌∙◌, sym, false, Option, List, [], ◌∷◌, ◌++◌, length, arith, All}
use peanuts.Base.{inl, true, append_nil, append_assoc, Bool-cases, ◌-◌, sub64, inr, ◌≤◌}
use peanuts.Pmem.{Memory}
use peanuts.Pmem.Laws.{pread-pwrite}
use peanuts.RingTracker.{RingTracker}
use peanuts.RingBuffer.Stream.{stream_read, stream_write, stream_read-write}
use peanuts.Rpm.{local_pread, local_pwrite}
use peanuts.Store.{Bb, same_file, Store, ring_size, BlockMetadata}
use peanuts.Store.Persistence.{load_loop, loaded, save, load, save_loop, save_block_metadata}
use peanuts.Store.Persistence.{local_block_metadata, metadata_bytes, metadata_of, load_from}
use peanuts.Store.Words.{AreWords, length-metadata_bytes, metadata_of-metadata_bytes}
use peanuts.Store.Image.{IsSized, image, moved, save_loop-IsSaved}
use peanuts.Store.Loading.{stream_read-behind, AreDistinct, insert_all, insert_bb-new, ReadsBack}
use peanuts.Store.Loading.{load_loop-image}

All-snoc : (P : Bb → Type 0) (acc : List Bb) (b : Bb) → All P acc → P b → All P (acc ++ (b ∷ []))
All-snoc P [] b a p = (p, tt)
All-snoc P (c ∷ cs) b a p = (a.0, All-snoc P cs b a.1 p)

ahead :
    (b : Bb) (bs acc : List Bb)
    → All (λ (c : Bb). same_file b c ≡ false) bs
    → All (λ (d : Bb). All (λ (c : Bb). same_file c d ≡ false) acc) bs
    → All (λ (d : Bb). All (λ (c : Bb). same_file c d ≡ false) (acc ++ (b ∷ []))) bs
ahead b [] acc d a = tt
ahead b (c ∷ cs) acc d a = (All-snoc _ acc b a.0 d.0, ahead b cs acc d.1 a.1)

insert_all-append :
    (bs acc : List Bb)
    → AreDistinct bs
    → All (λ (b : Bb). All (λ (c : Bb). same_file c b ≡ false) acc) bs
    → insert_all bs acc ≡ acc ++ bs
insert_all-append [] acc d a = sym (append_nil acc)
insert_all-append (b ∷ bs) acc d a =
    ap (insert_all bs) (insert_bb-new b acc a.0)
    ∙ insert_all-append bs (acc ++ (b ∷ [])) d.1 (ahead b bs acc d.0 a.1)
    ∙ append_assoc acc (b ∷ []) bs

All-nil : (bs : List Bb) → All (λ (b : Bb). All (λ (c : Bb). same_file c b ≡ false) []) bs
All-nil [] = tt
All-nil (b ∷ bs) = (tt, All-nil bs)

-- Metadata are read back from the block.
local_block_metadata-save :
    (block_size disp : ℕ) (m : Memory) (meta : BlockMetadata)
    → AreWords meta
    → local_block_metadata block_size disp (save_block_metadata block_size disp m meta) ≡ meta
unfolding local_block_metadata save_block_metadata local_pread local_pwrite
local_block_metadata-save block_size disp m meta w =
    let at = disp + ring_size block_size in
    let l = length-metadata_bytes meta in
    ap metadata_of (rw l at (pread-pwrite m (metadata_bytes meta) at))
    ∙ metadata_of-metadata_bytes meta w

load-loaded :
    (deserialize : List ℕ → Option Bb) (s : Store) (meta : BlockMetadata) (bbs : List Bb)
    → local_block_metadata s.block_size s.disp s.memory ≡ meta
    → load_loop deserialize
        (meta.tracker.head_lsn - meta.snapshot_lsn + 1)
        s.block_size
        s.disp
        meta.tracker
        s.memory
        meta.snapshot_lsn
        s.bbs
      ≡ loaded bbs
    → load deserialize s ≡ (loaded bbs, record s { ring = meta.tracker; bbs = bbs })
unfolding load
load-loaded deserialize s meta bbs e f = ap (load_from deserialize s) e ∙ unfold load_from in rw f

module _ (serialize : Bb → List ℕ) (s : Store) (sized : IsSized s.ring)
    (done : (save serialize s).0 ≡ true) where
  loop-done : (save_loop serialize s.disp s.bbs s.ring s.memory).0 ≡ true
  unfolding save
  loop-done = elim (Bool-cases (save_loop serialize s.disp s.bbs s.ring s.memory).0) [
    | inl h ↦ h
    | inr h ↦ (let f : false ≡ true = rw h at done in cc)
  ]

  abbrev tracker : RingTracker
  tracker = moved s.ring (length (image serialize s.bbs))

  abbrev meta_of : BlockMetadata
  meta_of = record {
    tracker = tracker;
    snapshot_lsn = s.ring.head_lsn;
    snapshot_size = sub64 tracker.head_lsn s.ring.head_lsn;
  }

  abbrev streamed : Memory
  streamed = stream_write s.disp s.ring.ring_size s.memory (image serialize s.bbs) s.ring.head_lsn

  abbrev stored : Memory
  stored = save_block_metadata s.block_size s.disp streamed meta_of

  tracker-IsSized : IsSized tracker
  tracker-IsSized =
      let i = save_loop-IsSaved serialize s.disp s.bbs s.ring s.memory sized loop-done in
      rw i.tracker at i.sized

  save-eq : save serialize s ≡ (true, record s { ring = tracker; memory = stored })
  unfolding save
  save-eq =
      let i = save_loop-IsSaved serialize s.disp s.bbs s.ring s.memory sized loop-done in
      rw (loop-done, i.tracker, i.memory)

  AreWords-meta_of : AreWords meta_of
  AreWords-meta_of = let t = tracker-IsSized in ground arith

  module _ (deserialize : List ℕ → Option Bb) (reads : All (ReadsBack serialize deserialize) s.bbs)
      (size : s.ring.ring_size ≡ ring_size s.block_size) where
    stream-stored :
        stream_read s.disp s.ring.ring_size stored (length (image serialize s.bbs)) s.ring.head_lsn
        ≡ image serialize s.bbs
    unfolding save_block_metadata local_pwrite
    stream-stored =
        let t = tracker-IsSized in
        rw (← size) (
          stream_read-behind s.disp s.ring.ring_size streamed (metadata_bytes meta_of)
            (length (image serialize s.bbs)) s.ring.head_lsn sized.pos
          ∙ stream_read-write s.disp s.ring.ring_size s.memory (image serialize s.bbs)
              s.ring.head_lsn (omega arith))

    ring-le : s.ring.ring_size ≤ s.block_size
    unfolding ring_size
    ring-le = let k = sized.small in omega (arith, size)

    -- Where the ring is of the size that the block leaves for it and has sound counters, the files
    -- have inodes of their own and the deserialiser reads back what the serialiser writes for each,
    -- behind a save that came to its end a load into a store without files gives exactly the files
    -- saved, and the store that the save left.
    pub load-save :
        (ring : RingTracker)
        → AreDistinct s.bbs
        → load deserialize (record ((save serialize s).1) { bbs = []; ring = ring })
          ≡ (loaded s.bbs, (save serialize s).1)
    load-save ring distinct = rw save-eq (
        load-loaded deserialize (record s { bbs = []; ring = ring; memory = stored }) meta_of s.bbs
          (local_block_metadata-save s.block_size s.disp streamed meta_of AreWords-meta_of)
          (load_loop-image serialize deserialize _ s.block_size s.disp tracker stored
              s.ring.head_lsn s.bbs [] reads tracker-IsSized ring-le sized.tail-le (omega arith)
              (omega arith) stream-stored
            ∙ ap loaded (insert_all-append s.bbs [] distinct (All-nil s.bbs))))
