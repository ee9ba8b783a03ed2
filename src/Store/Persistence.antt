-- ===== src/Store/Persistence.antt =====
-- `save` and `load` of `class bb_store` of projects/peanuts/include/peanuts/bb.hpp: the snapshot of
-- the files in the ring of the process, and the metadata behind the ring. Words are stored in 8
-- bytes, the lowest first; the serialiser of zpp is a parameter.
use peanuts.Base.{ℕ, zero, suc, ◌+◌, ◌-◌, ◌*◌, ◌/◌, ◌%◌, ◌^◌, Bool, true, false, Option, some, none}
use peanuts.Base.{List, [], ◌∷◌, ◌++◌, length, take, drop, ltb, leb, if◌then◌else◌, add64, sub64}
use peanuts.Base.{◌&&◌, ◌==◌}
use peanuts.Pmem.{Memory}
use peanuts.RingTracker.{RingTracker, to_ofs, first_segment_size_ofs}
use peanuts.RingBuffer.{reserve_nb}
use peanuts.Rpm.{local_pread, local_pwrite}
use peanuts.Store.{Bb, BlockMetadata, Store, insert_bb, ring_size, metadata_size}
use peanuts.RingBuffer

-- A word as it lies in memory.
unfoldable pub bytes_of : ℕ → ℕ → List ℕ
bytes_of zero w = []
bytes_of (suc n) w = (w % 256) ∷ bytes_of n (w / 256)

unfoldable pub word_of : List ℕ → ℕ
word_of [] = 0
word_of (b ∷ bs) = b + 256 * word_of bs

unfoldable pub word_at : ℕ → List ℕ → ℕ
unfolding word_of
word_at i bytes = word_of (take 8 (drop (8 * i) bytes))

unfoldable pub metadata_bytes : BlockMetadata → List ℕ
unfolding bytes_of
metadata_bytes m =
    bytes_of 8 m.tracker.ring_size
    ++ (bytes_of 8 m.tracker.head_lsn
        ++ (bytes_of 8 m.tracker.tail_lsn
            ++ (bytes_of 8 m.snapshot_lsn ++ bytes_of 8 m.snapshot_size)))

unfoldable pub metadata_of : List ℕ → BlockMetadata
unfolding word_at
metadata_of bytes = record {
  tracker = record {
    ring_size = word_at 0 bytes;
    head_lsn = word_at 1 bytes;
    tail_lsn = word_at 2 bytes;
  };
  snapshot_lsn = word_at 3 bytes;
  snapshot_size = word_at 4 bytes;
}

-- The metadata lie in the block behind the ring.
unfoldable pub save_block_metadata : ℕ → ℕ → Memory → BlockMetadata → Memory
unfolding metadata_bytes ring_size
save_block_metadata block_size disp m meta =
    local_pwrite disp m (metadata_bytes meta) (ring_size block_size)

unfoldable pub local_block_metadata : ℕ → ℕ → Memory → BlockMetadata
unfolding metadata_of ring_size
local_block_metadata block_size disp m =
    metadata_of (local_pread m disp metadata_size (ring_size block_size))

-- What `load` has read, or how it ends: an exception of the deserialiser or of `std::vector`; a read
-- that a ring without bytes or a segment behind the end of the block makes undefined; or no end.
pub data Loaded : Type 0 where
  loaded : List Bb → Loaded
  bad_snapshot : List Bb → Loaded
  bad_read : Loaded
  no_fuel : Loaded

module _ (serialize : Bb → List ℕ) where
  -- What `save` writes for a file: the size, and behind it the file.
  unfoldable pub entry : Bb → List ℕ
  unfolding bytes_of
  entry b = bytes_of 8 (length (serialize b)) ++ serialize b

  -- The loop of `save`. The flag tells that it came to its end; if not, the ring was full.
  unfoldable pub save_loop : ℕ → List Bb → RingTracker → Memory → Bool × RingTracker × Memory
  save_loop disp [] t m = (true, t, m)
  save_loop disp (b ∷ bs) t m = elim (reserve_nb t (length (entry b))) [
    | none ↦ (false, t, m)
    | some (lsn, t') ↦
        save_loop disp bs t' (RingBuffer.pwrite (local_pwrite disp) t' m (entry b) lsn)
  ]

  unfoldable pub save : Store → Bool × Store
  unfolding save_loop save_block_metadata
  save s =
      let (done, t, m) = save_loop s.disp s.bbs s.ring s.memory in
      let meta : BlockMetadata = record {
        tracker = t;
        snapshot_lsn = s.ring.head_lsn;
        snapshot_size = sub64 t.head_lsn s.ring.head_lsn;
      } in
      if done
      then (true, record s { ring = t; memory = save_block_metadata s.block_size s.disp m meta })
      else (false, record s { ring = t; memory = m })

-- Bytes of the local ring.
abbrev pub ring_bytes : ℕ → RingTracker → Memory → ℕ → ℕ → List ℕ
ring_bytes disp t m n lsn =
    (RingBuffer.pread {S = Unit {0}} (λ s k o. (local_pread m disp k o, s)) t tt n lsn).0

-- A read of the ring is defined: the ring has bytes, as an LSN is divided by their number, and both
-- segments end in the block.
unfoldable pub in_block : ℕ → RingTracker → ℕ → ℕ → Bool
in_block block_size t n lsn =
    let ofs = to_ofs lsn t.ring_size in
    let size = first_segment_size_ofs t ofs n in
    ltb 0 t.ring_size
    && (if size == n
        then leb (ofs + n) block_size
        else (leb (ofs + size) block_size && leb (sub64 n size) block_size))

module _ (deserialize : List ℕ → Option Bb) where
  -- `while (cur_lsn < local_ring_.head())`, a round for each file. A vector of 2^63 bytes or more is
  -- refused by its constructor.
  unfoldable pub load_loop : ℕ → ℕ → ℕ → RingTracker → Memory → ℕ → List Bb → Loaded
  unfolding insert_bb word_of in_block
  load_loop zero block_size disp t m cur bbs = no_fuel
  load_loop (suc fuel) block_size disp t m cur bbs = elim (ltb cur t.head_lsn) [
    | false ↦ loaded bbs
    | true ↦ elim (in_block block_size t 8 cur) [
      | false ↦ bad_read
      | true ↦
          let serialized_size = word_of (ring_bytes disp t m 8 cur) in
          let body = add64 cur 8 in
          elim (leb (2 ^ 63) serialized_size) [
            | true ↦ bad_snapshot bbs
            | false ↦ elim (in_block block_size t serialized_size body) [
              | false ↦ bad_read
              | true ↦ elim (deserialize (ring_bytes disp t m serialized_size body)) [
                | none ↦ bad_snapshot bbs
                | some b ↦
                    load_loop fuel block_size disp t m (add64 body serialized_size)
                      (insert_bb b bbs)
              ]
            ]
          ]
    ]
  ]

  -- A round of the loop passes at least the 8 bytes of a size.
  unfoldable pub load_from : Store → BlockMetadata → Loaded × Store
  unfolding load_loop
  load_from s meta =
      let t = meta.tracker in
      let result =
        load_loop (t.head_lsn - meta.snapshot_lsn + 1) s.block_size s.disp t s.memory
          meta.snapshot_lsn s.bbs in
      (
        result,
        record s {
          ring = t;
          bbs = elim result [
            | loaded bbs ↦ bbs
            | bad_snapshot bbs ↦ bbs
            | bad_read ↦ s.bbs
            | no_fuel ↦ s.bbs
          ];
        },
      )

  -- The tracker comes from the metadata.
  unfoldable pub load : Store → Loaded × Store
  unfolding load_from
  load s = load_from s (local_block_metadata s.block_size s.disp s.memory)
