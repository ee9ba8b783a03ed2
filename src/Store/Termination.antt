-- ===== src/Store/Termination.antt =====
-- The rounds of the loop of `load`.
use peanuts.Base.{ℕ, zero, suc, ◌+◌, ◌-◌, ◌^◌, ◌<◌, ◌≢◌, Option, some, none, List, arith}
use peanuts.Base.{Bool-cases, inl, inr, ltb, leb, add64}
use peanuts.Pmem.{Memory}
use peanuts.RingTracker.{RingTracker}
use peanuts.Store.{Bb, Store, insert_bb}
use peanuts.Store.Persistence.{load_loop, load_from, load, no_fuel, bad_snapshot, ring_bytes}
use peanuts.Store.Persistence.{word_of, local_block_metadata, Loaded, in_block}

-- What follows the deserialiser ends with an exception or goes on with a file.
of_file :
    (next : Bb → Loaded) (bbs : List Bb) (o : Option Bb)
    → ((b : Bb) → next b ≢ no_fuel)
    → elim o [ none ↦ bad_snapshot bbs | some b ↦ next b ] ≢ no_fuel
of_file next bbs none h e = cc
of_file next bbs (some b) h e = h b e

module _ (deserialize : List ℕ → Option Bb) where
  -- A round passes at least the bytes of a size, and does not wrap around.
  load_loop-ends :
      (fuel block_size disp : ℕ) (t : RingTracker) (m : Memory) (cur : ℕ) (bbs : List Bb)
      → t.head_lsn < 2 ^ 63 - 8
      → t.head_lsn - cur < fuel
      → load_loop deserialize fuel block_size disp t m cur bbs ≢ no_fuel
  unfolding load_loop
  load_loop-ends zero block_size disp t m cur bbs w f = absurd (omega arith)
  load_loop-ends (suc fuel) block_size disp t m cur bbs w f =
      let size = word_of (ring_bytes disp t m 8 cur) in
      let body = add64 cur 8 in
      elim (Bool-cases (ltb cur t.head_lsn)) [
        | inr h ↦ rw (h, load_loop) (λ e. cc)
        | inl h ↦ elim (Bool-cases (in_block block_size t 8 cur)) [
          | inr i ↦ rw (h, load_loop) (rw (i, load_loop) (λ e. cc))
          | inl i ↦ elim (Bool-cases (leb (2 ^ 63) size)) [
            | inl k ↦ rw (h, load_loop) (rw (i, load_loop) (rw (k, load_loop) (λ e. cc)))
            | inr k ↦ elim (Bool-cases (in_block block_size t size body)) [
              | inr j ↦
                  rw (h, load_loop)
                    (rw (i, load_loop) (rw (k, load_loop) (rw (j, load_loop) (λ e. cc))))
              | inl j ↦
                  rw (h, load_loop)
                    (rw (i, load_loop)
                      (rw (k, load_loop)
                        (rw (j, load_loop)
                          (of_file _ bbs (deserialize (ring_bytes disp t m size body)) (λ b.
                            load_loop-ends fuel block_size disp t m (add64 body size)
                              (insert_bb b bbs) w (ground arith))))))
            ]
          ]
        ]
      ]

  -- Where the head of the ring in the metadata is below 2^63 - 8, the loop of `load` comes to an
  -- end, whatever bytes the block holds and whatever the deserialiser makes of them: with the files
  -- that it has read, with an exception, or with a read that is undefined, of a ring without bytes
  -- or behind the end of the block.
  pub load-ends :
      (s : Store)
      → (local_block_metadata s.block_size s.disp s.memory).tracker.head_lsn < 2 ^ 63 - 8
      → (load deserialize s).0 ≢ no_fuel
  unfolding load load_from
  load-ends s w =
      let meta = local_block_metadata s.block_size s.disp s.memory in
      load_loop-ends (meta.tracker.head_lsn - meta.snapshot_lsn + 1) s.block_size s.disp
        meta.tracker s.memory meta.snapshot_lsn s.bbs w (omega arith)
