-- ===== src/Store/Tests.antt =====
-- Runs of a store.
use peanuts.Base.{ℕ, List, [], ◌∷◌, ◌≡◌, refl, arith, some, none, true, ◌≤◌, Option, length}
use peanuts.Base.{if◌then◌else◌, leb, ◌&&◌, ltb, get_elem?, ◌-◌, ◌≢◌, ◌<◌, ◌^◌}
use peanuts.NodeSet.{make_node}
use peanuts.Rpm.{nobody, local_pread, local_pwrite}
use peanuts.BbHandler.Write.{IsReady, local_byte}
use peanuts.BbHandler.{ok, write_at}
use peanuts.Store.{Bb, Store, OpenFile, find_bb, handler_of, pwrite, reserve_nb, put_handler}
use peanuts.Store.{ring_size, same_file, open_file, unlink}
use peanuts.Store.Persistence.{save, load, loaded, save_loop, entry, bytes_of, no_fuel}
use peanuts.Store.Persistence.{local_block_metadata, metadata_of, word_of}
use peanuts.Store.Snapshot.{load-save}
use peanuts.Store.Termination.{load-ends}
use peanuts.Store.Opening.{new_bb, open_file-unlink}
use peanuts.Store.Files.{AreReady, pwrite-isolated, pwrite-own}
use peanuts.RingTracker.{can_allocate, allocate, free_capacity, used_capacity}
use peanuts.RingBuffer.{reserve_nb}
use peanuts.Pmem
use peanuts.BbHandler

abbrev file : ℕ → Bb
file ino = record { ino = ino; global_tree = []; local_tree = make_node 0 2 ino 0 ∷ [] }

-- A file as the number of its inode; only such files are written and read.
abbrev serialize : Bb → List ℕ
serialize b = b.ino ∷ []

abbrev deserialize : List ℕ → Option Bb
deserialize [] = none
deserialize (ino ∷ bytes) = some (file ino)

-- two files with two bytes each, in a ring of 60 bytes
abbrev pub store : Store
store = record {
  bbs = file 0 ∷ file 2 ∷ [];
  block_size = 100;
  disp = 128;
  rank = 0;
  ring = record { ring_size = 60; head_lsn = 4; tail_lsn = 0 };
  memory = λ i. i;
  accessed = nobody;
}

load-save_example :
    load deserialize (record ((save serialize store).1) { bbs = []; ring = store.ring })
    ≡ (loaded store.bbs, (save serialize store).1)
load-save_example =
    load-save serialize store
      (record {
        pos = omega arith;
        small = omega arith;
        room = omega arith;
        tail-le = omega arith;
        head-le = omega arith;
      })
      done deserialize (refl, (refl, tt)) (unfold ring_size in refl) store.ring
      (unfold same_file in ((refl, tt), (tt, tt)))
  where
    done : (save serialize store).0 ≡ true
    done =
        unfold save save_loop entry bytes_of allocate reserve_nb can_allocate free_capacity
          used_capacity in
        refl

pub store-AreReady : AreReady store
unfolding handler_of
store-AreReady = (ready 0 (omega arith), (ready 2 (omega arith), tt))
  where
    ready : (i : ℕ) → i ≤ 2 → IsReady (handler_of store (file i) 0)
    ready i l = record {
      nodes = omega arith;
      pos = omega arith;
      small = omega arith;
      room = omega arith;
      tail-le = omega arith;
      head-le = omega arith;
      live = λ p c a e. ground arith;
    }

abbrev pub two_bytes : List ℕ
two_bytes = 7 ∷ 8 ∷ []

abbrev pub opened : OpenFile
opened = record { ino = 0; deferred_file_size = 0 }

abbrev pub written : Store
written =
    put_handler store 0
      (write_at 0 128 (handler_of store (file 0) 0) (7 ∷ 8 ∷ []) 1 4 (allocate store.ring 2).1)

pub written-ok : pwrite store opened (7 ∷ 8 ∷ []) 1 ≡ ok (2, written)
unfolding pwrite BbHandler.pwrite reserve_nb can_allocate free_capacity used_capacity allocate
    local_pwrite Pmem.pwrite
written-ok = refl

pwrite-isolated_example :
    (find_bb 2 written.bbs ≡ some (file 2))
    × ((p : ℕ)
        → local_byte 128 (handler_of written (file 2) 0) p
          ≡ local_byte 128 (handler_of store (file 2) 0) p)
unfolding handler_of put_handler
pwrite-isolated_example =
    pwrite-isolated store written opened (7 ∷ 8 ∷ []) 1 2 store-AreReady (omega arith) (omega arith)
      written-ok (file 2) (omega arith) (unfold find_bb in refl)

pwrite-own_example :
    (length two_bytes ≡ 2)
    × (b : Bb) × (find_bb 0 written.bbs ≡ some b)
    × ((p : ℕ)
        → local_byte 128 (handler_of written b 0) p ≡ (
            if leb 1 p && ltb p 3
            then get_elem? two_bytes (p - 1)
            else local_byte 128 (handler_of store (file 0) 0) p))
unfolding handler_of put_handler
pwrite-own_example =
    pwrite-own store written opened (7 ∷ 8 ∷ []) 1 2 store-AreReady (omega arith) (omega arith)
      written-ok (file 0) (unfold find_bb in refl)

open_file-unlink_example :
    (s' : Store) × (open_file 1 4 [] (some (2, 50)) (record store { bbs = unlink 2 store.bbs })
      ≡ ok (record { ino = 2; deferred_file_size = 50 }, s'))
    × (find_bb 2 s'.bbs ≡ some (new_bb 2))
    × ((j : ℕ) → j ≢ 2 → find_bb j s'.bbs ≡ find_bb j store.bbs)
open_file-unlink_example = open_file-unlink 4 [] 2 50 store

-- a block that `save` has written, with two files in it
abbrev saved : Store
saved = record ((save serialize store).1) { bbs = [] }

saved-bound :
    (local_block_metadata saved.block_size saved.disp saved.memory).tracker.head_lsn < 2 ^ 63 - 8
unfolding local_block_metadata metadata_of word_of ring_size local_pread Pmem.pread save save_loop
    entry bytes_of reserve_nb can_allocate free_capacity used_capacity allocate local_pwrite
    Pmem.pwrite
saved-bound = omega arith

load-ends_example : (load deserialize saved).0 ≢ no_fuel
load-ends_example = load-ends deserialize saved saved-bound
