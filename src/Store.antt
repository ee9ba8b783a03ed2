-- ===== src/Store.antt =====
-- `struct bb` and `class bb_store` of projects/peanuts/include/peanuts/bb.hpp: the files that a
-- process knows. The `fstat` and the broadcast of `open` and MPI are parameters.
pub mod Persistence
pub mod Words
pub mod Image
pub mod Loading
pub mod Snapshot
pub mod Files
pub mod Opening
pub mod Termination
pub mod Tests
use peanuts.Base.{ℕ, zero, suc, ◌+◌, ◌*◌, ◌/◌, ◌%◌, Bool, true, false, Option, some, none, List, []}
use peanuts.Base.{◌∷◌, ◌++◌, length, take, drop, ltb, ◌==◌, not, if◌then◌else◌, add64, sub64, ◌-◌}
use peanuts.Pmem.{Memory}
use peanuts.ExtentTree.{ExtentTree}
use peanuts.RingTracker.{RingTracker}
use peanuts.RingBuffer.{reserve_nb}
use peanuts.Rpm.{Accessed, RankInfo, local_pread, local_pwrite}
use peanuts.BbHandler.{Handler, Result, ok, err, pmem_too_small, open_failed, not_open, sync_extent}
use peanuts.Pmem
use peanuts.RingTracker
use peanuts.RingBuffer
use peanuts.Rpm
use peanuts.BbHandler

pub record Bb : Type 0 where
  pub ino : ℕ
  pub global_tree : ExtentTree
  pub local_tree : ExtentTree

pub record BlockMetadata : Type 0 where
  pub tracker : RingTracker
  pub snapshot_lsn : ℕ
  pub snapshot_size : ℕ

-- `bbs` is the set of the files; a set has no order, and the list stands in the order in which they
-- came. The block of the process starts at `disp`.
pub record Store : Type 0 where
  pub bbs : List Bb
  pub block_size : ℕ
  pub disp : ℕ
  pub rank : ℕ
  pub ring : RingTracker
  pub memory : Memory
  pub accessed : Accessed

-- `bb_hash` and `bb_equal`: files are compared by their inode.
unfoldable pub same_file : Bb → Bb → Bool
same_file a b = a.ino == b.ino

unfoldable pub find_bb : ℕ → List Bb → Option Bb
find_bb ino [] = none
find_bb ino (b ∷ bs) = if b.ino == ino then some b else find_bb ino bs

-- `insert`: a file that is there stays.
unfoldable pub insert_bb : Bb → List Bb → List Bb
unfolding same_file
insert_bb b [] = b ∷ []
insert_bb b (c ∷ cs) = if same_file c b then c ∷ cs else c ∷ insert_bb b cs

unfoldable pub unlink : ℕ → List Bb → List Bb
unlink ino [] = []
unlink ino (b ∷ bs) = if b.ino == ino then unlink ino bs else b ∷ unlink ino bs

-- `sizeof(block_metadata)`: five words.
abbrev pub metadata_size : ℕ
metadata_size = 40

unfoldable pub ring_size : ℕ → ℕ
ring_size block_size = sub64 block_size metadata_size

unfoldable pub create_local_ring : ℕ → Result RingTracker
unfolding ring_size
create_local_ring block_size =
    if ltb block_size metadata_size
    then err pmem_too_small
    else ok (RingTracker.make (ring_size block_size))

-- The constructor.
unfoldable pub make : ℕ → ℕ → ℕ → Memory → Result Store
unfolding create_local_ring
make block_size disp rank memory = elim (create_local_ring block_size) [
  | err e ↦ err e
  | ok ring ↦ ok (record {
    bbs = [];
    block_size = block_size;
    disp = disp;
    rank = rank;
    ring = ring;
    memory = memory;
    accessed = Rpm.nobody;
  })
]

-- `create_remote_rings`: a ring of the same size on the block of each rank.
pub record RemoteRing : Type 0 where
  pub rank : ℕ
  pub tracker : RingTracker

unfoldable pub rings_from : ℕ → ℕ → ℕ → List RemoteRing
unfolding ring_size
rings_from block_size zero rank = []
rings_from block_size (suc n) rank =
    record { rank = rank; tracker = RingTracker.make (ring_size block_size) }
    ∷ rings_from block_size n (rank + 1)

unfoldable pub create_remote_rings : ℕ → ℕ → List RemoteRing
unfolding rings_from
create_remote_rings block_size world_size = rings_from block_size world_size 0

-- A read of a remote ring, at the entry that `rpm_blocks` has for its rank.
unfoldable pub remote_pread :
    (ℕ → ℕ → ℕ → List ℕ) → Memory → RankInfo → RemoteRing → Accessed → ℕ → ℕ → List ℕ × Accessed
remote_pread win_get own info ring accessed count lsn =
    RingBuffer.pread (λ acc n ofs. Rpm.pread_noflush win_get own info acc n ofs) ring.tracker
      accessed count lsn

-- An open file: which one, and the size that the handler has for it. The handlers of one file share
-- its trees through the store.
pub record OpenFile : Type 0 where
  pub ino : ℕ
  pub deferred_file_size : ℕ

unfoldable pub handler_of : Store → Bb → ℕ → Handler
handler_of s b size = record {
  global_tree = b.global_tree;
  local_tree = b.local_tree;
  ring = s.ring;
  memory = s.memory;
  accessed = s.accessed;
  deferred_file_size = size;
}

unfoldable pub replace_bb : Bb → List Bb → List Bb
unfolding same_file
replace_bb b [] = []
replace_bb b (c ∷ cs) = if same_file c b then b ∷ cs else c ∷ replace_bb b cs

-- The store behind what a handler of the file `ino` has done.
unfoldable pub put_handler : Store → ℕ → Handler → Store
unfolding replace_bb
put_handler s ino h = record s {
  bbs =
      replace_bb (record { ino = ino; global_tree = h.global_tree; local_tree = h.local_tree })
        s.bbs;
  ring = h.ring;
  memory = h.memory;
  accessed = h.accessed;
}

-- `open`. What rank 0 broadcasts is the inode and the size, or nothing.
unfoldable pub open_file :
    ℕ → ℕ → List ExtentTree → Option (ℕ × ℕ) → Store → Result (OpenFile × Store)
unfolding insert_bb find_bb handler_of put_handler
open_file comm_size topo_size gathered none s = err open_failed
open_file comm_size topo_size gathered (some (ino, size)) s =
    let bbs = insert_bb (record { ino = ino; global_tree = []; local_tree = [] }) s.bbs in
    let s' = record s { bbs = bbs } in
    elim (find_bb ino bbs) [
      | none ↦ err open_failed
      | some b ↦ ok (
        record { ino = ino; deferred_file_size = size },
        put_handler s' ino (sync_extent comm_size topo_size gathered (handler_of s' b size)),
      )
    ]

-- `bb_handler::pwrite` through the store.
unfoldable pub put_result : Store → OpenFile → Result (ℕ × Handler) → Result (ℕ × Store)
unfolding put_handler
put_result s f (err e) = err e
put_result s f (ok (n, h)) = ok (n, put_handler s f.ino h)

unfoldable pub pwrite_found : Store → OpenFile → List ℕ → ℕ → Option Bb → Result (ℕ × Store)
unfolding put_result handler_of
pwrite_found s f buf ofs none = err not_open
pwrite_found s f buf ofs (some b) =
    put_result s f (BbHandler.pwrite s.rank s.disp (handler_of s b f.deferred_file_size) buf ofs)

unfoldable pub pwrite : Store → OpenFile → List ℕ → ℕ → Result (ℕ × Store)
unfolding find_bb pwrite_found
pwrite s f buf ofs = pwrite_found s f buf ofs (find_bb f.ino s.bbs)
