-- ===== src/BbHandler.antt =====
-- `class bb_handler` of projects/peanuts/include/peanuts/bb.hpp: a file of the burst buffer, as one
-- process sees it. The trees are those of the shared `bb`, the ring and the memory those of the
-- process. MPI and the file below are parameters: what a broadcast or a gather gives, the bytes
-- that a read of a remote ring or of the file returns.
pub mod Write
pub mod Truncate
pub mod Sync
pub mod Isolation
pub mod Tests
use peanuts.Base.{ℕ, ◌-◌, max, Bool, true, false, Option, some, none, List, [], ◌∷◌, length, ltb}
use peanuts.Base.{◌==◌, if◌then◌else◌, add64, two64}
use peanuts.Pmem.{Memory}
use peanuts.ExtentTree.{ExtentTree, back, find, merge, remove}
use peanuts.RingTracker.{RingTracker}
use peanuts.RingBuffer.{reserve_nb}
use peanuts.Rpm.{Accessed, local_pwrite}
use peanuts.ExtentTree
use peanuts.RingBuffer

pub record Handler : Type 0 where
  pub global_tree : ExtentTree
  pub local_tree : ExtentTree
  pub ring : RingTracker
  pub memory : Memory
  pub accessed : Accessed
  pub deferred_file_size : ℕ

pub data Error : Type 0 where
  no_space truncate_failed file_size_failed : Error
  pmem_too_small open_failed not_open : Error

pub data Result {ℓ} (A : Type ℓ) : Type ℓ where
  ok : A → Result A
  err : Error → Result A

-- `tree.size() != 0` and `tree.back().ex.end`; 0 stands for the empty tree.
unfoldable pub end_of : ExtentTree → ℕ
end_of t = elim (back t) [ none ↦ 0 | some n ↦ n.ex.end ]

unfoldable pub size : Handler → ℕ
unfolding end_of
size h = max (max (end_of h.global_tree) (end_of h.local_tree)) h.deferred_file_size

unfoldable pub cut_tree : ExtentTree → ℕ → ExtentTree
unfolding end_of
cut_tree t n = if ltb n (end_of t) then remove t n (two64 - 1) else t

-- `truncated` tells what rank 0 broadcasts: whether the file was truncated.
unfoldable pub truncate : Bool → Handler → ℕ → Result Handler
unfolding cut_tree
truncate true h n = ok (record h {
  local_tree = cut_tree h.local_tree n;
  global_tree = cut_tree h.global_tree n;
  deferred_file_size = n;
})
truncate false h n = err truncate_failed

-- The loop over the gathered trees, in the order of their ranks.
unfoldable pub merge_all : ExtentTree → List ExtentTree → ExtentTree
merge_all t [] = t
merge_all t (x ∷ xs) = merge_all (merge t x) xs

-- `gathered` is what `all_gather_v` and the deserialiser give; nothing, where no rank sent a byte.
unfoldable pub sync_extent : ℕ → ℕ → List ExtentTree → Handler → Handler
unfolding merge_all
sync_extent comm_size topo_size [] h = h
sync_extent comm_size topo_size (t ∷ ts) h = if comm_size == 1 then h else record h {
  global_tree = merge_all h.global_tree (t ∷ ts);
  local_tree = if comm_size == topo_size then [] else h.local_tree;
}

-- The size of the file that rank 0 broadcasts, or nothing if it could not be read.
unfoldable pub sync_file_size : Option ℕ → Handler → Result Handler
sync_file_size none h = err file_size_failed
sync_file_size (some n) h = ok (record h { deferred_file_size = n })

unfoldable pub sync : ℕ → ℕ → List ExtentTree → Option ℕ → Handler → Result Handler
unfolding sync_extent sync_file_size
sync comm_size topo_size gathered file_size h =
    sync_file_size file_size (sync_extent comm_size topo_size gathered h)

-- `pwrite` of the process `global_rank`, whose block starts at `disp`.
module _ (global_rank disp : ℕ) where
  unfoldable pub write_at : Handler → List ℕ → ℕ → ℕ → RingTracker → Handler
  write_at h buf ofs lsn ring = record h {
    ring = ring;
    memory = RingBuffer.pwrite (local_pwrite disp) ring h.memory buf lsn;
    local_tree = ExtentTree.add h.local_tree ofs (add64 ofs (length buf)) lsn global_rank;
  }

  unfoldable pub pwrite : Handler → List ℕ → ℕ → Result (ℕ × Handler)
  unfolding write_at
  pwrite h buf ofs = elim (reserve_nb h.ring (length buf)) [
    | none ↦ err no_space
    | some (lsn, ring) ↦ ok (length buf, write_at h buf ofs lsn ring)
  ]
