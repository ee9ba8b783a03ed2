-- ===== src/Cluster.antt =====
-- The processes of a run as `class bb_handler` of projects/peanuts/include/peanuts/bb.hpp joins
-- them: each has a handler of one shared file, those of a node write to one mapping, each in a block
-- of its own, and a collective call gives each of them the local trees of all. The window on the
-- mapping of another node is MPI's, and a parameter.
pub mod Blocks
pub mod Spec
pub mod Consistent
pub mod Kept
pub mod Write
pub mod Written
pub mod Gathered
pub mod Sync
pub mod Fabric
pub mod Layout
pub mod Placed
pub mod Read
pub mod Visible
pub mod Runs
mod Tests
mod RunTests
mod LayoutTests
use peanuts.Base.{ℕ, zero, suc, Option, some, List, [], ◌∷◌, ◌++◌}
use peanuts.Pmem.{Memory}
use peanuts.ExtentTree.{ExtentTree}
use peanuts.ThreadLocal.{update}
use peanuts.RingTracker.{RingTracker}
use peanuts.Rpm.{Accessed, RankInfo}
use peanuts.Store.{RemoteRing, remote_pread}
use peanuts.BbHandler.{Handler, Result, ok, err}
use peanuts.BbRead.{Outcome, pread_noflush}
use peanuts.RingTracker
use peanuts.BbHandler

-- A process has a handler, the start of its block and a node; the memory is that of its node. All
-- rings are of one size.
pub record Cluster : Type 0 where
  pub size : ℕ
  pub ring_size : ℕ
  pub disp : ℕ → ℕ
  pub node : ℕ → ℕ
  pub local : ℕ → Handler
  pub memory : ℕ → Memory

-- The handler of a rank, on the memory of the rank's node.
unfoldable pub handler_of : Cluster → ℕ → Handler
handler_of c r = record (c.local r) { memory = c.memory (c.node r) }

-- What a rank's handler has become, and the memory of its node.
unfoldable pub put_handler : Cluster → ℕ → Handler → Cluster
unfolding update
put_handler c r h = record c {
  local = update c.local r h;
  memory = update c.memory (c.node r) h.memory;
}

-- `pwrite` by the process of a rank.
unfoldable pub write : ℕ → List ℕ → ℕ → Cluster → Result (ℕ × Cluster)
unfolding handler_of put_handler
write r buf ofs c = elim (BbHandler.pwrite r (c.disp r) (handler_of c r) buf ofs) [
  | err e ↦ err e
  | ok (n, h) ↦ ok (n, put_handler c r h)
]

-- The local trees of the first `n` ranks, as `all_gather_v` gives them.
unfoldable pub trees_of : (ℕ → Handler) → ℕ → List ExtentTree
trees_of local zero = []
trees_of local (suc n) = trees_of local n ++ (local n).local_tree ∷ []

unfoldable pub ok_or : Handler → Result Handler → Handler
ok_or h (ok h') = h'
ok_or h (err e) = h

-- `sync` by all processes, where rank 0 reads the size of the file.
unfoldable pub sync : ℕ → Cluster → Cluster
unfolding trees_of ok_or
sync file_size c = record c {
  local = λ r.
      ok_or (c.local r)
        (BbHandler.sync c.size c.size (trees_of c.local c.size) (some file_size) (c.local r));
}

-- `rring(rank)` of the process `q`, where `info` is the entry of a rank in its `rpm_blocks`.
module _ (win_get : ℕ → ℕ → ℕ → List ℕ) (info : ℕ → RankInfo) where
  unfoldable pub rring_pread : Cluster → ℕ → ℕ → Accessed → ℕ → ℕ → List ℕ × Accessed
  rring_pread c q rank accessed count lsn =
      let ring : RemoteRing = record { rank = rank; tracker = RingTracker.make c.ring_size } in
      remote_pread win_get (c.memory (c.node q)) (info rank) ring accessed count lsn

  -- `pread_noflush` by the process of a rank.
  unfoldable pub read :
      (ℕ → ℕ → Option (List ℕ)) → Cluster → ℕ → ℕ → ℕ → Memory → Outcome × Accessed
  unfolding rring_pread handler_of
  read file_pread c q ofs count buf =
      pread_noflush (c.disp q) (handler_of c q) ofs count (rring_pread c q) file_pread buf
