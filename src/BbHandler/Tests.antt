-- ===== src/BbHandler/Tests.antt =====
-- Runs of a handler on an empty file.
use peanuts.Base.{ℕ, List, [], ◌∷◌, ◌≡◌, refl, arith, none, if◌then◌else◌, leb, ltb, ◌&&◌}
use peanuts.Base.{get_elem?, ◌-◌, length}
use peanuts.NodeSet.{make_node}
use peanuts.NodeSet.Lookup.{lookup}
use peanuts.NodeSet.Order.{IsNodes, lower_bound-IsAt}
use peanuts.RingTracker.{allocate, can_allocate, free_capacity, used_capacity}
use peanuts.RingBuffer.{reserve_nb}
use peanuts.Rpm.{nobody}
use peanuts.BbHandler.{Handler, ok, pwrite, write_at, truncate, size, cut_tree, sync_extent}
use peanuts.BbHandler.Write.{IsReady, local_byte, pwrite_lem}
use peanuts.ExtentTree.{ExtentTree}
use peanuts.BbHandler.Sync.{AreMergeable, answer, sync_extent_lem}
use peanuts.BbHandler.Truncate.{truncate_lem}

abbrev pub fresh : Handler
fresh = record {
  global_tree = make_node 100 110 0 2 ∷ [];
  local_tree = [];
  ring = record { ring_size = 4; head_lsn = 3; tail_lsn = 1 };
  memory = λ i. 0;
  accessed = nobody;
  deferred_file_size = 30;
}

pub fresh-IsReady : IsReady fresh
fresh-IsReady = record {
  nodes = tt;
  pos = omega arith;
  small = omega arith;
  room = omega arith;
  tail-le = omega arith;
  head-le = omega arith;
  live = λ p c a e. cc;
}

abbrev pub data' : List ℕ
data' = 7 ∷ 8 ∷ []

abbrev pub written : Handler
written = write_at 0 64 fresh data' 10 3 (allocate fresh.ring 2).1

pub written-ok : pwrite 0 64 fresh data' 10 ≡ ok (2, written)
unfolding pwrite reserve_nb can_allocate free_capacity used_capacity allocate
written-ok = refl

pwrite_lem_example :
    (length data' ≡ 2)
    × IsReady written
    × ((p : ℕ)
        → local_byte 64 written p
          ≡ (if leb 10 p && ltb p 12 then get_elem? data' (p - 10) else local_byte 64 fresh p))
pwrite_lem_example =
    pwrite_lem 64 0 fresh data' 10 fresh-IsReady (omega arith) (omega arith) written-ok

abbrev cut : Handler
cut = record fresh {
  local_tree = cut_tree [] 105;
  global_tree = cut_tree fresh.global_tree 105;
  deferred_file_size = 105;
}

truncate_lem_example :
    (size cut ≡ 105)
    × IsNodes 0 cut.local_tree
    × IsNodes 0 cut.global_tree
    × ((p : ℕ) → lookup cut.local_tree p ≡ (if ltb p 105 then none else none))
    × ((p : ℕ)
        → lookup cut.global_tree p ≡ (if ltb p 105 then lookup fresh.global_tree p else none))
truncate_lem_example = truncate_lem fresh cut 105 tt (omega arith) (unfold truncate in refl)

-- a tree gathered from one other process, whose node goes before those of the global tree
abbrev theirs : ExtentTree
theirs = make_node 20 22 1 5 ∷ []

theirs-AreMergeable : AreMergeable fresh.global_tree (theirs ∷ [])
theirs-AreMergeable = (
  omega arith,
  (omega arith, lower_bound-IsAt (make_node 20 22 1 5) fresh.global_tree (omega arith), tt),
  tt,
)

sync_extent_lem_example :
    IsNodes 0 (sync_extent 2 2 (theirs ∷ []) fresh).global_tree
    × ((p : ℕ)
        → lookup (sync_extent 2 2 (theirs ∷ []) fresh).global_tree p
          ≡ answer (theirs ∷ []) p (lookup fresh.global_tree p))
    × ((sync_extent 2 2 (theirs ∷ []) fresh).local_tree ≡ [])
sync_extent_lem_example =
    sync_extent_lem 2 fresh theirs [] (omega arith) (omega arith) theirs-AreMergeable
