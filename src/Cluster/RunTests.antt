-- ===== src/Cluster/RunTests.antt =====
-- A run of two processes of one node: a write and a synchronisation.
use peanuts.Base.{◌*◌, ◌≡◌, [], ◌∷◌, refl, arith}
use peanuts.Rpm.{nobody}
use peanuts.RingTracker.{RingTracker, allocate, can_allocate, free_capacity, used_capacity}
use peanuts.RingBuffer.{reserve_nb}
use peanuts.BbHandler.{Handler, ok, write_at}
use peanuts.BbHandler.Sync.{AreMergeable}
use peanuts.BbHandler.Tests.{data'}
use peanuts.NodeSet.{make_node, to_list, insert, lower_bound}
use peanuts.NodeSet.Order.{lower_bound-IsAt}
use peanuts.ExtentTree.{add, merge, do_insert, coalesce, carve, hit}
use peanuts.Cluster.{Cluster, handler_of, put_handler, write, sync, trees_of}
use peanuts.Cluster.Consistent.{IsConsistent, Refines}
use peanuts.Cluster.Sync.{merged}
use peanuts.Cluster.Spec.{Spec}
use peanuts.Cluster.Runs.{IsFresh, start, wrote, synced, nothing, Run-Refines}
use peanuts.BbHandler
use peanuts.Cluster.Spec
use peanuts.RingTracker

abbrev unopened : Handler
unopened = record {
  global_tree = [];
  local_tree = [];
  ring = record { ring_size = 4; head_lsn = 0; tail_lsn = 0 };
  memory = λ i. 0;
  accessed = nobody;
  deferred_file_size = 0;
}

abbrev two : Cluster
two = record {
  size = 2;
  ring_size = 4;
  disp = λ r. 64 * r;
  node = λ r. 0;
  local = λ r. unopened;
  memory = λ k i. 0;
}

two-IsFresh : IsFresh two
unfolding RingTracker.make
two-IsFresh = record {
  pos = omega arith;
  small = omega arith;
  ring = λ r l. refl;
  own = λ r l. refl;
  global = λ r l. refl;
  apart = λ r q l k d e. omega arith;
}

abbrev after : Cluster
after = put_handler two 1 (
    write_at 1 64 (handler_of two 1) data' 10 0
      (record { ring_size = 4; head_lsn = 2; tail_lsn = 0 }))

after-ok : write 1 data' 10 two ≡ ok (2, after)
unfolding write BbHandler.pwrite reserve_nb can_allocate free_capacity used_capacity allocate
    handler_of
after-ok = refl

after-tree : add [] 10 12 0 1 ≡ make_node 10 12 0 1 ∷ []
unfolding add to_list do_insert coalesce insert carve lower_bound hit
after-tree = refl

after-AreMergeable : AreMergeable [] (trees_of after.local after.size)
unfolding trees_of put_handler write_at merge handler_of
after-AreMergeable =
    let e = after-tree in
    (
      tt,
      tt,
      (
        rw e (omega arith),
        rw e (omega arith, lower_bound-IsAt (make_node 10 12 0 1) [] tt, tt),
        tt,
      ),
    )

abbrev synced_spec : Spec
synced_spec = Spec.sync after.size (Spec.write 1 data' 10 nothing)

Run-Refines_example :
    IsConsistent (sync 12 after) (merged after [])
    × Refines (sync 12 after) (merged after []) synced_spec
unfolding put_handler
Run-Refines_example = Run-Refines (
    synced
      (wrote (start two-IsFresh) 1 data' 10 2 (omega arith) (omega arith) (omega arith) after-ok) 12
      (omega arith) after-AreMergeable)
