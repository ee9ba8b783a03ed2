-- ===== src/Cluster/Tests.antt =====
-- Three processes, the last of them on a node of its own.
use peanuts.Base.{zero, suc, ◌≢◌, none, ℕ, ◌*◌, ◌<◌, ◌≡◌, ◌==◌, if◌then◌else◌, not, List, [], ◌∷◌}
use peanuts.Base.{refl, arith, get_elem?, some, length, ◌+◌, ◌≤◌, Option}
use peanuts.Pmem.{Memory}
use peanuts.Rpm.{RankInfo, nobody}
use peanuts.RingTracker.{allocate, can_allocate, free_capacity, used_capacity}
use peanuts.RingBuffer.{reserve_nb}
use peanuts.BbHandler.{Handler, ok, write_at}
use peanuts.BbHandler.Sync.{AreMergeable}
use peanuts.BbHandler.Tests.{data'}
use peanuts.BbRead.{done}
use peanuts.NodeSet.{make_node, to_list, insert, lower_bound}
use peanuts.Cluster.{Cluster, handler_of, put_handler, write, sync, read, trees_of}
use peanuts.Cluster.Consistent.{IsConsistent, Refines, spec_of, spec_of-Refines}
use peanuts.Cluster.Fabric.{IsFabric}
use peanuts.Cluster.Visible.{read-write}
use peanuts.ExtentTree.{add, merge, do_insert, coalesce, carve, hit}
use peanuts.NodeSet.Order.{lower_bound-IsAt}
use peanuts.Cluster.Spec.{Spec, visible}
use peanuts.Cluster.Sync.{merged, sync-Refines}
use peanuts.Cluster.Write.{write-Refines}
use peanuts.Cluster.Read.{read-visible}
use peanuts.Cluster.Spec
use peanuts.BbHandler
use peanuts.Pmem

abbrev start : Handler
start = record {
  global_tree = [];
  local_tree = [];
  ring = record { ring_size = 4; head_lsn = 3; tail_lsn = 1 };
  memory = λ i. 0;
  accessed = nobody;
  deferred_file_size = 0;
}

abbrev three : Cluster
three = record {
  size = 3;
  ring_size = 4;
  disp = λ r. 64 * r;
  node = λ r. if r == 2 then 1 else 0;
  local = λ r. start;
  memory = λ k i. 0;
}

three-IsConsistent : IsConsistent three []
unfolding handler_of
three-IsConsistent = record {
  ready = λ r l. record {
    nodes = tt;
    pos = omega arith;
    small = omega arith;
    room = omega arith;
    tail-le = omega arith;
    head-le = omega arith;
    live = λ p c a e. cc;
  };
  sized = λ r l. refl;
  own = λ r p w a l e. cc;
  agreed = λ r l. refl;
  nodes = tt;
  live = λ p w a e. cc;
  apart = λ r q l k d e. omega arith;
}

-- The process of rank 2 writes two bytes.
abbrev writer : Handler
writer = write_at 2 128 (handler_of three 2) data' 10 3 (allocate start.ring 2).1

abbrev written : Cluster
written = put_handler three 2 writer

written-ok : write 2 data' 10 three ≡ ok (2, written)
unfolding write BbHandler.pwrite reserve_nb can_allocate free_capacity used_capacity allocate
    handler_of
written-ok = refl

abbrev entry : ℕ → RankInfo
entry r = record { local = not (r == 2); target = if r == 2 then 1 else 0; disp = 64 * r }

abbrev window : ℕ → ℕ → ℕ → List ℕ
window target n ofs = Pmem.pread (written.memory target) n ofs

abbrev no_file : ℕ → ℕ → Option (List ℕ)
no_file ofs n = none

abbrev buffer : Memory
buffer i = 0

synced-IsFabric : IsFabric (sync 12 written) 0 window entry
unfolding sync put_handler
synced-IsFabric = record {
  disp = λ r l. refl;
  same_node = λ r l e. ground arith;
  window = λ r n ofs l e. ground arith;
}

added : add [] 10 12 3 2 ≡ make_node 10 12 3 2 ∷ []
unfolding add to_list do_insert coalesce insert carve lower_bound hit
added = refl

written-AreMergeable : AreMergeable [] (trees_of written.local written.size)
unfolding trees_of put_handler write_at merge handler_of
written-AreMergeable =
    let e : add [] 10 12 3 2 ≡ make_node 10 12 3 2 ∷ [] = added in
    (
      tt,
      tt,
      (
        tt,
        tt,
        (
          rw e (omega arith),
          rw e (omega arith, lower_bound-IsAt (make_node 10 12 3 2) [] tt, tt),
          tt,
        ),
      ),
    )

read-write_example :
    (buf' : Memory) × ((read window entry no_file (sync 12 written) 0 10 2 buffer).0 ≡ done 2 buf')
    × ((i : ℕ) → i < 2 → get_elem? data' i ≡ some (buf' i))
unfolding put_handler
read-write_example =
    read-write three written [] 2 0 10 2 12 data' buffer window entry no_file three-IsConsistent
      (omega arith) (omega arith) (omega arith) (omega arith) (omega arith) (λ r p a b c d. refl)
      written-ok written-AreMergeable synced-IsFabric

write-Refines_example :
    (length data' ≡ 2)
    × (written.size ≡ 3)
    × IsConsistent written []
    × Refines written [] (Spec.write 2 data' 10 (spec_of three []))
write-Refines_example =
    write-Refines three [] (spec_of three []) 2 data' 10 three-IsConsistent
      (spec_of-Refines three []) (omega arith) (omega arith) (omega arith) written-ok

sync-Refines_example :
    IsConsistent (sync 12 written) (merged written [])
    × Refines (sync 12 written) (merged written []) (Spec.sync written.size (spec_of written []))
unfolding put_handler
sync-Refines_example =
    sync-Refines written [] (spec_of written []) 12 write-Refines_example.2
      (spec_of-Refines written []) (omega arith) written-AreMergeable

-- The process of rank 2 reads its own bytes.
abbrev own_entry : ℕ → RankInfo
own_entry r = record (entry r) { local = r == 2 }

own-IsFabric : IsFabric written 2 window own_entry
unfolding put_handler
own-IsFabric = record {
  disp = λ r l. refl;
  same_node = λ r l e. ground arith;
  window = λ r n ofs l e. ground arith;
}

abbrev own_spec : Spec
own_spec = Spec.write 2 data' 10 (spec_of three [])

own_visible : (i : ℕ) → i < 2 → visible own_spec 2 (10 + i) ≢ none
unfolding Spec.write
own_visible zero l e = cc
own_visible (suc zero) l e = cc
own_visible (suc (suc i)) l e = absurd (omega arith)

read-visible_example :
    (buf' : Memory) × ((read window own_entry no_file written 2 10 2 buffer).0 ≡ done 2 buf')
    × ((i : ℕ) → i < 2 → visible own_spec 2 (10 + i) ≡ some (buf' i))
    × ((i : ℕ) → 2 ≤ i → buf' i ≡ 0)
unfolding put_handler
read-visible_example =
    read-visible written [] own_spec 2 window own_entry write-Refines_example.2
      write-Refines_example.3 own-IsFabric (omega arith) no_file 10 2 buffer (omega arith)
      (omega arith) own_visible
