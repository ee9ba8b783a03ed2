-- ===== src/Cluster/Sync.antt =====
-- `sync`, beside its specification.
use peanuts.Base.{ℕ, ◌<◌, ◌≡◌, ◌≢◌, [], arith, refl, false, true, ◌==◌, ap, ◌∙◌, none, some, sym}
use peanuts.ExtentTree.{ExtentTree}
use peanuts.BbHandler.{Handler, merge_all, sync_extent}
use peanuts.BbHandler.Sync.{AreMergeable, answer, lookup-merge_all}
use peanuts.Cluster.{Cluster, trees_of, sync, ok_or, handler_of}
use peanuts.Cluster.Consistent.{IsConsistent, Refines, place_byte}
use peanuts.Cluster.Gathered.{trees_of-cons, place_byte-answer, answer-IsLive}
use peanuts.RingTracker.{RingTracker}
use peanuts.Cluster.Kept.{IsReady-memory}
use peanuts.NodeSet.Order.{IsNodes}
use peanuts.NodeSet.Lookup.{lookup}
use peanuts.Cluster.Spec.{Spec}
use peanuts.BbHandler.Write.{IsReady}
use peanuts.BbHandler
use peanuts.Cluster.Spec

-- The global tree behind a synchronisation of all ranks.
abbrev pub merged : Cluster → ExtentTree → ExtentTree
merged c g = merge_all g (trees_of c.local c.size)

module _ (c : Cluster) (g : ExtentTree) (consistent : IsConsistent c g) (file_size : ℕ)
    (several : c.size ≢ 1) (some_rank : 0 < c.size)
    (mergeable : AreMergeable g (trees_of c.local c.size)) where
  abbrev next : Cluster
  unfolding sync
  next = sync file_size c

  local-next :
      (r : ℕ)
      → r < c.size
      → next.local r ≡ record (c.local r) {
        global_tree = merged c g;
        local_tree = [];
        deferred_file_size = file_size;
      }
  unfolding sync sync_extent BbHandler.sync BbHandler.sync_file_size ok_or
  local-next r l =
      let e : (c.size == 1) ≡ false = ground arith in
      let f : (c.size == c.size) ≡ true = ground arith in
      let t = trees_of-cons c.local c.size some_rank in rw (← consistent.agreed r l, t.2, e, f) refl

  -- The merged tree, and what it says of an offset.
  merged-lookup :
      IsNodes 0 (merged c g)
      × ((p : ℕ) → lookup (merged c g) p ≡ answer (trees_of c.local c.size) p (lookup g p))
  merged-lookup = lookup-merge_all g (trees_of c.local c.size) consistent.nodes mergeable

  next-IsReady : (r : ℕ) → r < c.size → IsReady (handler_of next r)
  unfolding handler_of sync
  next-IsReady r l =
      let o : IsReady (c.local r) = IsReady-memory _ _ (consistent.ready r l) in
      rw (local-next r l) (record {
        nodes = tt;
        pos = o.pos;
        small = o.small;
        room = o.room;
        tail-le = o.tail-le;
        head-le = o.head-le;
        live = λ p v a e. cc;
      })

  -- The rings are as they were.
  ring-next : (r : ℕ) → r < c.size → (next.local r).ring ≡ (c.local r).ring
  ring-next r l = ap (λ (x : Handler). x.ring) (local-next r l)

  pub sync-IsConsistent : IsConsistent (sync file_size c) (merged c g)
  unfolding sync
  sync-IsConsistent = record {
    ready = next-IsReady;
    sized = λ r l. ap (λ (x : RingTracker). x.ring_size) (ring-next r l) ∙ consistent.sized r l;
    own = λ r p v a l k.
        let e : none ≡ some (v, a) =
          ap (λ (x : Handler). lookup x.local_tree p) (sym (local-next r l)) ∙ k in
        absurd (cc);
    agreed = λ r l. ap (λ (x : Handler). x.global_tree) (local-next r l);
    nodes = merged-lookup.0;
    live = λ p v a k.
        let b =
          answer-IsLive c g consistent c.size p (omega arith) v a (sym (merged-lookup.1 p) ∙ k) in
        let e = ring-next v b.0 in (b.0, rw e b.1, rw e b.2);
    apart = consistent.apart;
  }

  module _ (s : Spec) (refines : Refines c g s) where
    sync-committed :
        (p : ℕ)
        → place_byte (sync file_size c) (lookup (merged c g) p) ≡ (Spec.sync c.size s).committed p
    unfolding sync Spec.sync
    sync-committed p =
        ap (place_byte c) (merged-lookup.1 p)
        ∙ place_byte-answer c g consistent s refines c.size p (omega arith)

    pub merged-Refines : Refines (sync file_size c) (merged c g) (Spec.sync c.size s)
    unfolding sync handler_of Spec.sync
    merged-Refines = record {
      committed = sync-committed;
      pending = λ r p l. rw (local-next r l) refl;
    }

-- Where consistent processes, more than one, whose local trees can be merged one after the other
-- synchronise, they are consistent behind the call, under the merged tree, and where they held what
-- the specification says, the call does to the file what the specification of a synchronisation
-- says: for every offset the byte of the last rank that wrote it is committed, else the byte that
-- was, and nothing is pending.
pub sync-Refines :
    (c : Cluster) (g : ExtentTree) (s : Spec) (file_size : ℕ)
    → IsConsistent c g
    → Refines c g s
    → 1 < c.size
    → AreMergeable g (trees_of c.local c.size)
    → IsConsistent (sync file_size c) (merged c g)
      × Refines (sync file_size c) (merged c g) (Spec.sync c.size s)
sync-Refines c g s file_size k r more m = (
  sync-IsConsistent c g k file_size (omega arith) (omega arith) m,
  merged-Refines c g k file_size (omega arith) (omega arith) m s r,
)
