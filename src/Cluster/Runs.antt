-- ===== src/Cluster/Runs.antt =====
-- Runs of the processes: writes of one after the other and synchronisations of all, in any order.
use peanuts.Base.{
  ℕ, ◌+◌, ◌^◌, ◌<◌, ◌≡◌, ◌≢◌, ◌∙◌, sym, ap, refl, arith, none, some, two64, List, [], length,
}
use peanuts.NodeSet.Lookup.{lookup}
use peanuts.ExtentTree.{ExtentTree}
use peanuts.RingTracker.{RingTracker}
use peanuts.BbHandler.{ok}
use peanuts.BbHandler.Sync.{AreMergeable}
use peanuts.Cluster.{Cluster, handler_of, write, sync, trees_of}
use peanuts.Cluster.Consistent.{IsConsistent, Refines, AreApart}
use peanuts.Cluster.Spec.{Spec}
use peanuts.Cluster.Write.{write-Refines}
use peanuts.Cluster.Sync.{sync-Refines, merged}
use peanuts.RingTracker
use peanuts.Cluster.Spec

-- A new file: every process has an empty ring and no extents, and the blocks are apart.
pub record IsFresh (c : Cluster) : Type 0 where
  pub pos : 0 < c.ring_size
  pub small : c.ring_size < 2 ^ 63
  pub ring : (r : ℕ) → r < c.size → (c.local r).ring ≡ RingTracker.make c.ring_size
  pub own : (r : ℕ) → r < c.size → (c.local r).local_tree ≡ []
  pub global : (r : ℕ) → r < c.size → (c.local r).global_tree ≡ []
  pub apart :
      (r q : ℕ)
      → r < c.size
      → q < c.size
      → r ≢ q
      → c.node r ≡ c.node q
      → AreApart c.ring_size (c.disp r) (c.disp q)

-- A file without bytes.
abbrev pub nothing : Spec
nothing = record { committed = λ p. none; pending = λ r p. none }

-- What the processes come to from a new file, the global tree, and what the specification has come
-- to by the same calls.
pub data Run : Cluster → ExtentTree → Spec → Type 0 where
  start : {c : Cluster} → IsFresh c → Run c [] nothing
  wrote :
      {c c' : Cluster} {g : ExtentTree} {s : Spec}
      → Run c g s
      → (w : ℕ) (buf : List ℕ) (ofs n : ℕ) → w < c.size
      → 0 < length buf
      → ofs + length buf < two64
      → write w buf ofs c ≡ ok (n, c')
      → Run c' g (Spec.write w buf ofs s)
  synced :
      {c : Cluster} {g : ExtentTree} {s : Spec}
      → Run c g s
      → (file_size : ℕ) → 1 < c.size
      → AreMergeable g (trees_of c.local c.size)
      → Run (sync file_size c) (merged c g) (Spec.sync c.size s)

module _ (c : Cluster) (fresh : IsFresh c) where
  fresh-IsConsistent : IsConsistent c []
  unfolding handler_of RingTracker.make
  fresh-IsConsistent = record {
    ready = λ r l.
        let p = fresh.pos in
        let k = fresh.small in
        rw (fresh.ring r l, fresh.own r l)
          (record {
            nodes = tt;
            pos = omega arith;
            small = omega arith;
            room = omega arith;
            tail-le = omega arith;
            head-le = omega arith;
            live = λ p c a e. cc;
          });
    sized = λ r l. ap (λ (x : RingTracker). x.ring_size) (fresh.ring r l);
    own = λ r p w a l e.
        let d : none ≡ some (w, a) =
          ap (λ (t : ExtentTree). lookup t p) (sym (fresh.own r l)) ∙ e in
        absurd (cc);
    agreed = fresh.global;
    nodes = tt;
    live = λ p w a e. cc;
    apart = fresh.apart;
  }

  fresh-Refines : Refines c [] nothing
  unfolding handler_of
  fresh-Refines = record { committed = λ p. refl; pending = λ r p l. rw (fresh.own r l) refl }

-- In every state that the processes of a new file come to by non-empty writes that succeed, one
-- process after the other and each to offsets below 2^64, and by synchronisations, of more than one
-- process and of local trees that can be merged one after the other, in any order of these calls,
-- they are consistent, and hold what the specification of the same calls says.
pub Run-Refines :
    {c : Cluster} {g : ExtentTree} {s : Spec} → Run c g s → IsConsistent c g × Refines c g s
Run-Refines (start f) = (fresh-IsConsistent _ f, fresh-Refines _ f)
Run-Refines (wrote r w buf ofs n rank pos fits e) =
    let i = Run-Refines r in
    let x = write-Refines _ _ _ w buf ofs i.0 i.1 rank pos fits e in (x.2, x.3)
Run-Refines (synced r file_size more m) =
    let i = Run-Refines r in sync-Refines _ _ _ file_size i.0 i.1 more m
