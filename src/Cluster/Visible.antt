-- ===== src/Cluster/Visible.antt =====
-- A byte that one process writes, and the others behind the next synchronisation.
use peanuts.Base.{ℕ, suc, ◌+◌, ◌-◌, ◌≤◌, ◌<◌, ◌≡◌, ◌∙◌, ap, sym, refl, arith, Option, some, none}
use peanuts.Base.{two64, List, length, get_elem?, get_elem?-some, zero}
use peanuts.Pmem.{Memory}
use peanuts.ExtentTree.{ExtentTree}
use peanuts.Rpm.{RankInfo}
use peanuts.BbHandler.{ok}
use peanuts.BbHandler.Sync.{AreMergeable}
use peanuts.BbRead.{done}
use peanuts.ThreadLocal.Values.{update-same, update-other}
use peanuts.Cluster.{Cluster, read, write, sync, trees_of, handler_of}
use peanuts.Cluster.Consistent.{IsConsistent, spec_of, spec_of-Refines}
use peanuts.Cluster.Fabric.{IsFabric}
use peanuts.Cluster.Spec.{Spec, visible, or_else, latest, overwrite}
use peanuts.Cluster.Write.{write-Refines}
use peanuts.Cluster.Sync.{sync-Refines, merged}
use peanuts.Cluster.Read.{read-visible}
use peanuts.NodeSet.Lookup.{lookup}
use native.Mathlib.Decide.{ℕ_discrete}
use peanuts.Cluster.Spec

-- Where only rank `w` among the first `n` wrote an offset last, its byte is the latest.
latest-of :
    (s : Spec) (w n p x : ℕ)
    → w < n
    → s.pending w p ≡ some x
    → ((r : ℕ) → w < r → r < n → s.pending r p ≡ none)
    → latest n s p ≡ some x
latest-of s w zero p x l e h = absurd (omega arith)
latest-of s w (suc n) p x l e h = elim (ℕ_discrete w n) [
  | yes k ↦ rw (← k, e) refl
  | no k ↦
      rw (h n (omega arith) (omega arith))
        (latest-of s w n p x (omega arith) e (λ r a b. h r a (omega arith)))
]

overwrite-inside :
    (data' : List ℕ) (ofs : ℕ) (f : ℕ → Option ℕ) (i : ℕ)
    → i < length data'
    → overwrite data' ofs f (ofs + i) ≡ get_elem? data' i
overwrite-inside data' ofs f i l = let e : ofs + i - ofs ≡ i = omega arith in rw e (ground arith)

module _ (c : Cluster) (g : ExtentTree) (w : ℕ) (data' : List ℕ) (ofs : ℕ) (rank : w < c.size)
    (later : (r p : ℕ)
      → w < r
      → r < c.size
      → ofs ≤ p
      → p < ofs + length data'
      → lookup (c.local r).local_tree p ≡ none) where
  -- What is committed of the range once it is written and synchronised.
  synced-committed :
      (i x : ℕ)
      → i < length data'
      → get_elem? data' i ≡ some x
      → latest c.size (Spec.write w data' ofs (spec_of c g)) (ofs + i) ≡ some x
  unfolding Spec.write handler_of
  synced-committed i x l e =
      let s = spec_of c g in
      latest-of (Spec.write w data' ofs s) w c.size (ofs + i) x rank
        (ap (λ (f : ℕ → Option ℕ). f (ofs + i)) (update-same s.pending w _)
          ∙ overwrite-inside data' ofs (s.pending w) i l
          ∙ e)
        (λ r a b.
          ap (λ (f : ℕ → Option ℕ). f (ofs + i)) (update-other s.pending w _ r (omega arith))
          ∙ rw (later r (ofs + i) a b (omega arith) (omega arith)) refl)

  visible-synced :
      (q i : ℕ)
      → i < length data'
      → visible (Spec.sync c.size (Spec.write w data' ofs (spec_of c g))) q (ofs + i)
        ≡ get_elem? data' i
  unfolding Spec.sync
  visible-synced q i l = let x = get_elem?-some data' i l in synced-committed i x.0 l x.1 ∙ sym x.1

-- Behind a write of at least one byte by the process of rank `w` that succeeds and a
-- synchronisation of all processes, a read of the same range by the process of any rank `q` returns
-- as many bytes as were written, and its buffer holds exactly those, where the processes, more than
-- one, are consistent before the write, no later rank has bytes of the range to synchronise, the
-- local trees can be merged one after the other, and the reading process reaches the blocks of the
-- others.
pub read-write :
    (c c' : Cluster) (g : ExtentTree) (w q ofs n file_size : ℕ) (data' : List ℕ) (buf : Memory)
    (win_get : ℕ → ℕ → ℕ → List ℕ) (info : ℕ → RankInfo) (file_pread : ℕ → ℕ → Option (List ℕ))
    → IsConsistent c g
    → 1 < c.size
    → w < c.size
    → q < c.size
    → 0 < length data'
    → ofs + length data' < two64
    → ((r p : ℕ)
        → w < r
        → r < c.size
        → ofs ≤ p
        → p < ofs + length data'
        → lookup (c.local r).local_tree p ≡ none)
    → write w data' ofs c ≡ ok (n, c')
    → AreMergeable g (trees_of c'.local c'.size)
    → IsFabric (sync file_size c') q win_get info
    → (buf' : Memory) × ((read win_get info file_pread (sync file_size c') q ofs n buf).0
        ≡ done (length data') buf')
      × ((i : ℕ) → i < length data' → get_elem? data' i ≡ some (buf' i))
read-write c c' g w q ofs n file_size data' buf win_get info file_pread k more rank reader pos fits
      later e m f =
    let s = spec_of c g in
    let x = write-Refines c g s w data' ofs k (spec_of-Refines c g) rank pos fits e in
    let y = sync-Refines c' g (Spec.write w data' ofs s) file_size x.2 x.3 (omega arith) m in
    let t = Spec.sync c'.size (Spec.write w data' ofs s) in
    let there : (i : ℕ) → i < length data' → visible t q (ofs + i) ≡ get_elem? data' i = λ i l.
      ap (λ (k : ℕ). visible (Spec.sync k (Spec.write w data' ofs s)) q (ofs + i)) x.1
      ∙ visible-synced c g w data' ofs rank later q i l in
    let r =
      read-visible (sync file_size c') (merged c' g) t q win_get info y.0 y.1 f
        (unfold sync in omega (arith, x.1)) file_pread ofs (length data') buf pos fits
        (λ i l z.
          let d = get_elem?-some data' i l in
          let e : some d.0 ≡ none = sym d.1 ∙ sym (there i l) ∙ z in cc) in
    rw x.0 (r.0, r.1, λ i l. sym (there i l) ∙ r.2 i l)
