-- ===== src/BbHandler/Sync.antt =====
-- `sync_extent`: what the trees say once those of all processes are merged.
use peanuts.Base.{ℕ, ◌≡◌, ◌≢◌, ◌∙◌, List, [], ◌∷◌, Option, refl, arith, ◌==◌, ap, false, true}
use peanuts.NodeSet.Order.{IsNodes}
use peanuts.NodeSet.Lookup.{Place, lookup, first}
use peanuts.ExtentTree.{ExtentTree, merge}
use peanuts.ExtentTree.MergeOrder.{IsMergeable, merge-IsNodes, lookup-merge_any}
use peanuts.BbHandler.{Handler, merge_all, sync_extent}

-- Each tree gathered is in order and can be merged into what those before it gave.
abbrev pub AreMergeable : ExtentTree → List ExtentTree → Type 0
AreMergeable t [] = Unit
AreMergeable t (x ∷ xs) = IsNodes 0 x × IsMergeable t x × AreMergeable (merge t x) xs

-- The answer of the last tree that has one, and where none has, the old one.
abbrev pub answer : List ExtentTree → ℕ → Option Place → Option Place
answer [] p old = old
answer (x ∷ xs) p old = answer xs p (first (lookup x p) old)

pub lookup-merge_all :
    (t : ExtentTree) (xs : List ExtentTree)
    → IsNodes 0 t
    → AreMergeable t xs
    → IsNodes 0 (merge_all t xs) × ((p : ℕ) → lookup (merge_all t xs) p ≡ answer xs p (lookup t p))
unfolding merge_all
lookup-merge_all t [] g a = (g, λ p. refl)
lookup-merge_all t (x ∷ xs) g a =
    let i = lookup-merge_all (merge t x) xs (merge-IsNodes t x g a.1) a.2 in
    (i.0, λ p. i.1 p ∙ ap (answer xs p) (lookup-merge_any t x p g a.0 a.1))

-- Where all processes, more than one, synchronise at least one tree, the global tree and those
-- gathered are in order, and each merge inserts every node at its place, the global tree is then in
-- order and gives for each offset the answer of the last tree gathered that has one, else the old
-- one, and the local tree is empty.
pub sync_extent_lem :
    (size : ℕ) (h : Handler) (x : ExtentTree) (xs : List ExtentTree)
    → size ≢ 1
    → IsNodes 0 h.global_tree
    → AreMergeable h.global_tree (x ∷ xs)
    → (let h' = sync_extent size size (x ∷ xs) h in
        IsNodes 0 h'.global_tree
        × ((p : ℕ) → lookup h'.global_tree p ≡ answer (x ∷ xs) p (lookup h.global_tree p))
        × (h'.local_tree ≡ []))
unfolding sync_extent
sync_extent_lem size h x xs n g a =
    let e : (size == 1) ≡ false = ground arith in
    let f : (size == size) ≡ true = ground arith in
    let m = lookup-merge_all h.global_tree (x ∷ xs) g a in rw (e, f) (m.0, m.1, refl)
