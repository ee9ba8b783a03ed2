-- ===== src/ExtentTree/MergeOrder.antt =====
-- `merge` and the order of the nodes.
use peanuts.Base.{ℕ, ◌≡◌, List, [], ◌∷◌, refl}
use peanuts.NodeSet.{Node, Cursor, lower_bound, to_list}
use peanuts.NodeSet.Order.{IsNodes, lower_bound-IsAt}
use peanuts.NodeSet.Lookup.{lookup, first}
use peanuts.ExtentTree.{ExtentTree, merge, merge_loop, do_insert}
use peanuts.ExtentTree.Add.{do_insert-IsWritten, rewind-IsNodes}
use peanuts.ExtentTree.Merge.{
  IsSplit, IsAligned, skip_to-IsSplit, written-IsSplit, skipped, lookup-merge,
}

merge_loop-IsSplit :
    (vs : List Node) (c : Cursor) → IsSplit c → IsAligned vs c → IsSplit (merge_loop vs c)
unfolding merge_loop
merge_loop-IsSplit [] c s a = s
merge_loop-IsSplit (v ∷ vs) c s a =
    let d = do_insert v c in
    let w = written-IsSplit (do_insert-IsWritten v c a.0 a.1) in
    merge_loop-IsSplit vs (skipped v d) (skip_to-IsSplit v w.hi d.before d.after w.before w.after)
      a.2

-- Every round of the merge of `x` into `t` inserts at the place of its node.
abbrev pub IsMergeable : ExtentTree → ExtentTree → Type 0
IsMergeable t [] = Unit
IsMergeable t (v ∷ vs) = IsAligned (v ∷ vs) (lower_bound t v)

-- Where a tree is in order and at each round of `merge` the iterator stands at the place of the
-- node to be inserted, the merged tree has its nodes in order, disjoint and non-empty.
pub merge-IsNodes : (t x : ExtentTree) → IsNodes 0 t → IsMergeable t x → IsNodes 0 (merge t x)
unfolding merge to_list
merge-IsNodes t [] g a = g
merge-IsNodes t (v ∷ vs) g a =
    let i = lower_bound-IsAt v t g in
    let s =
      merge_loop-IsSplit (v ∷ vs) (lower_bound t v)
        (record { hi = i.hi; before = i.before; after = i.after }) a in
    rewind-IsNodes s.hi _ _ s.before s.after

pub lookup-merge_any :
    (t x : ExtentTree) (p : ℕ)
    → IsNodes 0 t
    → IsNodes 0 x
    → IsMergeable t x
    → lookup (merge t x) p ≡ first (lookup x p) (lookup t p)
lookup-merge_any t [] p g h a = unfold merge in refl
lookup-merge_any t (v ∷ vs) p g h a = lookup-merge t v vs p g h a
