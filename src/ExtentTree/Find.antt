-- ===== src/ExtentTree/Find.antt =====
-- `find`.
use peanuts.Base.{ℕ, ◌≤◌, ◌<◌, ◌≡◌, ◌∙◌, List, [], ◌∷◌, true, refl, arith, inl, inr, Bool-cases}
use peanuts.Base.{sym, ap}
use peanuts.NodeSet.{Node, make_node, overlaps, lower_bound}
use peanuts.NodeSet.Order.{IsNodes, Reaches, lower_bound-IsAt, to_list-lower_bound, IsNodes-weaken}
use peanuts.NodeSet.Lookup.{lookup, lookup-before, lookup-after, lookup-to_list, first}
use peanuts.Extent.Points.{contains}
use peanuts.ExtentTree.{ExtentTree, find, find_checked}

module _ (v : Node) where
  find_checked-lookup :
      (hi : ℕ) (bs es : List Node) (p : ℕ)
      → IsNodes hi es
      → Reaches v.ex.begin es
      → contains v.ex p ≡ true
      → lookup ((find_checked v bs es).after) p ≡ lookup es p
  unfolding find_checked overlaps
  find_checked-lookup hi bs [] p g r h = refl
  find_checked-lookup hi bs (e ∷ es) p g r h = ground (arith, lookup-after e.ex.end es p g.2)

  -- The first node of what is found meets the range, or nothing is found.
  abbrev pub Starts : List Node → Type 0
  Starts [] = Unit
  Starts (e ∷ es) = (v.ex.begin < e.ex.end) × (e.ex.begin < v.ex.end)

  find_checked-Starts :
      (hi : ℕ) (bs es : List Node)
      → IsNodes hi es
      → Starts ((find_checked v bs es).after) × IsNodes hi ((find_checked v bs es).after)
  unfolding find_checked overlaps
  find_checked-Starts hi bs [] g = (tt, tt)
  find_checked-Starts hi bs (e ∷ es) g = elim (Bool-cases (overlaps e v)) [
    | inl t ↦ unfold find_checked in rw t (ground arith)
    | inr t ↦ unfold find_checked in rw t (tt, tt)
  ]

module _ (t : ExtentTree) (b e : ℕ) (ordered : IsNodes 0 t) where
  abbrev temp : Node
  temp = make_node b e 0 0

  start : (p : ℕ) → b ≤ p → lookup t p ≡ lookup ((lower_bound t temp).after) p
  start p h =
      let a = lower_bound-IsAt temp t ordered in
      let c = lower_bound t temp in
      (rw (to_list-lower_bound temp t) at (lookup-to_list a.hi c p a.before))
      ∙ ap (λ o. first o (lookup c.after p))
          (lookup-before a.hi c.before p a.before (omega (arith, a.hi-le)))

  -- For a tree in order, what `find` returns is in order, starts with a node that overlaps the
  -- range if it has any, and answers for every offset of the range as the tree does.
  pub find_lem :
      IsNodes 0 (find t b e)
      × Starts temp (find t b e)
      × ((p : ℕ) → b ≤ p → p < e → lookup (find t b e) p ≡ lookup t p)
  unfolding find
  find_lem =
      let a = lower_bound-IsAt temp t ordered in
      let c = lower_bound t temp in
      let f = find_checked-Starts temp a.hi c.before c.after a.after in
      (
        IsNodes-weaken 0 a.hi _ (omega arith) f.1,
        f.0,
        λ p h k.
            find_checked-lookup temp a.hi c.before c.after p a.after a.reaches (ground arith)
            ∙ sym (start p h),
      )
