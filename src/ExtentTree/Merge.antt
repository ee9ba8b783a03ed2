-- ===== src/ExtentTree/Merge.antt =====
-- `merge`. Its loop inserts each node of the other tree at the iterator that the last round left.
use peanuts.Base.{ℕ, ◌≤◌, ◌≡◌, ◌≢◌, ◌∙◌, List, [], ◌∷◌, Option, refl, arith, inl, inr, Bool-cases}
use peanuts.Base.{ap, ◌<◌}
use peanuts.NodeSet.{insert, insert_at, insert_forward, Node, Cursor, cursor, comp, followed_by}
use peanuts.NodeSet.{to_list, lower_bound, lower_from, rewind}
use peanuts.NodeSet.Order.{IsNode, IsNodes, IsBefore, IsAt, lower_bound-IsAt, to_list-lower_bound}
use peanuts.NodeSet.Order.{IsBefore-weaken, insert-fresh}
use peanuts.NodeSet.Lookup.{Place, lookup, lookup_at, first, lookup-before, lookup-after}
use peanuts.NodeSet.Lookup.{lookup-to_list}
use peanuts.ExtentTree.{ExtentTree, merge, merge_loop, do_insert, skip_to, carve, hit, coalesce}
use peanuts.ExtentTree.Insert.{carve_loop-stop}
use peanuts.ExtentTree.Add.{overlaid, IsWritten, do_insert-IsWritten}

-- The nodes on both sides of an iterator are in order.
pub record IsSplit (c : Cursor) : Type 0 where
  pub hi : ℕ
  pub before : IsBefore hi c.before
  pub after : IsNodes hi c.after

pub skip_to-IsSplit :
    (v : Node) (hi : ℕ) (bs es : List Node)
    → IsBefore hi bs
    → IsNodes hi es
    → IsSplit (skip_to v bs es)
unfolding skip_to
skip_to-IsSplit v hi bs [] b g = record { hi = hi; before = b; after = tt }
skip_to-IsSplit v hi bs (e ∷ es) b g = elim (Bool-cases (comp v e)) [
  | inl t ↦ rw (t, skip_to) (record { hi = hi; before = b; after = g })
  | inr t ↦
      rw (t, skip_to)
        (skip_to-IsSplit v e.ex.end (e ∷ bs) es
          (omega arith, g.1, IsBefore-weaken hi e.ex.begin bs g.0 b) g.2)
]

lookup-skip_to :
    (v : Node) (hi : ℕ) (bs es : List Node) (p : ℕ)
    → IsBefore hi bs
    → IsNodes hi es
    → lookup_at (skip_to v bs es) p ≡ lookup_at (cursor bs es) p
unfolding skip_to
lookup-skip_to v hi bs [] p b g = refl
lookup-skip_to v hi bs (e ∷ es) p b g = elim (Bool-cases (comp v e)) [
  | inl t ↦ rw (t, skip_to)
  | inr t ↦
      rw (t, skip_to)
        (lookup-skip_to v e.ex.end (e ∷ bs) es p
            (omega arith, g.1, IsBefore-weaken hi e.ex.begin bs g.0 b) g.2
          ∙ ground (arith, lookup-before hi bs p b))
]

abbrev pub skipped : Node → Cursor → Cursor
skipped v c = skip_to v c.before c.after

-- At every round the iterator is the place of the node that is inserted there.
abbrev pub IsAligned : List Node → Cursor → Type 0
IsAligned [] c = Unit
IsAligned (v ∷ vs) c = IsNode v × IsAt v c × IsAligned vs (skipped v (do_insert v c))

-- The place of an offset once the nodes `vs` are written, one after the other.
abbrev pub overlaid_all : List Node → ℕ → Option Place → Option Place
overlaid_all [] p old = old
overlaid_all (v ∷ vs) p old = overlaid_all vs p (overlaid v p old)

pub written-IsSplit :
    {v : Node} {c : Cursor} (w : IsWritten v c (do_insert v c)) → IsSplit (do_insert v c)
written-IsSplit w =
    rw w.at
      (record { hi = w.node.ex.begin; before = w.before; after = (omega arith, w.whole, w.after) })

merge_loop-says :
    (vs : List Node) (c : Cursor) (p : ℕ)
    → IsSplit c
    → IsAligned vs c
    → lookup (to_list (merge_loop vs c)) p ≡ overlaid_all vs p (lookup_at c p)
unfolding merge_loop
merge_loop-says [] c p s a = lookup-to_list s.hi c p s.before
merge_loop-says (v ∷ vs) c p s a =
    let w = do_insert-IsWritten v c a.0 a.1 in
    let d = do_insert v c in
    let s' = written-IsSplit w in
    merge_loop-says vs (skipped v d) p (skip_to-IsSplit v s'.hi d.before d.after s'.before s'.after)
      a.2
    ∙ ap (overlaid_all vs p)
        (lookup-skip_to v s'.hi d.before d.after p s'.before s'.after ∙ w.says p)

overlaid_all-lookup :
    (lo : ℕ) (vs : List Node) (p : ℕ) (old : Option Place)
    → IsNodes lo vs
    → overlaid_all vs p old ≡ first (lookup vs p) old
overlaid_all-lookup lo [] p old g = refl
overlaid_all-lookup lo (v ∷ vs) p old g =
    overlaid_all-lookup v.ex.end vs p (overlaid v p old) g.2
    ∙ ground (arith, lookup-after v.ex.end vs p g.2)

-- Where both trees are in order and at each round of `merge` the iterator stands at the place of
-- the node to be inserted, the merged tree answers as the other tree does, and where that has no
-- answer, as before.
pub lookup-merge :
    (t : ExtentTree) (v : Node) (vs : List Node) (p : ℕ)
    → IsNodes 0 t
    → IsNodes 0 (v ∷ vs)
    → IsAligned (v ∷ vs) (lower_bound t v)
    → lookup (merge t (v ∷ vs)) p ≡ first (lookup (v ∷ vs) p) (lookup t p)
unfolding merge
lookup-merge t v vs p g h a =
    let i = lower_bound-IsAt v t g in
    let c = lower_bound t v in
    let start : lookup t p ≡ lookup_at c p =
      rw (to_list-lower_bound v t) at (lookup-to_list i.hi c p i.before) in
    rw start (
      merge_loop-says (v ∷ vs) c p (record { hi = i.hi; before = i.before; after = i.after }) a
      ∙ overlaid_all-lookup 0 (v ∷ vs) p (lookup_at c p) h)

-- The nodes `a` and `b` of the tree, and `v` and `w` of the other: `a` lies between `v` and `w`.
module _ (a b v w : Node) (tree : IsNodes 0 (a ∷ b ∷ [])) (other : IsNodes 0 (v ∷ w ∷ [])) where
  round_one :
      v.ex.end ≤ a.ex.begin
      → v.client_id ≢ a.client_id
      → skipped v (do_insert v (cursor [] (a ∷ b ∷ []))) ≡ cursor (v ∷ []) (a ∷ b ∷ [])
  unfolding do_insert
  round_one h k =
      rw (carve-stop, insert-fresh v other.1 [] (a ∷ b ∷ []) tt (h, tree.1, tree.2))
        (unfold coalesce skip_to followed_by in ground arith)
    where
      carve-stop : carve v (cursor [] (a ∷ b ∷ [])) ≡ cursor [] (a ∷ b ∷ [])
      carve-stop = unfold carve hit in carve_loop-stop 4 v (cursor [] (a ∷ b ∷ [])) (ground arith)

  round_two :
      v.ex.end ≤ a.ex.begin
      → a.ex.end ≤ w.ex.begin
      → w.ex.begin < b.ex.end
      → b.ex.begin < w.ex.end
      → a.client_id ≢ b.client_id
      → to_list (skipped w (do_insert w (cursor (v ∷ []) (a ∷ b ∷ [])))) ≡ v ∷ a ∷ b ∷ []
  unfolding do_insert
  round_two h k l m n =
      rw (carve-stop, blocked) (unfold coalesce skip_to followed_by to_list rewind in ground arith)
    where
      carve-stop : carve w (cursor (v ∷ []) (a ∷ b ∷ [])) ≡ cursor (v ∷ []) (a ∷ b ∷ [])
      carve-stop =
          unfold carve hit in carve_loop-stop 4 w (cursor (v ∷ []) (a ∷ b ∷ [])) (ground arith)

      blocked : insert w (cursor (v ∷ []) (a ∷ b ∷ [])) ≡ cursor (a ∷ v ∷ []) (b ∷ [])
      blocked = unfold insert insert_at insert_forward in ground arith

  -- Of two trees of two nodes, in order: where the first node of the tree lies between the two of
  -- the other, and the second of the tree meets the second of the other, and neighbours do not
  -- join, `merge` loses the second node of the other tree.
  pub merge_loses :
      v.ex.end ≤ a.ex.begin
      → a.ex.end ≤ w.ex.begin
      → w.ex.begin < b.ex.end
      → b.ex.begin < w.ex.end
      → v.client_id ≢ a.client_id
      → a.client_id ≢ b.client_id
      → merge (a ∷ b ∷ []) (v ∷ w ∷ []) ≡ v ∷ a ∷ b ∷ []
  unfolding merge merge_loop
  merge_loses h k l m n o = rw (start, round_one h n) (round_two h k l m o)
    where
      start : lower_bound (a ∷ b ∷ []) v ≡ cursor [] (a ∷ b ∷ [])
      start = unfold lower_bound lower_from in ground arith
