-- ===== src/ExtentTree/Add.antt =====
-- `do_insert` and `add`.
use peanuts.Base.{ℕ, ◌≤◌, ◌<◌, ◌≡◌, ◌∙◌, List, [], ◌∷◌, Option, some, arith, two64, if◌then◌else◌}
use peanuts.NodeSet.{Node, Cursor, cursor, make_node, rewind, to_list, lower_bound}
use peanuts.NodeSet.Order.{IsNode, IsNodes, IsBefore, IsAt, lower_bound-IsAt, to_list-lower_bound}
use peanuts.NodeSet.Lookup.{Place, place, lookup, lookup_at, lookup-before, lookup-to_list}
use peanuts.Extent.Points.{contains}
use peanuts.ExtentTree.{ExtentTree, add, do_insert}
use peanuts.ExtentTree.Insert.{insert-carve-IsInserted}
use peanuts.ExtentTree.Coalesce.{coalesce-IsPlaced}

-- The place of an offset once `v` is written over what was there.
abbrev pub overlaid : Node → ℕ → Option Place → Option Place
overlaid v p old = if contains v.ex p then some (place v p) else old

-- The set after `do_insert`: a node that covers `v` stands at the iterator, in order with the
-- others; `v` answers for its own range, and nothing else changed.
pub record IsWritten (v : Node) (old new : Cursor) : Type 0 where
  pub bs : List Node
  pub node : Node
  pub es : List Node
  pub at : new ≡ cursor bs (node ∷ es)
  pub whole : IsNode node
  pub starts : node.ex.begin ≤ v.ex.begin
  pub ends : v.ex.end ≤ node.ex.end
  pub before : IsBefore node.ex.begin bs
  pub after : IsNodes node.ex.end es
  pub says : (p : ℕ) → lookup_at new p ≡ overlaid v p (lookup_at old p)

pub do_insert-IsWritten :
    (v : Node) (c : Cursor) → IsNode v → IsAt v c → IsWritten v c (do_insert v c)
unfolding do_insert
do_insert-IsWritten v c n a =
    let i = insert-carve-IsInserted v n c a in
    let j = coalesce-IsPlaced v i.bs i.es n i.before i.after in
    rw i.at (record {
      bs = j.bs;
      node = j.node;
      es = j.es;
      at = j.at;
      whole = j.whole;
      starts = j.starts;
      ends = j.ends;
      before = j.before;
      after = j.after;
      says = λ p. j.keeps p ∙ ground (arith, lookup-before v.ex.begin i.bs p i.before, i.keeps p);
    })

pub rewind-IsNodes :
    (hi : ℕ) (bs es : List Node) → IsBefore hi bs → IsNodes hi es → IsNodes 0 (rewind bs es)
unfolding rewind
rewind-IsNodes hi [] [] b g = tt
rewind-IsNodes hi [] (e ∷ es) b g = (omega arith, g.1, g.2)
rewind-IsNodes hi (a ∷ bs) [] b g = rewind-IsNodes a.ex.begin bs (a ∷ []) b.2 (omega arith, b.1, tt)
rewind-IsNodes hi (a ∷ bs) (e ∷ es) b g =
    rewind-IsNodes a.ex.begin bs (a ∷ e ∷ es) b.2 (omega arith, b.1, (omega arith, g.1, g.2))

module _ (t : ExtentTree) (b e ptr id : ℕ) (ordered : IsNodes 0 t) (lt : b < e)
    (fits : e < two64) where
  abbrev new_node : Node
  new_node = make_node b e ptr id

  written :
      IsWritten new_node (lower_bound t new_node) (do_insert new_node (lower_bound t new_node))
  written = do_insert-IsWritten new_node _ (lt, fits) (lower_bound-IsAt new_node t ordered)

  -- For a tree in order and a non-empty 64-bit range, `add` makes the tree answer for the range
  -- with the client and the addresses added, and leaves its answer for every other offset as
  -- before.
  pub lookup-add :
      (p : ℕ) → lookup (add t b e ptr id) p ≡ overlaid (make_node b e ptr id) p (lookup t p)
  unfolding add
  lookup-add p =
      let w = written in
      let a = lower_bound-IsAt new_node t ordered in
      let end : lookup t p ≡ lookup_at (lower_bound t new_node) p =
        rw (to_list-lower_bound new_node t) at
          (lookup-to_list a.hi (lower_bound t new_node) p a.before) in
      rw (end, ← w.says p) (lookup-to_list w.node.ex.begin _ p (rw w.at w.before))

  -- For a tree in order and a non-empty 64-bit range, `add` keeps the nodes in order, disjoint and
  -- non-empty.
  pub add-IsNodes : IsNodes 0 (add t b e ptr id)
  unfolding add to_list
  add-IsNodes =
      let w = written in
      rw w.at (
        rewind-IsNodes w.node.ex.begin w.bs (w.node ∷ w.es) w.before
          (omega arith, w.whole, w.after))
