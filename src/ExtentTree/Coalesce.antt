-- ===== src/ExtentTree/Coalesce.antt =====
-- Joining an inserted node with its neighbours.
use peanuts.Base.{ℕ, ◌≤◌, ◌<◌, ◌≡◌, ◌∙◌, refl, ap, List, [], ◌∷◌, true, inl, inr, arith, Bool-cases}
use peanuts.Base.{two64}
use peanuts.NodeSet.{Node, Cursor, cursor, followed_by, make_node}
use peanuts.NodeSet.Order.{IsNode, IsNodes, IsBefore, insert-fresh}
use peanuts.NodeSet.Lookup.{lookup, lookup_at, place, lookup-before, first}
use peanuts.ExtentTree.{coalesce, coalesce_prev_at, coalesce_next_at}

-- A node that covers `v` stands at the iterator, in order with the others, and the set says what it
-- said before.
pub record IsPlaced (v : Node) (old new : Cursor) : Type 0 where
  pub bs : List Node
  pub node : Node
  pub es : List Node
  pub at : new ≡ cursor bs (node ∷ es)
  pub whole : IsNode node
  pub starts : node.ex.begin ≤ v.ex.begin
  pub ends : v.ex.end ≤ node.ex.end
  pub before : IsBefore node.ex.begin bs
  pub after : IsNodes node.ex.end es
  pub keeps : (p : ℕ) → lookup_at new p ≡ lookup_at old p

module _ (a b : Node) (anode : IsNode a) (bnode : IsNode b) (next : followed_by a b ≡ true) where
  abbrev joined : Node
  joined = make_node a.ex.begin b.ex.end a.ptr a.client_id

  place-joined : (p : ℕ) → b.ex.begin ≤ p → p < two64 → place joined p ≡ place b p
  unfolding followed_by
  place-joined p h k = ground arith

  joined-IsNode : IsNode joined × (a.ex.end ≡ b.ex.begin)
  unfolding followed_by
  joined-IsNode = ground arith

  -- Two nodes that follow one another in the file and in the ring say what the joined node says.
  lookup-joined : (es : List Node) (p : ℕ) → lookup (joined ∷ es) p ≡ lookup (a ∷ b ∷ es) p
  lookup-joined es p = ground (arith, place-joined p, joined-IsNode)

coalesce_prev-IsPlaced :
    (v : Node) (bs es : List Node)
    → IsNode v
    → IsBefore v.ex.begin bs
    → IsNodes v.ex.end es
    → IsPlaced v (cursor bs (v ∷ es)) (coalesce_prev_at bs (v ∷ es))
unfolding coalesce_prev_at
coalesce_prev-IsPlaced v [] es n b g = record {
  bs = [];
  node = v;
  es = es;
  at = refl;
  whole = n;
  starts = omega arith;
  ends = omega arith;
  before = tt;
  after = g;
  keeps = λ p. refl;
}
coalesce_prev-IsPlaced v (a ∷ bs) es n b g = elim (Bool-cases (followed_by a v)) [
  | inl t ↦
      let (m, e) = joined-IsNode a v b.1 n t in
      rw (t, coalesce_prev_at)
        (record {
          bs = bs;
          node = joined a v b.1 n t;
          es = es;
          at = insert-fresh (joined a v b.1 n t) m bs es b.2 g;
          whole = m;
          starts = omega arith;
          ends = omega arith;
          before = b.2;
          after = g;
          keeps = λ p.
              rw (insert-fresh (joined a v b.1 n t) m bs es b.2 g)
                (ground (arith, lookup-joined a v b.1 n t es p, lookup-before a.ex.begin bs p b.2));
        })
  | inr t ↦
      rw (t, coalesce_prev_at)
        (record {
          bs = a ∷ bs;
          node = v;
          es = es;
          at = refl;
          whole = n;
          starts = omega arith;
          ends = omega arith;
          before = b;
          after = g;
          keeps = λ p. refl;
        })
]

coalesce_next-IsPlaced :
    (v : Node) (bs es : List Node)
    → IsNode v
    → IsBefore v.ex.begin bs
    → IsNodes v.ex.end es
    → IsPlaced v (cursor bs (v ∷ es)) (coalesce_next_at bs (v ∷ es))
unfolding coalesce_next_at
coalesce_next-IsPlaced v bs [] n b g = record {
  bs = bs;
  node = v;
  es = [];
  at = refl;
  whole = n;
  starts = omega arith;
  ends = omega arith;
  before = b;
  after = g;
  keeps = λ p. refl;
}
coalesce_next-IsPlaced v bs (a ∷ es) n b g = elim (Bool-cases (followed_by v a)) [
  | inl t ↦
      let (m, e) = joined-IsNode v a n g.1 t in
      rw (t, coalesce_next_at)
        (record {
          bs = bs;
          node = joined v a n g.1 t;
          es = es;
          at = insert-fresh (joined v a n g.1 t) m bs es b g.2;
          whole = m;
          starts = omega arith;
          ends = omega arith;
          before = b;
          after = g.2;
          keeps = λ p.
              rw (insert-fresh (joined v a n g.1 t) m bs es b g.2)
                (ap (first (lookup bs p)) (lookup-joined v a n g.1 t es p));
        })
  | inr t ↦
      rw (t, coalesce_next_at)
        (record {
          bs = bs;
          node = v;
          es = a ∷ es;
          at = refl;
          whole = n;
          starts = omega arith;
          ends = omega arith;
          before = b;
          after = g;
          keeps = λ p. refl;
        })
]

-- Joining the inserted node with both neighbours.
pub coalesce-IsPlaced :
    (v : Node) (bs es : List Node)
    → IsNode v
    → IsBefore v.ex.begin bs
    → IsNodes v.ex.end es
    → IsPlaced v (cursor bs (v ∷ es)) (coalesce (cursor bs (v ∷ es)))
unfolding coalesce
coalesce-IsPlaced v bs es n b g =
    let i = coalesce_prev-IsPlaced v bs es n b g in
    let j = coalesce_next-IsPlaced i.node i.bs i.es i.whole i.before i.after in
    rw i.at (record {
      bs = j.bs;
      node = j.node;
      es = j.es;
      at = j.at;
      whole = j.whole;
      starts = omega (arith, i.starts, j.starts);
      ends = omega (arith, i.ends, j.ends);
      before = j.before;
      after = j.after;
      keeps = λ p. j.keeps p ∙ (rw i.at at (i.keeps p));
    })
