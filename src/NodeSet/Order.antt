-- ===== src/NodeSet/Order.antt =====
-- The order of the nodes of a set, and what insertion does at a place where the node fits.
use peanuts.Base.{ℕ, ◌≤◌, ◌<◌, ◌≡◌, refl, Bool-cases, inl, inr, List, [], ◌∷◌, arith, two64}
use peanuts.NodeSet.{Node, Cursor, cursor, comp, insert, insert_at, insert_back, insert_keep}
use peanuts.NodeSet.{insert_keep_at, insert_rev, lower_from, lower_bound, rewind, to_list}

-- A node holds at least one offset, and its end is a 64-bit number.
abbrev pub IsNode : Node → Type 0
IsNode e = (e.ex.begin < e.ex.end) × (e.ex.end < two64)

-- The nodes are in order, disjoint, and none starts before `lo`.
abbrev pub IsNodes : ℕ → List Node → Type 0
IsNodes lo [] = Unit
IsNodes lo (e ∷ es) = (lo ≤ e.ex.begin) × IsNode e × IsNodes e.ex.end es

-- The same of nodes in reverse order, none of which ends behind `hi`.
abbrev pub IsBefore : ℕ → List Node → Type 0
IsBefore hi [] = Unit
IsBefore hi (b ∷ bs) = (b.ex.end ≤ hi) × IsNode b × IsBefore b.ex.begin bs

-- The first node ends behind `p`.
abbrev pub Reaches : ℕ → List Node → Type 0
Reaches p [] = Unit
Reaches p (e ∷ es) = p < e.ex.end

pub IsNodes-weaken : (a b : ℕ) (es : List Node) → a ≤ b → IsNodes b es → IsNodes a es
IsNodes-weaken a b [] h g = tt
IsNodes-weaken a b (e ∷ es) h g = (omega arith, g.1, g.2)

pub IsBefore-weaken : (a b : ℕ) (bs : List Node) → a ≤ b → IsBefore a bs → IsBefore b bs
IsBefore-weaken a b [] h g = tt
IsBefore-weaken a b (e ∷ es) h g = (omega arith, g.1, g.2)

-- The place of an iterator at which `v` may be inserted, once the nodes that it overlaps are gone.
pub record IsAt (v : Node) (c : Cursor) : Type 0 where
  pub hi : ℕ
  pub hi-le : hi ≤ v.ex.begin
  pub before : IsBefore hi c.before
  pub after : IsNodes hi c.after
  pub reaches : Reaches v.ex.begin c.after

module _ (v : Node) (node : IsNode v) where
  insert_back-fresh :
      (bs es : List Node) → IsBefore v.ex.begin bs → insert_back v bs es ≡ cursor bs (v ∷ es)
  unfolding insert_back
  insert_back-fresh [] es h = refl
  insert_back-fresh (b ∷ bs) es h = ground arith

  insert_rev-fresh : (bs : List Node) → IsBefore v.ex.begin bs → insert_rev v bs ≡ v ∷ bs
  unfolding insert_rev
  insert_rev-fresh [] h = refl
  insert_rev-fresh (b ∷ bs) h = ground arith

  -- Where `v` fits between two neighbours it is inserted there.
  pub insert-fresh :
      (bs es : List Node)
      → IsBefore v.ex.begin bs
      → IsNodes v.ex.end es
      → insert v (cursor bs es) ≡ cursor bs (v ∷ es)
  unfolding insert insert_at
  insert-fresh bs [] h g = insert_back-fresh bs [] h
  insert-fresh bs (e ∷ es) h g = ground (arith, insert_back-fresh bs (e ∷ es) h)

  pub insert_keep-fresh :
      (bs es : List Node)
      → IsBefore v.ex.begin bs
      → IsNodes v.ex.end es
      → insert_keep v (cursor bs es) ≡ cursor (v ∷ bs) es
  unfolding insert_keep insert_keep_at
  insert_keep-fresh bs [] h g = ground (arith, insert_rev-fresh bs h)
  insert_keep-fresh bs (e ∷ es) h g = ground (arith, insert_rev-fresh bs h)

  -- With a hint one node too far the search goes back over that node.
  pub insert-over :
      (bs es : List Node) (n : Node)
      → IsBefore v.ex.begin bs
      → v.ex.end ≤ n.ex.begin
      → IsNode n
      → IsNodes n.ex.end es
      → insert v (cursor (n ∷ bs) es) ≡ cursor bs (v ∷ n ∷ es)
  unfolding insert insert_at insert_back
  insert-over bs [] n h k m g = ground (arith, insert_back-fresh bs (n ∷ []) h)
  insert-over bs (e ∷ es) n h k m g = ground (arith, insert_back-fresh bs (n ∷ e ∷ es) h)

-- `lower_bound` finds such a place, and changes nothing.
lower_from-IsAt :
    (v : Node) (hi : ℕ) (bs es : List Node)
    → hi ≤ v.ex.begin
    → IsBefore hi bs
    → IsNodes hi es
    → IsAt v (lower_from bs es v)
unfolding lower_from
lower_from-IsAt v hi bs [] h b g = record {
  hi = hi;
  hi-le = h;
  before = b;
  after = tt;
  reaches = tt;
}
lower_from-IsAt v hi bs (e ∷ es) h b g = elim (Bool-cases (comp e v)) [
  | inl t ↦
      rw (t, lower_from)
        (lower_from-IsAt v e.ex.end (e ∷ bs) es (ground arith)
          (omega arith, g.1, IsBefore-weaken hi e.ex.begin bs g.0 b) g.2)
  | inr t ↦
      rw (t, lower_from)
        (record { hi = hi; hi-le = h; before = b; after = g; reaches = ground arith })
]

pub lower_bound-IsAt : (v : Node) (es : List Node) → IsNodes 0 es → IsAt v (lower_bound es v)
unfolding lower_bound
lower_bound-IsAt v es g = lower_from-IsAt v 0 [] es (omega arith) tt g

to_list-lower_from : (v : Node) (bs es : List Node) → to_list (lower_from bs es v) ≡ rewind bs es
unfolding to_list lower_from
to_list-lower_from v bs [] = refl
to_list-lower_from v bs (e ∷ es) = elim (Bool-cases (comp e v)) [
  | inl t ↦ rw (t, lower_from) (to_list-lower_from v (e ∷ bs) es)
  | inr t ↦ rw (t, lower_from)
]

pub to_list-lower_bound : (v : Node) (es : List Node) → to_list (lower_bound es v) ≡ es
unfolding lower_bound rewind
to_list-lower_bound v es = to_list-lower_from v [] es
