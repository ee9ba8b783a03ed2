-- ===== src/ExtentTree/Carve.antt =====
-- One round of the loops of `do_insert` and `remove`: the four ways in which a range can meet the
-- node at the iterator.
use peanuts.Base.{ℕ, ◌≤◌, ◌<◌, ◌≡◌, List, ◌∷◌, true, false, arith, add64, sub64}
use peanuts.NodeSet.{Node, cursor, make_node, get_non_overlapping, erase}
use peanuts.NodeSet.Order.{
  IsNode, IsNodes, IsBefore, insert-fresh, insert_keep-fresh, IsNodes-weaken, IsBefore-weaken,
}
use peanuts.NodeSet.Lookup.{lookup_at, place-part, lookup-before}
use peanuts.ExtentTree.{carve_node}
use native.Mathlib.Decide.{dec_lt}
use peanuts.Extent.Points.{contains}

-- How `v` meets a node `e` that ends behind the start of `v`.
pub data Meet (v e : Node) : Type 0 where
  apart : v.ex.end ≤ e.ex.begin → Meet v e
  inside : e.ex.begin < v.ex.begin → v.ex.end < e.ex.end → Meet v e
  front : e.ex.begin < v.ex.begin → e.ex.end ≤ v.ex.end → Meet v e
  rear : v.ex.begin ≤ e.ex.begin → e.ex.begin < v.ex.end → v.ex.end < e.ex.end → Meet v e
  whole : v.ex.begin ≤ e.ex.begin → e.ex.begin < v.ex.end → e.ex.end ≤ v.ex.end → Meet v e

pub meet : (v e : Node) → Meet v e
meet v e = elim (dec_lt e.ex.begin v.ex.end) [
  | no n ↦ apart (omega arith)
  | yes t ↦ elim (dec_lt e.ex.begin v.ex.begin) [
    | yes a ↦ elim (dec_lt v.ex.end e.ex.end) [ yes c ↦ inside a c | no c ↦ front a (omega arith) ]
    | no a ↦ elim (dec_lt v.ex.end e.ex.end) [
      | yes c ↦ rear (omega arith) t c
      | no c ↦ whole (omega arith) t (omega arith)
    ]
  ]
]

-- The part of `e` from `b` to `b'`, at its address.
abbrev pub part : Node → ℕ → ℕ → Node
part e b b' = make_node b b' (add64 e.ptr (sub64 b e.ex.begin)) e.client_id

-- What a range leaves of a node that it cuts in two: the second part is cut from what is left when
-- the first is taken off.
abbrev pub rear_part : Node → Node → Node
rear_part v e = part (part e v.ex.begin e.ex.end) v.ex.end e.ex.end

abbrev pub front_part : Node → Node → Node
front_part v e = part e e.ex.begin v.ex.begin

module _ (v e : Node) (bs es : List Node) (node : IsNode v) (enode : IsNode e) where
  -- The range lies inside the node.
  pub carve_node-inside :
      IsBefore e.ex.begin bs
      → IsNodes e.ex.end es
      → e.ex.begin < v.ex.begin
      → v.ex.end < e.ex.end
      → carve_node v e (cursor bs (e ∷ es))
        ≡ (cursor (front_part v e ∷ bs) (rear_part v e ∷ es), true)
  unfolding carve_node get_non_overlapping erase
  carve_node-inside b g h k = ground (
    arith,
    insert-fresh (rear_part v e) (omega arith) bs es
        (IsBefore-weaken e.ex.begin v.ex.end bs (omega arith) b) g,
    insert_keep-fresh (front_part v e) (omega arith) bs (rear_part v e ∷ es) b
        (omega arith, (omega arith, omega arith), g),
  )

  -- It covers the end of the node.
  pub carve_node-front :
      IsBefore e.ex.begin bs
      → IsNodes e.ex.end es
      → e.ex.begin < v.ex.begin
      → v.ex.begin < e.ex.end
      → e.ex.end ≤ v.ex.end
      → carve_node v e (cursor bs (e ∷ es)) ≡ (cursor (front_part v e ∷ bs) es, false)
  unfolding carve_node get_non_overlapping erase
  carve_node-front b g h k l = ground (
    arith,
    insert_keep-fresh (front_part v e) (omega arith) bs es b
        (IsNodes-weaken v.ex.begin e.ex.end es (omega arith) g),
  )

  -- It covers the start of the node.
  pub carve_node-rear :
      IsBefore v.ex.end bs
      → IsNodes e.ex.end es
      → v.ex.begin ≤ e.ex.begin
      → v.ex.end < e.ex.end
      → carve_node v e (cursor bs (e ∷ es)) ≡ (cursor (part e v.ex.end e.ex.end ∷ bs) es, false)
  unfolding carve_node get_non_overlapping erase
  carve_node-rear b g h k =
      ground (arith, insert_keep-fresh (part e v.ex.end e.ex.end) (omega arith) bs es b g)

  -- It covers the node.
  pub carve_node-all :
      v.ex.begin ≤ e.ex.begin
      → e.ex.end ≤ v.ex.end
      → carve_node v e (cursor bs (e ∷ es)) ≡ (cursor bs es, false)
  unfolding carve_node get_non_overlapping erase
  carve_node-all h k = ground arith

-- What the parts say outside the range is what the node said.
module _ (v e : Node) (bs es : List Node) (p : ℕ) (enode : IsNode e)
    (out : contains v.ex p ≡ false) where
  pub lookup-front :
      IsBefore e.ex.begin bs
      → v.ex.begin < e.ex.end
      → e.ex.begin < v.ex.begin
      → e.ex.end ≤ v.ex.end
      → lookup_at (cursor (front_part v e ∷ bs) es) p ≡ lookup_at (cursor bs (e ∷ es)) p
  lookup-front b h k l =
      ground (arith, lookup-before e.ex.begin bs p b, place-part e e.ex.begin v.ex.begin p)

  pub lookup-inside :
      IsBefore e.ex.begin bs
      → e.ex.begin < v.ex.begin
      → v.ex.begin < v.ex.end
      → v.ex.end < e.ex.end
      → lookup_at (cursor (front_part v e ∷ bs) (rear_part v e ∷ es)) p
        ≡ lookup_at (cursor bs (e ∷ es)) p
  lookup-inside b h k l = ground (
    arith,
    lookup-before e.ex.begin bs p b,
    place-part e e.ex.begin v.ex.begin p,
    place-part e v.ex.begin e.ex.end p,
    place-part (part e v.ex.begin e.ex.end) v.ex.end e.ex.end p,
  )

  pub lookup-rear :
      (hi : ℕ)
      → IsBefore hi bs
      → hi ≤ e.ex.begin
      → v.ex.begin ≤ e.ex.begin
      → e.ex.begin < v.ex.end
      → v.ex.end < e.ex.end
      → lookup_at (cursor bs (part e v.ex.end e.ex.end ∷ es)) p ≡ lookup_at (cursor bs (e ∷ es)) p
  lookup-rear hi b h k l m =
      ground (arith, lookup-before hi bs p b, place-part e v.ex.end e.ex.end p)

  pub lookup-all :
      v.ex.begin ≤ e.ex.begin
      → e.ex.end ≤ v.ex.end
      → lookup_at (cursor bs es) p ≡ lookup_at (cursor bs (e ∷ es)) p
  lookup-all h k = ground arith
