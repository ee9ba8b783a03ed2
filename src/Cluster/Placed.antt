-- ===== src/Cluster/Placed.antt =====
-- The nodes of a global tree whose places are bytes in the rings.
use peanuts.Base.{
  ℕ, ◌+◌, ◌-◌, ◌≤◌, ◌<◌, ◌≡◌, ◌%◌, List, [], ◌∷◌, arith, some, two64, All, add64, sub64, ltb,
  if◌then◌else◌,
}
use peanuts.NodeSet.{Node}
use peanuts.NodeSet.Lookup.{lookup, lookup-after}
use peanuts.NodeSet.Order.{IsNode, IsNodes}
use peanuts.BbRead.RemotePart.{IsPlaced}
use native.Mathlib.Decide.{dec_lt}

-- Ranks below `size` have rings of `ring` bytes, with a tail and a head.
module _ (size ring : ℕ) (tail head : ℕ → ℕ)
    (span : (v : ℕ) → v < size → (head v ≤ tail v + ring) × (head v < two64)) where
  abbrev pub limit : ℕ → ℕ
  limit v = if ltb v size then ring else 0

  node-IsPlaced :
      (n : Node)
      → IsNode n
      → ((p : ℕ)
          → n.ex.begin ≤ p
          → p < n.ex.end
          → (n.client_id < size)
            × (tail n.client_id ≤ add64 n.ptr (sub64 p n.ex.begin))
            × (add64 n.ptr (sub64 p n.ex.begin) < head n.client_id))
      → IsPlaced limit n
  node-IsPlaced n i l =
      let b = n.ex.begin in
      let e = n.ex.end in
      let f = l b (omega arith) (omega arith) in
      let s = span n.client_id f.0 in
      let first : (tail n.client_id ≤ n.ptr % two64) × (n.ptr % two64 < head n.client_id) =
        omega arith in
      elim (dec_lt (n.ptr % two64 + (e - b)) two64) [
        | yes h ↦
            let k = l (e - 1) (omega arith) (omega arith) in
            let last : n.ptr % two64 + (e - b) ≤ head n.client_id = omega arith in (h, ground arith)
        | no h ↦
            let k = l (b + (two64 - 1 - n.ptr % two64)) (omega arith) (omega arith) in
            absurd (omega arith)
      ]

  -- Where a tree in order names only bytes between tail and head of the rings, its nodes are as a
  -- read wants them.
  pub nodes-IsPlaced :
      (lo : ℕ) (ns : List Node)
      → IsNodes lo ns
      → ((p v a : ℕ) → lookup ns p ≡ some (v, a) → (v < size) × (tail v ≤ a) × (a < head v))
      → All (IsPlaced limit) ns
  nodes-IsPlaced lo [] g l = tt
  nodes-IsPlaced lo (n ∷ ns) g l = (
    node-IsPlaced n g.1
        (λ p h k. l p n.client_id (add64 n.ptr (sub64 p n.ex.begin)) (ground arith)),
    nodes-IsPlaced n.ex.end ns g.2
        (λ p v a e. l p v a (ground (arith, lookup-after n.ex.end ns p g.2))),
  )
