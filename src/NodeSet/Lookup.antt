-- ===== src/NodeSet/Lookup.antt =====
-- What a list of nodes says of an offset: the client that holds it, and the address there.
use peanuts.Base.{ℕ, Option, none, some, List, [], ◌∷◌, if◌then◌else◌, add64, sub64, ◌≡◌, ◌≤◌, ◌<◌}
use peanuts.Base.{refl, arith, two64, ◌∙◌, ap}
use peanuts.Extent.Points.{contains}
use peanuts.NodeSet.{Node, make_node, rewind, to_list, Cursor}
use peanuts.NodeSet.Order.{IsNodes, IsNode, IsBefore}

abbrev pub Place : Type 0
Place = ℕ × ℕ

abbrev pub place : Node → ℕ → Place
place e p = (e.client_id, add64 e.ptr (sub64 p e.ex.begin))

abbrev pub lookup : List Node → ℕ → Option Place
lookup [] p = none
lookup (e ∷ es) p = if contains e.ex p then some (place e p) else lookup es p

-- The answer of the first list, and where it has none, that of the second.
abbrev pub first : Option Place → Option Place → Option Place
first none b = b
first (some a) b = some a

abbrev pub lookup_at : Cursor → ℕ → Option Place
lookup_at c p = first (lookup c.before p) (lookup c.after p)

pub lookup-before : (hi : ℕ) (bs : List Node) (p : ℕ) → IsBefore hi bs → hi ≤ p → lookup bs p ≡ none
lookup-before hi [] p h k = refl
lookup-before hi (b ∷ bs) p h k = ground (arith, lookup-before b.ex.begin bs p)

pub lookup-after : (lo : ℕ) (es : List Node) (p : ℕ) → IsNodes lo es → p < lo → lookup es p ≡ none
lookup-after lo [] p h k = refl
lookup-after lo (e ∷ es) p h k = ground (arith, lookup-after e.ex.end es p)

lookup-rewind :
    (hi : ℕ) (bs es : List Node) (p : ℕ)
    → IsBefore hi bs
    → lookup (rewind bs es) p ≡ first (lookup bs p) (lookup es p)
unfolding rewind
lookup-rewind hi [] es p h = refl
lookup-rewind hi (b ∷ bs) es p h =
    lookup-rewind b.ex.begin bs (b ∷ es) p h.2 ∙ ground (arith, lookup-before b.ex.begin bs p h.2)

pub lookup-to_list :
    (hi : ℕ) (c : Cursor) (p : ℕ) → IsBefore hi c.before → lookup (to_list c) p ≡ lookup_at c p
unfolding to_list
lookup-to_list hi c p h = lookup-rewind hi c.before c.after p h

-- A part of a node from `b` on says of the offsets behind `b` what the node said.
pub place-part :
    (e : Node) (b b' : ℕ) (p : ℕ)
    → IsNode e
    → e.ex.begin ≤ b
    → b ≤ p
    → p < two64
    → place (make_node b b' (add64 e.ptr (sub64 b e.ex.begin)) e.client_id) p ≡ place e p
place-part e b b' p n h k l = ap (λ (a : ℕ). (e.client_id, a)) (omega arith)
