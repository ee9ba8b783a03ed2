-- ===== src/SparseExtentTree.antt =====
-- projects/peanuts/include/peanuts/sparse_extent_tree.hpp. The operations that would insert, find,
-- remove or merge nodes are stubs there. An iterator is the nodes from it on.
use peanuts.Base.{
  ℕ, zero, suc, Bool, true, false, ltb, ◌==◌, ◌&&◌, List, [], ◌∷◌, Option, some, none, length,
  add64, mul64, ◌+◌,
}
use peanuts.Extent.{Extent}
use peanuts.SparseExtent
use peanuts.SparseExtent.{SparseExtent, of_extent, stride_size, get_extent}

pub record Node : Type 0 where
  pub se : SparseExtent
  pub dev_addr : ℕ
  pub dev_id : ℕ

unfoldable pub overlaps : Node → Node → Bool
overlaps a b = SparseExtent.overlaps a.se b.se

unfoldable pub equal : Node → Node → Bool
equal a b = SparseExtent.equal a.se b.se && a.dev_addr == b.dev_addr && a.dev_id == b.dev_id

unfoldable pub get_nth_dev_addr : Node → ℕ → ℕ
get_nth_dev_addr n index = add64 n.dev_addr (mul64 index (stride_size n.se))

-- What `inspect` prints of a node: each extent, the device, and the address there.
unfoldable pub inspect_from : Node → ℕ → ℕ → List (Extent × ℕ × ℕ)
unfolding get_nth_dev_addr
inspect_from n zero i = []
inspect_from n (suc left) i =
    (get_extent n.se i, n.dev_id, get_nth_dev_addr n i) ∷ inspect_from n left (i + 1)

unfoldable pub inspect : Node → List (Extent × ℕ × ℕ)
unfolding inspect_from
inspect n = inspect_from n n.se.count 0

-- `comparator`
unfoldable pub comp : Node → Node → Bool
comp lhs rhs = ltb lhs.se.ex.begin rhs.se.ex.begin

abbrev pub SparseExtentTree : Type 0
SparseExtentTree = List Node

unfoldable pub same_nodes : SparseExtentTree → SparseExtentTree → Bool
unfolding equal
same_nodes [] [] = true
same_nodes [] (n ∷ ns) = false
same_nodes (m ∷ ms) [] = false
same_nodes (m ∷ ms) (n ∷ ns) = equal m n && same_nodes ms ns

unfoldable pub lower_bound : SparseExtentTree → Node → List Node
unfolding comp
lower_bound [] v = []
lower_bound (n ∷ ns) v = elim (comp n v) [ true ↦ lower_bound ns v | false ↦ n ∷ ns ]

-- `do_insert` leaves the set and gives `end`.
unfoldable pub do_insert : SparseExtentTree → List Node → Node → List Node × SparseExtentTree
do_insert t it n = ([], t)

unfoldable pub add : SparseExtentTree → Extent → ℕ → ℕ → SparseExtentTree
unfolding do_insert lower_bound
add t ex dev_addr dev_id =
    let new_node : Node = record { se = of_extent ex; dev_addr = dev_addr; dev_id = dev_id } in
    (do_insert t (lower_bound t new_node) new_node).1

unfoldable pub find : SparseExtentTree → ℕ → ℕ → List Node
find t begin end = []

unfoldable pub remove : SparseExtentTree → ℕ → ℕ → SparseExtentTree
remove t begin end = t

unfoldable pub merge : SparseExtentTree → SparseExtentTree → SparseExtentTree
merge t other = t

unfoldable pub size : SparseExtentTree → ℕ
size t = length t

unfoldable pub clear : SparseExtentTree → SparseExtentTree
clear t = []

-- `back`; `none` on the empty set, where the source has undefined behaviour.
unfoldable pub back : SparseExtentTree → Option Node
back [] = none
back (n ∷ []) = some n
back (n ∷ m ∷ ns) = back (m ∷ ns)
