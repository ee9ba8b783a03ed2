-- ===== src/ExtentTree/Tests.antt =====
-- Runs of the tree on small inputs.
use peanuts.Base.{[], ◌∷◌, ◌≡◌, arith, some, ℕ, ◌≤◌, ◌<◌}
use peanuts.NodeSet.{make_node}
use peanuts.NodeSet.Order.{IsNodes}
use peanuts.NodeSet.Lookup.{lookup}
use peanuts.ExtentTree.{ExtentTree, add, remove, merge, find}
use peanuts.ExtentTree.Add.{lookup-add, add-IsNodes}
use peanuts.ExtentTree.Remove.{lookup-remove, remove-IsNodes}
use peanuts.ExtentTree.Find.{find_lem, Starts}
use peanuts.ExtentTree.Merge.{merge_loses}

abbrev tree : ExtentTree
tree = make_node 10 11 0 0 ∷ make_node 20 30 100 0 ∷ []

tree-IsNodes : IsNodes 0 tree
tree-IsNodes = omega arith

-- in the middle of a node, which is split
lookup-add_example : lookup (add tree 22 25 50 1) 23 ≡ some (1, 51)
lookup-add_example = lookup-add tree 22 25 50 1 tree-IsNodes (omega arith) (omega arith) 23

add-IsNodes_example : IsNodes 0 (add tree 22 25 50 1)
add-IsNodes_example = add-IsNodes tree 22 25 50 1 tree-IsNodes (omega arith) (omega arith)

lookup-remove_example : lookup (remove tree 22 25) 25 ≡ some (0, 105)
lookup-remove_example = lookup-remove tree 22 25 tree-IsNodes (omega arith) (omega arith) 25

remove-IsNodes_example : IsNodes 0 (remove tree 22 25)
remove-IsNodes_example = remove-IsNodes tree 22 25 tree-IsNodes (omega arith) (omega arith)

find_lem_example :
    IsNodes 0 (find tree 11 21)
    × Starts (make_node 11 21 0 0) (find tree 11 21)
    × ((p : ℕ) → 11 ≤ p → p < 21 → lookup (find tree 11 21) p ≡ lookup tree p)
find_lem_example = find_lem tree 11 21 tree-IsNodes

abbrev other : ExtentTree
other = make_node 0 5 0 7 ∷ make_node 20 25 0 7 ∷ []

other-IsNodes : IsNodes 0 other
other-IsNodes = omega arith

merge_loses_example :
    merge (make_node 10 11 0 0 ∷ make_node 20 30 100 1 ∷ []) other
    ≡ make_node 0 5 0 7 ∷ make_node 10 11 0 0 ∷ make_node 20 30 100 1 ∷ []
merge_loses_example =
    merge_loses (make_node 10 11 0 0) (make_node 20 30 100 1) (make_node 0 5 0 7)
      (make_node 20 25 0 7) (omega arith) other-IsNodes (omega arith) (omega arith) (omega arith)
      (omega arith) (omega arith) (omega arith)
