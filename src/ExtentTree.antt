-- ===== src/ExtentTree.antt =====
-- `class extent_tree` of projects/peanuts/include/peanuts/extent_tree.hpp: which client holds which
-- range of a file, and where. `do_insert`, `add`, `remove`, `find` and `merge`.
pub mod Carve
pub mod Insert
pub mod Coalesce
pub mod Add
pub mod Remove
pub mod Merge
pub mod MergeOrder
pub mod Find
mod Tests
use peanuts.Base.{ℕ, zero, suc, ◌+◌, Bool, true, false, Option, none, some, List, [], ◌∷◌, length}
use peanuts.Base.{ltb, if◌then◌else◌, add64, sub64}
use peanuts.NodeSet.{Node, Cursor, cursor, make_node, overlaps, followed_by, get_non_overlapping}
use peanuts.NodeSet.{comp, to_list, lower_bound, erase, insert, insert_keep}

abbrev pub ExtentTree : Type 0
ExtentTree = List Node

unfoldable pub clear : ExtentTree → ExtentTree
clear t = []

unfoldable pub size : ExtentTree → ℕ
size t = length t

-- `back`; `none` on the empty set, where the source has undefined behaviour.
unfoldable pub back : ExtentTree → Option Node
back [] = none
back (e ∷ []) = some e
back (e ∷ f ∷ es) = back (f ∷ es)

-- `begin` and `end` of `find`; the end iterator is the cursor that has nothing after it.
unfoldable pub find_checked : Node → List Node → List Node → Cursor
unfolding overlaps
find_checked v before [] = cursor before []
find_checked v before (e ∷ es) = if overlaps e v then cursor before (e ∷ es) else cursor before []

unfoldable pub find : ExtentTree → ℕ → ℕ → List Node
unfolding find_checked
find t b e =
    let temp = make_node b e 0 0 in
    let it = lower_bound t temp in (find_checked temp it.before it.after).after

-- The round that the loops of `do_insert` and `remove` share: what is left of the node `e` at the
-- iterator, outside `v`, is put back. The flag tells that a part behind `v` was.
unfoldable pub carve_node : Node → Node → Cursor → Cursor × Bool
unfolding get_non_overlapping erase
carve_node v e c = elim (get_non_overlapping e v) [
  | none ↦ (erase c, false)
  | some n ↦
      if ltb n.ex.end e.ex.end
      then (let remaining =
            make_node n.ex.end e.ex.end (add64 e.ptr (sub64 n.ex.end e.ex.begin)) e.client_id in
          elim (get_non_overlapping remaining v) [
            | some rear ↦ (insert_keep n (insert rear (erase c)), true)
            | none ↦ (insert_keep n (erase c), false)
          ])
      else (insert_keep n (erase c), false)
]

-- The test of both loops: there is a node at the iterator, and `v` overlaps it.
unfoldable pub hit : Node → List Node → Option Node
unfolding overlaps
hit v [] = none
hit v (e ∷ es) = if overlaps v e then some e else none

-- The loop of `do_insert`.
unfoldable pub carve_loop : ℕ → Node → Cursor → Cursor
carve_loop zero v c = c
carve_loop (suc fuel) v c = elim (hit v c.after) [
  | none ↦ c
  | some e ↦ carve_loop fuel v (carve_node v e c).0
]

-- Every round takes the node at the iterator away; a part that is put back there ends the loop.
unfoldable pub carve : Node → Cursor → Cursor
unfolding carve_loop
carve v c = carve_loop (length c.after + 2) v c

unfoldable pub coalesce_prev_at : List Node → List Node → Cursor
unfolding followed_by
coalesce_prev_at [] after = cursor [] after
coalesce_prev_at (p ∷ bs) [] = cursor (p ∷ bs) []
coalesce_prev_at (p ∷ bs) (e ∷ es) =
    if followed_by p e
    then insert (make_node p.ex.begin e.ex.end p.ptr p.client_id) (cursor bs es)
    else cursor (p ∷ bs) (e ∷ es)

unfoldable pub coalesce_next_at : List Node → List Node → Cursor
unfolding followed_by
coalesce_next_at before [] = cursor before []
coalesce_next_at before (e ∷ []) = cursor before (e ∷ [])
coalesce_next_at before (e ∷ n ∷ es) =
    if followed_by e n
    then insert (make_node e.ex.begin n.ex.end e.ptr e.client_id) (cursor before es)
    else cursor before (e ∷ n ∷ es)

unfoldable pub coalesce : Cursor → Cursor
unfolding coalesce_prev_at coalesce_next_at
coalesce c = let it = coalesce_prev_at c.before c.after in coalesce_next_at it.before it.after

unfoldable pub do_insert : Node → Cursor → Cursor
do_insert v c = coalesce (insert v (carve v c))

unfoldable pub add : ExtentTree → ℕ → ℕ → ℕ → ℕ → ExtentTree
add t b e ptr client_id =
    let new_node = make_node b e ptr client_id in
    to_list (do_insert new_node (lower_bound t new_node))

-- The loop of `remove`, which stops where a part behind the range is put back.
unfoldable pub remove_loop : ℕ → Node → Cursor → Cursor
remove_loop zero v c = c
remove_loop (suc fuel) v c = elim (hit v c.after) [
  | none ↦ c
  | some e ↦ elim (carve_node v e c).1 [
    | true ↦ (carve_node v e c).0
    | false ↦ remove_loop fuel v (carve_node v e c).0
  ]
]

unfoldable pub remove : ExtentTree → ℕ → ℕ → ExtentTree
unfolding remove_loop
remove t b e =
    let v = make_node b e 0 0 in
    let it = lower_bound t v in to_list (remove_loop (length it.after + 1) v it)

-- `while (out_it != end() && !comp(*in_it, *out_it)) ++out_it;`
unfoldable pub skip_to : Node → List Node → List Node → Cursor
skip_to v before [] = cursor before []
skip_to v before (e ∷ es) = elim (comp v e) [
  | true ↦ cursor before (e ∷ es)
  | false ↦ skip_to v (e ∷ before) es
]

unfoldable pub merge_loop : List Node → Cursor → Cursor
unfolding skip_to
merge_loop [] out = out
merge_loop (v ∷ vs) out = let it = do_insert v out in merge_loop vs (skip_to v it.before it.after)

unfoldable pub merge : ExtentTree → ExtentTree → ExtentTree
unfolding merge_loop
merge t [] = t
merge t (v ∷ vs) = to_list (merge_loop (v ∷ vs) (lower_bound t v))
