-- ===== src/ExtentList.antt =====
-- `class extent_list` of projects/peanuts/include/peanuts/extent_list.hpp: a `std::forward_list` of
-- extents. An iterator into it is the part of the list that it has not reached.
pub mod Sorted
pub mod Add
pub mod Inverse
pub mod Intersection
mod Tests
use peanuts.Base.{ℕ, Bool, true, false, min, List, [], ◌∷◌, ltb, leb, if◌then◌else◌}
use peanuts.Extent.{Extent, get_union, get_intersection}

abbrev pub ExtentList : Type 0
ExtentList = List Extent

unfoldable pub empty : ExtentList → Bool
empty [] = true
empty (e ∷ es) = false

unfoldable pub clear : ExtentList → ExtentList
clear l = []

-- What stands before `it` is behind the loop, so the list is what `next_it` still has to pass.
unfoldable pub add : ExtentList → Extent → ExtentList
unfolding get_union
add [] new_ex = new_ex ∷ []
add (ex ∷ rest) new_ex = elim (ltb new_ex.end ex.begin) [
  | true ↦ new_ex ∷ ex ∷ rest
  | false ↦ elim (ltb ex.end new_ex.begin) [
    | true ↦ ex ∷ add rest new_ex
    | false ↦ add rest (get_union new_ex ex)
  ]
]

-- What follows the loop of `inverse`: the part of `ex` behind the last extent of the list.
unfoldable pub inverse_rest : Extent → ExtentList
inverse_rest ex = if ltb ex.begin ex.end then ex ∷ [] else []

-- One round of the loop of `inverse` at `list_ex`, and what the later rounds insert behind it.
-- The second test moves `ex.begin`, and leaves the loop when nothing of `ex` is left.
unfoldable pub inverse_round : (Extent → ExtentList) → Extent → Extent → ExtentList
unfolding inverse_rest
inverse_round later list_ex ex =
    let moved : Extent = record ex { begin = list_ex.end } in
    let after : ExtentList =
      if ltb ex.begin list_ex.end
      then (if leb moved.end moved.begin then inverse_rest moved else later moved)
      else later ex in
    if ltb ex.begin list_ex.begin
    then record { begin = ex.begin; end = min list_ex.begin ex.end } ∷ after
    else after

unfoldable pub inverse : ExtentList → Extent → ExtentList
inverse [] ex = inverse_rest ex
inverse (list_ex ∷ rest) ex = inverse_round (inverse rest) list_ex ex

-- The end of the last extent.
unfoldable pub max_end : ExtentList → ℕ
max_end [] = 0
max_end (e ∷ []) = e.end
max_end (e ∷ f ∷ es) = max_end (f ∷ es)

unfoldable pub outer_extent : ExtentList → Extent
unfolding max_end
outer_extent [] = record { begin = 0; end = 0 }
outer_extent (e ∷ es) = record { begin = e.begin; end = max_end (e ∷ es) }

-- `intersection`: the two lists are what `lhs_it` and `rhs_it` have still to pass.
unfoldable pub intersection : ExtentList → ExtentList → ExtentList
unfolding get_intersection
intersection [] rhs = []
intersection (l ∷ ls) [] = []
intersection (l ∷ ls) (r ∷ rs) = elim (leb l.end r.begin) [
  | true ↦ intersection ls (r ∷ rs)
  | false ↦ elim (leb r.end l.begin) [
    | true ↦ intersection (l ∷ ls) rs
    | false ↦ get_intersection l r ∷ (elim (ltb l.end r.end) [
      | true ↦ intersection ls (r ∷ rs)
      | false ↦ elim (ltb r.end l.end) [
        | true ↦ intersection (l ∷ ls) rs
        | false ↦ intersection ls rs
      ]
    ])
  ]
]
