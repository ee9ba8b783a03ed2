-- ===== src/NodeSet.antt =====
-- `extent_tree::node`, and the `std::set` of nodes under `extent_tree::comparator`, both of
-- projects/peanuts/include/peanuts/extent_tree.hpp. A set is the list of its nodes in order; an
-- iterator is a `Cursor`, which holds the nodes before its position, nearest first, and the rest.
pub mod Lookup
pub mod Order
use peanuts.Base.{ℕ, Bool, true, false, ◌&&◌, Option, none, some, List, [], ◌∷◌, leb, ◌==◌, add64}
use peanuts.Base.{sub64}
use peanuts.Extent.{Extent}
use peanuts.Extent

-- `client_id` is the rank of a process; it is only stored and compared.
pub record Node : Type 0 where
  pub ex : Extent
  pub ptr : ℕ
  pub client_id : ℕ

abbrev pub make_node : ℕ → ℕ → ℕ → ℕ → Node
make_node b e p c = record { ex = record { begin = b; end = e }; ptr = p; client_id = c }

unfoldable pub overlaps : Node → Node → Bool
unfolding Extent.overlaps
overlaps a b = Extent.overlaps a.ex b.ex

unfoldable pub equal : Node → Node → Bool
unfolding Extent.equal
equal a b = Extent.equal a.ex b.ex && a.ptr == b.ptr && a.client_id == b.client_id

unfoldable pub get_non_overlapping : Node → Node → Option Node
unfolding Extent.get_non_overlapping
get_non_overlapping a b = elim (Extent.get_non_overlapping a.ex b.ex) [
  | none ↦ none
  | some n ↦ some (make_node n.begin n.end (add64 a.ptr (sub64 n.begin a.ex.begin)) a.client_id)
]

unfoldable pub followed_by : Node → Node → Bool
unfolding Extent.followed_by Extent.size
followed_by a b =
    Extent.followed_by a.ex b.ex
    && a.client_id == b.client_id
    && add64 a.ptr (Extent.size a.ex) == b.ptr

-- `comparator::operator()`
abbrev pub comp : Node → Node → Bool
comp a b = leb a.ex.end b.ex.begin

pub record Cursor : Type 0 where
  pub before : List Node
  pub after : List Node

abbrev pub cursor : List Node → List Node → Cursor
cursor b a = record { before = b; after = a }

unfoldable pub rewind : List Node → List Node → List Node
rewind [] a = a
rewind (b ∷ bs) a = rewind bs (b ∷ a)

-- The whole set, from an iterator into it.
unfoldable pub to_list : Cursor → List Node
unfolding rewind
to_list c = rewind c.before c.after

-- `std::set::lower_bound`: the first node that is not ordered before `v`.
unfoldable pub lower_from : List Node → List Node → Node → Cursor
lower_from before [] v = cursor before []
lower_from before (e ∷ es) v = elim (comp e v) [
  | true ↦ lower_from (e ∷ before) es v
  | false ↦ cursor before (e ∷ es)
]

unfoldable pub lower_bound : List Node → Node → Cursor
unfolding lower_from
lower_bound xs v = lower_from [] xs v

-- `std::set::erase(it)`: the iterator behind the erased node.
unfoldable pub erase : Cursor → Cursor
erase c = cursor c.before (elim c.after [ [] ↦ [] | e ∷ es ↦ es ])

-- `std::set::insert(hint, v)`: the place of `v` is looked for from the hint on, in the direction
-- that the order tells. A node equivalent to `v` keeps it out, and the iterator returned is there.
unfoldable pub insert_back : Node → List Node → List Node → Cursor
insert_back v [] after = cursor [] (v ∷ after)
insert_back v (b ∷ bs) after = elim (comp b v) [
  | true ↦ cursor (b ∷ bs) (v ∷ after)
  | false ↦ elim (comp v b) [ true ↦ insert_back v bs (b ∷ after) | false ↦ cursor bs (b ∷ after) ]
]

unfoldable pub insert_forward : Node → List Node → List Node → Cursor
insert_forward v before [] = cursor before (v ∷ [])
insert_forward v before (e ∷ es) = elim (comp e v) [
  | true ↦ insert_forward v (e ∷ before) es
  | false ↦ elim (comp v e) [ true ↦ cursor before (v ∷ e ∷ es) | false ↦ cursor before (e ∷ es) ]
]

unfoldable pub insert_at : Node → List Node → List Node → Cursor
unfolding insert_back insert_forward
insert_at v before [] = insert_back v before []
insert_at v before (e ∷ es) = elim (comp e v) [
  | true ↦ insert_forward v (e ∷ before) es
  | false ↦ elim (comp v e) [
    | true ↦ insert_back v before (e ∷ es)
    | false ↦ cursor before (e ∷ es)
  ]
]

unfoldable pub insert : Node → Cursor → Cursor
unfolding insert_at
insert v c = insert_at v c.before c.after

-- The same call where the source drops the iterator returned and goes on with the hint, which
-- stays at its node.
unfoldable pub insert_rev : Node → List Node → List Node
insert_rev v [] = v ∷ []
insert_rev v (b ∷ bs) = elim (comp b v) [
  | true ↦ v ∷ b ∷ bs
  | false ↦ elim (comp v b) [ true ↦ b ∷ insert_rev v bs | false ↦ b ∷ bs ]
]

unfoldable pub insert_list : Node → List Node → List Node
insert_list v [] = v ∷ []
insert_list v (e ∷ es) = elim (comp e v) [
  | true ↦ e ∷ insert_list v es
  | false ↦ elim (comp v e) [ true ↦ v ∷ e ∷ es | false ↦ e ∷ es ]
]

unfoldable pub insert_keep_at : Node → List Node → List Node → Cursor
unfolding insert_rev insert_list
insert_keep_at v before [] = cursor (insert_rev v before) []
insert_keep_at v before (e ∷ es) = elim (comp e v) [
  | true ↦ cursor before (e ∷ insert_list v es)
  | false ↦ elim (comp v e) [
    | true ↦ cursor (insert_rev v before) (e ∷ es)
    | false ↦ cursor before (e ∷ es)
  ]
]

unfoldable pub insert_keep : Node → Cursor → Cursor
unfolding insert_keep_at
insert_keep v c = insert_keep_at v c.before c.after
