-- ===== src/BbRead/Holes.antt =====
-- Lists of holes, and the nodes that `find` gives for them.
use peanuts.Base.{ℕ, ◌-◌, ◌≤◌, ◌<◌, ◌≡◌, true, List, [], ◌∷◌, All, arith, two64, Bool-cases, inl}
use peanuts.Base.{inr}
use peanuts.Extent.{Extent}
use peanuts.Extent.Points.{contains}
use peanuts.ExtentList.{ExtentList, outer_extent, max_end}
use peanuts.ExtentList.Sorted.{covers, IsOrdered}
use peanuts.NodeSet.{Node, make_node, overlaps, lower_bound, lower_from, comp}
use peanuts.ExtentTree.{find, find_checked}

-- What holds of the nodes of a tree holds of those that `find` gives.
lower_from-All :
    (P : Node → Type 0) (v : Node) (bs es : List Node)
    → All P es
    → All P ((lower_from bs es v).after)
unfolding lower_from
lower_from-All P v bs [] a = tt
lower_from-All P v bs (e ∷ es) a = elim (Bool-cases (comp e v)) [
  | inl h ↦ rw (h, lower_from) (lower_from-All P v (e ∷ bs) es a.1)
  | inr h ↦ rw (h, lower_from) a
]

find_checked-All :
    (P : Node → Type 0) (v : Node) (bs es : List Node)
    → All P es
    → All P ((find_checked v bs es).after)
unfolding find_checked
find_checked-All P v bs [] a = tt
find_checked-All P v bs (e ∷ es) a = elim (Bool-cases (overlaps e v)) [
  | inl h ↦ rw (h, find_checked) a
  | inr h ↦ rw (h, find_checked) tt
]

pub find-All : (P : Node → Type 0) (t : List Node) (b e : ℕ) → All P t → All P (find t b e)
unfolding find lower_bound
find-All P t b e a =
    find_checked-All P (make_node b e 0 0) _ _ (lower_from-All P (make_node b e 0 0) [] t a)

-- Holes within a bound, and within their outer extent.
pub covers-All :
    (lo bound : ℕ) (xs : ExtentList)
    → bound < two64
    → IsOrdered lo xs
    → ((q : ℕ) → covers xs q ≡ true → q < bound)
    → All (λ (x : Extent). x.end < two64) xs
covers-All lo bound [] w o h = tt
covers-All lo bound (x ∷ xs) w o h =
    let l : x.end - 1 < bound = h (x.end - 1) (ground arith) in
    (omega arith, covers-All x.end bound xs w o.2 (λ q c. h q (ground arith)))

covers-max_end :
    (lo : ℕ) (x : Extent) (xs : ExtentList) (q : ℕ)
    → IsOrdered lo (x ∷ xs)
    → covers (x ∷ xs) q ≡ true
    → (lo ≤ q) × (q < max_end (x ∷ xs))
unfolding max_end
covers-max_end lo x [] q o c = (ground arith, ground arith)
covers-max_end lo x (y ∷ ys) q o c = elim (Bool-cases (contains x q)) [
  | inl h ↦
      (ground arith, (let m = covers-max_end x.end y ys y.begin o.2 (ground arith) in ground arith))
  | inr h ↦ (let m = covers-max_end x.end y ys q o.2 (ground arith) in (ground arith, m.1))
]

pub covers-outer_extent :
    (lo : ℕ) (xs : ExtentList) (q : ℕ)
    → IsOrdered lo xs
    → covers xs q ≡ true
    → contains (outer_extent xs) q ≡ true
unfolding outer_extent
covers-outer_extent lo [] q o c = cc
covers-outer_extent lo (x ∷ xs) q o c =
    let m = covers-max_end x.begin x xs q (omega arith, o.1, o.2) c in ground arith
