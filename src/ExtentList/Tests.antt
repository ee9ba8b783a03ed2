-- ===== src/ExtentList/Tests.antt =====
-- Runs of the extent list on small inputs.
use peanuts.Base.{[], ◌∷◌, ◌≡◌, arith, true, ℕ}
use peanuts.Extent.{Extent}
use peanuts.ExtentList.{ExtentList, inverse}
use peanuts.ExtentList.Sorted.{covers, IsGapped}
use peanuts.ExtentList.Inverse.{covers-inverse}

abbrev extent : ℕ → ℕ → Extent
extent b e = record { begin = b; end = e }

abbrev list : ExtentList
list = extent 2 5 ∷ extent 8 9 ∷ []

list-IsGapped : IsGapped 0 list
list-IsGapped = omega arith

covers-inverse_example : covers (inverse list (extent 0 20)) 6 ≡ true
covers-inverse_example = covers-inverse 0 list (extent 0 20) 6 list-IsGapped
