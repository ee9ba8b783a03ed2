-- ===== src/ExtentList/Add.antt =====
-- `extent_list::add`.
use peanuts.Base.{ℕ, suc, ◌≤◌, ◌≡◌, ◌||◌, [], ◌∷◌, arith}
use peanuts.Extent.{Extent, get_union}
use peanuts.Extent.Points.{contains, IsExtent}
use peanuts.ExtentList.{ExtentList, add}
use peanuts.ExtentList.Sorted.{covers, IsGapped, IsGapped-weaken}

-- On a list sorted with gaps from a bound on, `add` of an extent that starts there or later keeps
-- the list sorted with gaps.
pub add-IsGapped :
    (lo : ℕ) (l : ExtentList) (ex : Extent)
    → lo ≤ ex.begin
    → IsExtent ex
    → IsGapped lo l
    → IsGapped lo (add l ex)
unfolding add
add-IsGapped lo [] ex hl he g = (hl, he, tt)
add-IsGapped lo (e ∷ es) ex hl he g = ground (
  arith,
  add-IsGapped (suc e.end) es ex,
  add-IsGapped lo es (get_union ex e),
  IsGapped-weaken lo (suc e.end) es,
)

-- On a list sorted with gaps, `add` of an extent covers what the list covered and the extent, and
-- nothing else.
pub covers-add :
    (lo : ℕ) (l : ExtentList) (ex : Extent) (p : ℕ)
    → IsExtent ex
    → IsGapped lo l
    → covers (add l ex) p ≡ (contains ex p || covers l p)
unfolding add
covers-add lo [] ex p he g = ground arith
covers-add lo (e ∷ es) ex p he g =
    ground (arith, covers-add (suc e.end) es ex p, covers-add (suc e.end) es (get_union ex e) p)
