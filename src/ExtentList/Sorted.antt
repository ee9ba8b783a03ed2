-- ===== src/ExtentList/Sorted.antt =====
-- The order that `extent_list` keeps, and the offsets that a list covers.
use peanuts.Base.{ℕ, suc, ◌≤◌, ◌<◌, ◌≡◌, refl, Bool, true, false, ◌||◌, [], ◌∷◌, arith}
use peanuts.Extent.Points.{contains}
use peanuts.ExtentList.{ExtentList}

abbrev pub covers : ExtentList → ℕ → Bool
covers [] p = false
covers (e ∷ es) p = contains e p || covers es p

-- Every extent starts at `lo` or later, and a gap is left between any two.
abbrev pub IsGapped : ℕ → ExtentList → Type 0
IsGapped lo [] = Unit
IsGapped lo (e ∷ es) = (lo ≤ e.begin) × (e.begin ≤ e.end) × IsGapped (suc e.end) es

pub IsGapped-weaken : (a b : ℕ) (l : ExtentList) → a ≤ b → IsGapped b l → IsGapped a l
IsGapped-weaken a b [] h g = tt
IsGapped-weaken a b (e ∷ es) h g = (omega arith, g.1, g.2)

-- Every extent is non-empty and starts where the one before it ends, or later.
abbrev pub IsOrdered : ℕ → ExtentList → Type 0
IsOrdered lo [] = Unit
IsOrdered lo (e ∷ es) = (lo ≤ e.begin) × (e.begin < e.end) × IsOrdered e.end es

pub IsOrdered-weaken : (a b : ℕ) (l : ExtentList) → a ≤ b → IsOrdered b l → IsOrdered a l
IsOrdered-weaken a b [] h g = tt
IsOrdered-weaken a b (e ∷ es) h g = (omega arith, g.1, g.2)

-- A list that starts behind `p` does not cover `p`.
pub covers-below : (lo : ℕ) (l : ExtentList) (p : ℕ) → IsGapped lo l → p < lo → covers l p ≡ false
covers-below lo [] p g h = refl
covers-below lo (e ∷ es) p g h = ground (arith, covers-below (suc e.end) es p)

pub covers-above : (lo : ℕ) (l : ExtentList) (p : ℕ) → IsGapped lo l → covers l p ≡ true → lo ≤ p
covers-above lo [] p g h = cc
covers-above lo (e ∷ es) p g h = ground (arith, covers-above (suc e.end) es p)
