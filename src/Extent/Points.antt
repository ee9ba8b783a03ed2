-- ===== src/Extent/Points.antt =====
-- An extent as the set of the offsets that lie in it.
use peanuts.Base.{ℕ, ◌≤◌, ◌≡◌, Bool, true, ◌&&◌, ◌||◌, arith, ltb, leb}
use peanuts.Extent.{Extent, overlaps, contiguous, get_union, get_intersection}

abbrev pub contains : Extent → ℕ → Bool
contains e p = leb e.begin p && ltb p e.end

-- What the constructor asserts.
abbrev pub IsExtent : Extent → Type 0
IsExtent e = e.begin ≤ e.end

-- The intersection of two extents contains what both contain.
pub contains-get_intersection :
    (a b : Extent) (p : ℕ) → contains (get_intersection a b) p ≡ (contains a p && contains b p)
unfolding get_intersection
contains-get_intersection a b p = ground arith

-- The union of two extents that overlap or touch contains what either contains.
contains-get_union :
    (a b : Extent) (p : ℕ)
    → IsExtent a
    → IsExtent b
    → (overlaps a b || contiguous a b) ≡ true
    → contains (get_union a b) p ≡ (contains a p || contains b p)
unfolding get_union overlaps contiguous
contains-get_union a b p ha hb h = ground arith
