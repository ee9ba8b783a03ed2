-- ===== src/ExtentList/Inverse.antt =====
-- `extent_list::inverse` and `extent_list::outer_extent`.
use peanuts.Base.{ℕ, suc, ◌≤◌, ◌<◌, ◌≡◌, Bool, true, ◌||◌, ◌&&◌, not, [], ◌∷◌, arith, false, ◌↔◌}
use peanuts.Base.{◌∙◌, refl}
use peanuts.Extent.{Extent}
use peanuts.Extent.Points.{contains, IsExtent}
use peanuts.ExtentList.{ExtentList, inverse, inverse_rest, inverse_round, empty}
use peanuts.ExtentList.Sorted.{covers, IsGapped, IsOrdered, IsOrdered-weaken, covers-above}

module _ (later : Extent → ExtentList) (e ex : Extent) (p : ℕ) (c : Bool) where
  -- One round is right where the later rounds are, and what they pass lies behind `e`.
  covers-inverse_round :
      IsExtent e
      → (c ≡ true → e.end < p)
      → ((x : Extent) → covers (later x) p ≡ (contains x p && not c))
      → covers (inverse_round later e ex) p ≡ (contains ex p && not (contains e p || c))
  unfolding inverse_round inverse_rest
  covers-inverse_round he hc h = ground (arith, h ex, h (record ex { begin = e.end }))

-- For a list sorted with gaps, `inverse` covers the points of the extent that the list does not
-- cover.
pub covers-inverse :
    (lo : ℕ) (l : ExtentList) (ex : Extent) (p : ℕ)
    → IsGapped lo l
    → covers (inverse l ex) p ≡ (contains ex p && not (covers l p))
unfolding inverse
covers-inverse lo [] ex p g = unfold inverse_rest in ground arith
covers-inverse lo (e ∷ es) ex p g =
    covers-inverse_round (inverse es) e ex p (covers es p) g.1 (covers-above (suc e.end) es p g.2)
      (λ x. covers-inverse (suc e.end) es x p g.2)

inverse_round-IsOrdered :
    (later : Extent → ExtentList) (e ex : Extent)
    → ex.begin < ex.end
    → e.begin ≤ e.end
    → ((x : Extent) → x.begin < x.end → IsOrdered x.begin (later x))
    → IsOrdered ex.begin (inverse_round later e ex)
unfolding inverse_round inverse_rest
inverse_round-IsOrdered later e ex h he k =
    let m : Extent = record ex { begin = e.end } in
    ground (
      arith,
      k ex,
      k m,
      IsOrdered-weaken ex.begin e.end (later m),
      IsOrdered-weaken e.begin e.end (later m),
    )

-- For a list sorted with gaps and a non-empty extent, the holes that `inverse` gives are non-empty
-- and in order, and none starts before the extent.
pub inverse-IsOrdered :
    (lo : ℕ) (l : ExtentList) (ex : Extent)
    → ex.begin < ex.end
    → IsGapped lo l
    → IsOrdered ex.begin (inverse l ex)
unfolding inverse
inverse-IsOrdered lo [] ex h g = unfold inverse_rest in ground arith
inverse-IsOrdered lo (e ∷ es) ex h g =
    inverse_round-IsOrdered (inverse es) e ex h g.1
      (λ x hx. inverse-IsOrdered (suc e.end) es x hx g.2)

none-covered :
    (lo : ℕ) (l : ExtentList) → IsOrdered lo l → ((p : ℕ) → covers l p ≡ false) → empty l ≡ true
unfolding empty
none-covered lo [] o h = refl
none-covered lo (e ∷ es) o h = ground (arith, h e.begin)

pub nil-covers : (l : ExtentList) (p : ℕ) → empty l ≡ true → covers l p ≡ false
unfolding empty
nil-covers [] p h = refl
nil-covers (e ∷ es) p h = cc

-- For a list sorted with gaps and a non-empty extent, there is no hole exactly where the list
-- covers the whole extent.
pub empty-inverse :
    (lo : ℕ) (l : ExtentList) (ex : Extent)
    → ex.begin < ex.end
    → IsGapped lo l
    → (empty (inverse l ex) ≡ true) ↔ ((p : ℕ) → contains ex p ≡ true → covers l p ≡ true)
empty-inverse lo l ex h g = (
  (λ e p c. ground (arith, covers-inverse lo l ex p g, nil-covers (inverse l ex) p e)),
  λ f.
      none-covered ex.begin (inverse l ex) (inverse-IsOrdered lo l ex h g)
        (λ p. covers-inverse lo l ex p g ∙ ground (arith, f p)),
)
