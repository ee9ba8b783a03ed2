-- ===== src/ExtentList/Intersection.antt =====
-- `intersection` of two extent lists.
use peanuts.Base.{ℕ, suc, ◌≤◌, ◌≡◌, ◌∙◌, Bool, inl, inr, ◌||◌, ◌&&◌, [], ◌∷◌, arith, ltb, leb}
use peanuts.Base.{Bool-cases}
use peanuts.Extent.{Extent}
use peanuts.Extent.Points.{contains, contains-get_intersection}
use peanuts.ExtentList.{ExtentList, intersection}
use peanuts.ExtentList.Sorted.{covers, IsGapped, covers-below}

module _ (lo : ℕ) (a : Extent) (r : ExtentList) (p : ℕ) (c : Bool) where
  -- An extent that ends before a list starts has no part in what they share.
  skip : a.end ≤ lo → IsGapped lo r → ((contains a p || c) && covers r p) ≡ (c && covers r p)
  skip h g = ground (arith, covers-below lo r p)

  split :
      (b : Extent)
      → a.end ≤ lo
      → IsGapped lo r
      → ((contains a p || c) && (contains b p || covers r p))
        ≡ ((contains a p && contains b p) || (c && (contains b p || covers r p)))
  split b h g = ground (arith, covers-below lo r p)

&&-comm : (a b : Bool) → (a && b) ≡ (b && a)
&&-comm a b = ground arith

-- `intersection` of two lists sorted with gaps covers what both lists cover.
covers-intersection :
    (i j : ℕ) (l r : ExtentList) (p : ℕ)
    → IsGapped i l
    → IsGapped j r
    → covers (intersection l r) p ≡ (covers l p && covers r p)
unfolding intersection
covers-intersection i j [] r p g h = ground arith
covers-intersection i j (l ∷ ls) [] p g h = ground arith
covers-intersection i j (l ∷ ls) (r ∷ rs) p g h = elim (Bool-cases (leb l.end r.begin)) [
  | inl a ↦
      rw (a, intersection)
        (covers-intersection (suc l.end) j ls (r ∷ rs) p g.2 h
          ∙ ground (arith, skip r.begin l (r ∷ rs) p (covers ls p)))
  | inr a ↦ elim (Bool-cases (leb r.end l.begin)) [
    | inl b ↦
        rw (a, b, intersection)
          (covers-intersection i (suc r.end) (l ∷ ls) rs p g h.2
            ∙ ground (arith, skip l.begin r (l ∷ ls) p (covers rs p)))
    | inr b ↦
        rw (a, b, intersection)
          (rw (contains-get_intersection l r p) (elim (Bool-cases (ltb l.end r.end)) [
            | inl c ↦
                rw (c, intersection)
                  (ground (
                    arith,
                    split (suc r.end) l rs p (covers ls p) r,
                    covers-intersection (suc l.end) j ls (r ∷ rs) p g.2 h,
                  ))
            | inr c ↦ elim (Bool-cases (ltb r.end l.end)) [
              | inl d ↦
                  rw (c, d, intersection)
                    (ground (
                      arith,
                      split (suc l.end) r ls p (covers rs p) l,
                      covers-intersection i (suc r.end) (l ∷ ls) rs p g h.2,
                    ))
              | inr d ↦
                  rw (c, d, intersection)
                    (ground (
                      arith,
                      split (suc r.end) l rs p (covers ls p) r,
                      skip (suc l.end) r ls p (covers rs p),
                      covers-intersection (suc l.end) (suc r.end) ls rs p g.2 h.2,
                    ))
            ]
          ]))
  ]
]
