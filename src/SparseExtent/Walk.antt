-- ===== src/SparseExtent/Walk.antt =====
-- The iterator of a sparse extent, from `begin` to `end`.
use peanuts.Base.{
  ℕ, zero, suc, ◌+◌, ◌-◌, ◌^◌, ◌<◌, ◌≡◌, ◌∙◌, refl, arith, ap, ap₂, List, [], ◌∷◌, true, false,
}
use peanuts.Extent.{Extent}
use peanuts.SparseExtent.{SparseExtent, get_extent}
use peanuts.SparseExtent.Iterator.{
  Iterator, dereference, at, first, past_last, increment, advance, retreat, difference, differ,
  walk, inspect,
}

-- The extents with the indices from `i` on.
abbrev pub extents_from : SparseExtent → ℕ → ℕ → List Extent
extents_from s zero i = []
extents_from s (suc n) i = get_extent s i ∷ extents_from s n (i + 1)

differ-end : (a b : Iterator) → a.parent ≡ b.parent → a.index ≡ b.index → differ a b ≡ false
unfolding differ
differ-end a b p e = ground arith

differ-inside : (a b : Iterator) → a.index < b.index → differ a b ≡ true
unfolding differ
differ-inside a b l = ground arith

module _ (objects : ℕ → SparseExtent) (parent : ℕ) (small : (objects parent).count < 2 ^ 32) where
  walk-extents :
      (n : ℕ) (it stop : Iterator)
      → it.parent ≡ parent
      → stop.parent ≡ parent
      → stop.index ≡ (objects parent).count
      → it.index + n ≡ (objects parent).count
      → walk objects (suc n) it stop ≡ extents_from (objects parent) n it.index
  unfolding walk dereference increment
  walk-extents zero it stop p q s e = rw (differ-end it stop (omega arith) (omega arith), walk) refl
  walk-extents (suc n) it stop p q s e =
      let next = increment (dereference objects it).1 in
      let i : next.index ≡ it.index + 1 = omega arith in
      let r = walk-extents n next stop p q s (omega arith) in
      rw (differ-inside it stop (omega arith), walk)
        (ap₂ ◌∷◌ (ap (λ (x : ℕ). get_extent (objects x) it.index) p)
          (r ∙ ap (extents_from (objects parent) n) i))

  -- In a sparse extent with fewer than 2^32 extents, the loop from `begin` to `end` comes to its
  -- end and gives each extent once, in the order of their indices.
  pub inspect_lem : inspect objects parent ≡ extents_from (objects parent) (objects parent).count 0
  unfolding inspect first past_last
  inspect_lem =
      walk-extents (objects parent).count (first objects parent) (past_last objects parent) refl
        refl refl (unfold first in omega arith)

  -- In a sparse extent with at least one and fewer than 2^32 extents, the distance from `end` back
  -- to `begin` comes out as 2^32 less the number of extents, in place of a negative number.
  pub difference-past_last :
      0 < (objects parent).count
      → difference (first objects parent) (past_last objects parent)
        ≡ 2 ^ 32 - (objects parent).count
  unfolding difference first past_last
  difference-past_last h = omega arith

pub at-advance :
    (objects : ℕ → SparseExtent) (it : Iterator) (n : ℕ)
    → it.index + n < 2 ^ 32
    → ((at objects it n).0 ≡ (dereference objects (advance it n)).0)
      × (difference (advance it n) it ≡ n)
      × (retreat (advance it n) n ≡ it)
unfolding at dereference advance retreat difference
at-advance objects it n l =
    (refl, omega arith, ap (λ (x : ℕ). record it { index = x }) (omega arith))
