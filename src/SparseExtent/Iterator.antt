-- ===== src/SparseExtent/Iterator.antt =====
-- `sparse_extent::const_iterator` of projects/peanuts/include/peanuts/sparse_extent.hpp. The sparse
-- extents are objects at addresses; a `ptrdiff_t` is a 64-bit word, negative numbers from its top.
use peanuts.Base.{ℕ, zero, suc, Bool, true, false, not, List, [], ◌∷◌, ltb, leb, ◌==◌, sub64, ◌+◌}
use peanuts.Base.{◌-◌, ◌&&◌, ◌^◌}
use peanuts.Extent.{Extent}
use peanuts.SparseExtent.{SparseExtent, get_extent, to_u32}

pub record Iterator : Type 0 where
  pub parent : ℕ
  pub index : ℕ
  pub current : Extent

-- A new iterator's `current` is not set.
unfoldable pub make : ℕ → ℕ → Iterator
make parent index = record {
  parent = parent;
  index = index;
  current = record { begin = 0; end = 0 };
}

module _ (objects : ℕ → SparseExtent) where
  -- `*`, with the iterator whose `current_` the reference is to.
  unfoldable pub dereference : Iterator → Extent × Iterator
  dereference it =
      (let ex = get_extent (objects it.parent) it.index in (ex, record it { current = ex }))

  -- `[n]`
  unfoldable pub at : Iterator → ℕ → Extent × Iterator
  at it n =
      (let ex = get_extent (objects it.parent) (to_u32 (it.index + n)) in
        (ex, record it { current = ex }))

  -- `begin` and `end`
  unfoldable pub first : ℕ → Iterator
  unfolding make
  first parent = make parent 0

  unfoldable pub past_last : ℕ → Iterator
  unfolding make
  past_last parent = make parent (objects parent).count

-- The prefix operators, and `+=` and `-=`.
unfoldable pub increment : Iterator → Iterator
increment it = record it { index = to_u32 (it.index + 1) }

unfoldable pub decrement : Iterator → Iterator
decrement it = record it { index = to_u32 (it.index + 2 ^ 32 - 1) }

unfoldable pub advance : Iterator → ℕ → Iterator
advance it n = record it { index = to_u32 (it.index + n) }

unfoldable pub retreat : Iterator → ℕ → Iterator
retreat it n = record it { index = to_u32 (sub64 it.index n) }

-- The postfix operators give the iterator as it was.
unfoldable pub post_increment : Iterator → Iterator × Iterator
unfolding increment
post_increment it = (it, increment it)

unfoldable pub post_decrement : Iterator → Iterator × Iterator
unfolding decrement
post_decrement it = (it, decrement it)

-- The indices are subtracted as 32-bit numbers, before they are signed.
unfoldable pub difference : Iterator → Iterator → ℕ
difference a b = to_u32 (a.index + 2 ^ 32 - b.index)

unfoldable pub equal : Iterator → Iterator → Bool
equal a b = a.parent == b.parent && a.index == b.index

unfoldable pub differ : Iterator → Iterator → Bool
unfolding equal
differ a b = not (equal a b)

unfoldable pub less : Iterator → Iterator → Bool
less a b = ltb a.index b.index

unfoldable pub greater : Iterator → Iterator → Bool
greater a b = ltb b.index a.index

unfoldable pub less_equal : Iterator → Iterator → Bool
less_equal a b = leb a.index b.index

unfoldable pub greater_equal : Iterator → Iterator → Bool
greater_equal a b = leb b.index a.index

-- The loop over a sparse extent that `inspect` prints: what `*` gives in each round.
unfoldable pub walk : (ℕ → SparseExtent) → ℕ → Iterator → Iterator → List Extent
unfolding differ dereference increment
walk objects zero it stop = []
walk objects (suc fuel) it stop = elim (differ it stop) [
  | false ↦ []
  | true ↦
      (dereference objects it).0 ∷ walk objects fuel (increment (dereference objects it).1) stop
]

-- A round for each extent, and one that sees the end.
unfoldable pub inspect : (ℕ → SparseExtent) → ℕ → List Extent
unfolding walk first past_last
inspect objects parent =
    walk objects (suc (objects parent).count) (first objects parent) (past_last objects parent)
