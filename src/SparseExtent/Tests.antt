-- ===== src/SparseExtent/Tests.antt =====
-- Runs of strided extents.
use peanuts.Base.{◌≡◌, arith, ℕ}
use peanuts.SparseExtent.{SparseExtent}
use peanuts.SparseExtent.Strides.{IsStrided}
use peanuts.SparseExtent.Iterator.{inspect, difference, first, at, dereference, advance, retreat}
use peanuts.SparseExtent.Walk.{inspect_lem, extents_from, at-advance}

-- [10, 14), [20, 24) and [30, 34)
abbrev strided : SparseExtent
strided = record { ex = record { begin = 10; end = 14 }; hole = 6; count = 3 }

strided-IsStrided : IsStrided strided
strided-IsStrided = record {
  whole = omega arith;
  end = omega arith;
  fits = omega arith;
  some = omega arith;
}

-- The sparse extent alone in memory.
abbrev memory : ℕ → SparseExtent
memory _ = strided

inspect_lem_example : inspect memory 0 ≡ extents_from strided 3 0
inspect_lem_example = inspect_lem memory 0 (omega arith)

at-advance_example :
    ((at memory (first memory 0) 2).0 ≡ (dereference memory (advance (first memory 0) 2)).0)
    × (difference (advance (first memory 0) 2) (first memory 0) ≡ 2)
    × (retreat (advance (first memory 0) 2) 2 ≡ first memory 0)
at-advance_example = at-advance memory (first memory 0) 2 (unfold first in omega arith)
