-- ===== src/SparseExtent/Strides.antt =====
-- Strides: where the extents lie, and which positions are in a hole.
use peanuts.Base.{ℕ, ◌≡◌, arith, ◌<◌, ◌-◌, two64, ◌+◌, ◌*◌, suc, ◌≤◌, not, add64, sub64, mul64, ◌%◌}
use peanuts.SparseExtent.{SparseExtent, extent_size, stride_size, get_extent, get_stride_index_at}
use peanuts.SparseExtent.{is_in_hole}
use native.Mathlib.Nat.{mul-add-div_right, mul-add-mod_self_right, div-eq_of_lt, mod-eq_of_lt}
use native.Mathlib.Nat.{mul-le-mul_right, suc-mul}
use peanuts.Extent.Points.{contains}
use peanuts.Extent

-- The extents are not empty, and the strides lie within the 64-bit numbers.
pub record IsStrided (s : SparseExtent) : Type 0 where
  pub whole : s.ex.begin < s.ex.end
  pub end : s.ex.end < two64
  pub fits : s.ex.begin + s.count * (s.ex.end - s.ex.begin + s.hole) < two64
  pub some : 0 < s.count

module _ (s : SparseExtent) (strided : IsStrided s) where
  abbrev stride : ℕ
  stride = s.ex.end - s.ex.begin + s.hole

  extent_size-eq : extent_size s ≡ s.ex.end - s.ex.begin
  unfolding extent_size
  extent_size-eq = unfold Extent.size in omega (arith, strided)

  -- The place of a position: its stride, and how far it is behind its begin.
  module _ (i r : ℕ) (l : i < s.count) (k : r < stride) where
    abbrev position : ℕ
    position = s.ex.begin + i * stride + r

    bound : s.ex.begin + i * stride + stride < two64
    bound =
        let m : suc i * stride ≤ s.count * stride = mul-le-mul_right stride l in
        let e : suc i * stride ≡ i * stride + stride = suc-mul i stride in omega (arith, strided)

    stride_size-eq : stride_size s ≡ stride
    unfolding stride_size extent_size Extent.size
    stride_size-eq = omega (arith, strided, bound)

    behind : sub64 position s.ex.begin ≡ i * stride + r
    behind = omega (arith, bound)

    get_extent-eq : get_extent s i ≡ record {
      begin = s.ex.begin + i * stride;
      end = s.ex.begin + i * stride + (s.ex.end - s.ex.begin);
    }
    unfolding get_extent
    get_extent-eq =
        let b : add64 s.ex.begin (mul64 i stride) ≡ s.ex.begin + i * stride =
          omega (arith, bound) in
        let e : add64 (s.ex.begin + i * stride) (s.ex.end - s.ex.begin)
            ≡ s.ex.begin + i * stride + (s.ex.end - s.ex.begin) =
          omega (arith, bound) in
        rw (stride_size-eq, extent_size-eq, b, e)

    index : get_stride_index_at s position ≡ i
    unfolding get_stride_index_at
    index =
        rw
          (stride_size-eq, behind, mul-add-div_right {m = stride} (omega arith) i r, div-eq_of_lt k)
          (omega arith)

    remainder : sub64 position s.ex.begin % stride_size s ≡ r
    remainder = rw (stride_size-eq, behind, mul-add-mod_self_right i stride r) (mod-eq_of_lt k)

    -- In strided extents that are not empty and end within the 64-bit numbers, a position inside a
    -- stride has the index of that stride, and is in a hole exactly where the extent of that index
    -- does not contain it.
    pub is_in_hole-get_extent :
        (get_stride_index_at s position ≡ i)
        × (is_in_hole s position ≡ not (contains (get_extent s i) position))
    unfolding is_in_hole
    is_in_hole-get_extent = (index, rw (remainder, extent_size-eq, get_extent-eq) (ground arith))
