-- ===== src/SparseExtent.antt =====
-- `struct sparse_extent` of projects/peanuts/include/peanuts/sparse_extent.hpp: extents of one size
-- with holes of one size between them. Positions are 64-bit numbers, the size of a hole and the
-- number of extents 32-bit ones.
pub mod Strides
pub mod Iterator
pub mod Walk
mod Tests
use peanuts.Base.{ℕ, Bool, true, false, List, [], ◌∷◌, ltb, leb, ◌==◌, add64, sub64, mul64}
use peanuts.Base.{if◌then◌else◌, ◌+◌, ◌-◌, ◌%◌, ◌/◌, ◌&&◌, ◌^◌}
use peanuts.Extent.{Extent}
use peanuts.Extent

pub record SparseExtent : Type 0 where
  pub ex : Extent
  pub hole : ℕ
  pub count : ℕ

abbrev pub to_u32 : ℕ → ℕ
to_u32 x = x % 2 ^ 32

abbrev pub none_left : SparseExtent
none_left = record { ex = record { begin = 0; end = 0 }; hole = 0; count = 0 }

unfoldable pub make : ℕ → ℕ → ℕ → ℕ → SparseExtent
make begin extent_size hole count = record {
  ex = record { begin = begin; end = add64 begin extent_size };
  hole = hole;
  count = count;
}

unfoldable pub of_extent : Extent → SparseExtent
of_extent ex = record { ex = ex; hole = 0; count = 1 }

unfoldable pub extent_size : SparseExtent → ℕ
unfolding Extent.size
extent_size s = Extent.size s.ex

-- The two steps of `normalize`.
unfoldable pub drop_hole : SparseExtent → SparseExtent
drop_hole s = if leb s.count 1 then record s { hole = 0 } else s

unfoldable pub join_extents : SparseExtent → SparseExtent
unfolding extent_size
join_extents s =
    if s.hole == 0 && ltb 1 s.count
    then record s {
      ex = record { begin = s.ex.begin; end = add64 s.ex.begin (mul64 (extent_size s) s.count) };
      count = 1;
    }
    else s

unfoldable pub normalize : SparseExtent → SparseExtent
unfolding drop_hole join_extents
normalize s = join_extents (drop_hole s)

unfoldable pub stride_size : SparseExtent → ℕ
unfolding extent_size
stride_size s = add64 (extent_size s) s.hole

unfoldable pub size : SparseExtent → ℕ
unfolding stride_size
size s = sub64 (mul64 (stride_size s) s.count) s.hole

unfoldable pub start : SparseExtent → ℕ
start s = s.ex.begin

unfoldable pub stop : SparseExtent → ℕ
unfolding size
stop s = add64 s.ex.begin (size s)

unfoldable pub true_extent : SparseExtent → Extent
unfolding size
true_extent s = record { begin = s.ex.begin; end = add64 s.ex.begin (size s) }

unfoldable pub outer_extent : SparseExtent → Extent
unfolding size
outer_extent s = record { begin = s.ex.begin; end = add64 (add64 s.ex.begin (size s)) s.hole }

unfoldable pub get_extent : SparseExtent → ℕ → Extent
unfolding stride_size
get_extent s index =
    let disp = add64 s.ex.begin (mul64 index (stride_size s)) in
    record { begin = disp; end = add64 disp (extent_size s) }

unfoldable pub overlaps : SparseExtent → SparseExtent → Bool
unfolding Extent.overlaps true_extent
overlaps a b = Extent.overlaps (true_extent a) (true_extent b)

unfoldable pub get_stride_index_at : SparseExtent → ℕ → ℕ
unfolding stride_size
get_stride_index_at s pos = sub64 pos s.ex.begin / stride_size s

unfoldable pub get_shifted_stride_index_at : SparseExtent → ℕ → ℕ
unfolding stride_size
get_shifted_stride_index_at s pos = sub64 (add64 pos s.hole) s.ex.begin / stride_size s

unfoldable pub get_first_slice_start_at : SparseExtent → ℕ → SparseExtent
unfolding get_shifted_stride_index_at stride_size make
get_first_slice_start_at s pos =
    let idx = to_u32 (get_shifted_stride_index_at s pos) in
    let stride_pos = add64 s.ex.begin (mul64 idx (stride_size s)) in
    if leb s.count idx
    then none_left
    else if ltb stride_pos pos
    then make pos (sub64 (extent_size s) (sub64 pos stride_pos)) 0 1
    else make stride_pos (extent_size s) s.hole (s.count - idx)

-- What stands before a position: the last stride reached, one less where the position is in the
-- middle of its extent.
unfoldable pub get_first_slice_stop_at : SparseExtent → ℕ → SparseExtent
unfolding get_stride_index_at stride_size make
get_first_slice_stop_at s pos =
    let idx = to_u32 (get_stride_index_at s pos) in
    let stride_pos = add64 s.ex.begin (mul64 idx (stride_size s)) in
    if leb pos s.ex.begin
    then none_left
    else if ltb pos (add64 stride_pos (extent_size s))
    then (if idx == 0
        then make s.ex.begin (sub64 pos s.ex.begin) 0 1
        else make s.ex.begin (extent_size s) s.hole (to_u32 (idx - 1 + 1)))
    else make s.ex.begin (extent_size s) s.hole (to_u32 (idx + 1))

-- What `get_first_slice` gives once the strides of both ends are known.
unfoldable pub slice_to : SparseExtent → ℕ → ℕ → ℕ → ℕ → SparseExtent
unfolding extent_size make
slice_to s start' stride_pos start_idx stop_idx =
    if leb start' stride_pos
    then make stride_pos (extent_size s) s.hole (to_u32 (stop_idx + 2 ^ 32 - start_idx + 1))
    else make start' (sub64 (extent_size s) (sub64 start' stride_pos)) 0 1

unfoldable pub get_first_slice : SparseExtent → ℕ → ℕ → SparseExtent
unfolding get_shifted_stride_index_at get_stride_index_at stride_size make slice_to
get_first_slice s start' stop' =
    let start_idx = to_u32 (get_shifted_stride_index_at s start') in
    let start_pos = add64 s.ex.begin (mul64 start_idx (stride_size s)) in
    let new_start = if leb start' start_pos then start_pos else start' in
    let stop_idx = to_u32 (get_stride_index_at s stop') in
    let stop_pos = add64 s.ex.begin (mul64 stop_idx (stride_size s)) in
    if leb s.count start_idx
    then none_left
    else if ltb stop' (add64 stop_pos (extent_size s))
    then (if stop_idx == start_idx
        then make new_start (sub64 stop' new_start) 0 1
        else slice_to s start' start_pos start_idx (to_u32 (stop_idx + 2 ^ 32 - 1)))
    else slice_to s start' start_pos start_idx stop_idx

unfoldable pub is_in_hole : SparseExtent → ℕ → Bool
unfolding stride_size
is_in_hole s pos = leb (extent_size s) (sub64 pos s.ex.begin % stride_size s)

unfoldable pub equal : SparseExtent → SparseExtent → Bool
unfolding Extent.equal
equal a b = Extent.equal a.ex b.ex && a.hole == b.hole && a.count == b.count

unfoldable pub is_same_strided : SparseExtent → SparseExtent → Bool
unfolding extent_size
is_same_strided a b = extent_size a == extent_size b && a.hole == b.hole

unfoldable pub followed_by : SparseExtent → SparseExtent → Bool
unfolding is_same_strided Extent.followed_by outer_extent
followed_by a b = is_same_strided a b && Extent.followed_by (outer_extent a) (outer_extent b)
