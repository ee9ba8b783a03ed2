-- ===== src/Extent.antt =====
-- `struct extent` of projects/peanuts/include/peanuts/extent_tree.hpp: a half-open range of 64-bit
-- file offsets. The assertions of the source are no part of the functions: a theorem that needs one
-- has it among its hypotheses.
pub mod Points
use peanuts.Base.{ℕ, ◌-◌, ◌+◌, ◌%◌, ◌^◌, min, max, Bool, ◌&&◌, ◌||◌, not, Option, none, some, ltb}
use peanuts.Base.{leb, ◌==◌, if◌then◌else◌, sub64, two64}

pub record Extent : Type 0 where
  pub begin : ℕ
  pub end : ℕ

unfoldable pub size : Extent → ℕ
size e = sub64 e.end e.begin

unfoldable pub less : Extent → Extent → Bool
less a b = ltb a.begin b.begin

unfoldable pub equal : Extent → Extent → Bool
equal a b = a.begin == b.begin && a.end == b.end

unfoldable pub differ : Extent → Extent → Bool
unfolding equal
differ a b = not (equal a b)

unfoldable pub overlaps : Extent → Extent → Bool
overlaps a b = ltb a.begin b.end && ltb b.begin a.end

unfoldable pub followed_by : Extent → Extent → Bool
followed_by a b = b.begin == a.end

unfoldable pub contiguous : Extent → Extent → Bool
contiguous a b = a.begin == b.end || b.begin == a.end

unfoldable pub get_union : Extent → Extent → Extent
get_union a b = record { begin = min a.begin b.begin; end = max a.end b.end }

unfoldable pub get_intersection : Extent → Extent → Extent
get_intersection a b = record { begin = max a.begin b.begin; end = min a.end b.end }

unfoldable pub get_non_overlapping : Extent → Extent → Option Extent
get_non_overlapping a b =
    if ltb a.begin b.begin
    then some (record { begin = a.begin; end = b.begin })
    else if ltb b.end a.end
    then some (record { begin = b.end; end = a.end })
    else none
