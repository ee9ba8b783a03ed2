-- ===== src/Topology/Ranks.antt =====
-- From the place of a process to its rank: `create_inverted_rank_map` and what reads it.
use peanuts.Base.{if◌then◌else◌, ℕ, zero, suc, ◌+◌, ◌≡◌, ◌∙◌, refl, ap, true, false, some, List, []}
use peanuts.Base.{◌∷◌, arith, get_elem?, All}
use peanuts.Topology.{RankPair, RankMap, equal, map_set, map_at, invert_from}
use peanuts.Topology.{create_inverted_rank_map, make, global2rank_pair, rank_pair2global_rank}

-- No two processes have the same pair.
abbrev pub IsDistinct : List RankPair → Type 0
IsDistinct [] = Unit
IsDistinct (p ∷ ps) = All (λ q. equal p q ≡ false) ps × IsDistinct ps

map_at-set :
    (k j : RankPair) (v : ℕ) (m : RankMap)
    → map_at j (map_set k v m) ≡ (if equal k j then some v else map_at j m)
unfolding map_at map_set equal
map_at-set k j v [] = refl
map_at-set k j v ((i, w) ∷ m) = ground (arith, map_at-set k j v m)

-- A pair that does not come again keeps its rank.
map_at-invert_from :
    (i : ℕ) (ps : List RankPair) (m : RankMap) (p : RankPair)
    → All (λ q. equal q p ≡ false) ps
    → map_at p (invert_from i ps m) ≡ map_at p m
unfolding invert_from
map_at-invert_from i [] m p d = refl
map_at-invert_from i (q ∷ ps) m p d =
    map_at-invert_from (i + 1) ps (map_set q i m) p d.1 ∙ (map_at-set q p i m ∙ rw d.0)

equal_refl : (p : RankPair) → equal p p ≡ true
unfolding equal
equal_refl p = ground arith

equal_comm : (p q : RankPair) → equal p q ≡ equal q p
unfolding equal
equal_comm p q = ground arith

All-equal_comm :
    (p : RankPair) (ps : List RankPair)
    → All (λ q. equal p q ≡ false) ps
    → All (λ q. equal q p ≡ false) ps
All-equal_comm p [] d = tt
All-equal_comm p (q ∷ ps) d = (equal_comm q p ∙ d.0, All-equal_comm p ps d.1)

invert_from-finds :
    (i : ℕ) (ps : List RankPair) (m : RankMap) (k : ℕ) (p : RankPair)
    → IsDistinct ps
    → get_elem? ps k ≡ some p
    → map_at p (invert_from i ps m) ≡ some (i + k)
unfolding invert_from
invert_from-finds i [] m k p d h = cc
invert_from-finds i (q ∷ ps) m zero p d h =
    let e : q ≡ p = cc in
    rw (← e) (
      map_at-invert_from (i + 1) ps (map_set q i m) q (All-equal_comm q ps d.0)
      ∙ map_at-set q q i m
      ∙ rw (equal_refl q) (ap some (omega arith)))
invert_from-finds i (q ∷ ps) m (suc k) p d h =
    invert_from-finds (i + 1) ps (map_set q i m) k p d.1 h ∙ ap some (omega arith)

-- Where no two processes stand at the same place of the same node, the inverted map leads from the
-- place of a process back to its rank.
pub rank_pair2global_rank-inverse :
    (rank intra_rank intra_size inter_rank : ℕ) (pairs : List RankPair) (r : ℕ) (p : RankPair)
    → IsDistinct pairs
    → global2rank_pair (make rank intra_rank intra_size inter_rank pairs) r ≡ some p
    → rank_pair2global_rank (make rank intra_rank intra_size inter_rank pairs) p ≡ some r
unfolding global2rank_pair rank_pair2global_rank make create_inverted_rank_map
rank_pair2global_rank-inverse rank intra_rank intra_size inter_rank pairs r p d h =
    invert_from-finds 0 pairs [] r p d h ∙ ap some (omega arith)
