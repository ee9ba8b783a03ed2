-- ===== src/Topology/Tests.antt =====
-- Runs of the rank maps.
use peanuts.Base.{List, [], ◌∷◌, ◌≡◌, refl, some, ℕ}
use peanuts.Topology.{RankPair, make, equal, global2rank_pair, rank_pair2global_rank}
use peanuts.Topology.Ranks.{IsDistinct, rank_pair2global_rank-inverse}

abbrev pair : ℕ → ℕ → RankPair
pair i j = record { inter = i; intra = j }

-- three processes on two nodes
abbrev pairs : List RankPair
pairs = pair 0 0 ∷ pair 0 1 ∷ pair 1 0 ∷ []

pairs-IsDistinct : IsDistinct pairs
unfolding equal
pairs-IsDistinct = ((refl, (refl, tt)), ((refl, tt), (tt, tt)))

rank_pair2global_rank-inverse_example :
    rank_pair2global_rank (make 1 1 2 0 pairs) (pair 1 0) ≡ some 2
rank_pair2global_rank-inverse_example =
    rank_pair2global_rank-inverse 1 1 2 0 pairs 2 (pair 1 0) pairs-IsDistinct found
  where
    found : global2rank_pair (make 1 1 2 0 pairs) 2 ≡ some (pair 1 0)
    found = unfold global2rank_pair make in refl
