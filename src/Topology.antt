-- ===== src/Topology.antt =====
-- projects/peanuts/include/peanuts/topology.hpp: which node a process runs on, and where it stands
-- there. The communicators are MPI's; what they give, ranks, sizes and the result of the
-- `all_gather`, are parameters. A vector or a map read where it has nothing is `none`.
pub mod Ranks
mod Tests
use peanuts.Base.{ℕ, zero, suc, ◌+◌, ◌-◌, Bool, true, false, ◌&&◌, ◌||◌, Option, some, none, List}
use peanuts.Base.{[], ◌∷◌, length, get_elem?, ltb, ◌==◌, if◌then◌else◌}
use mathlib.Core.Option

pub record RankPair : Type 0 where
  pub inter : ℕ
  pub intra : ℕ

unfoldable pub equal : RankPair → RankPair → Bool
equal a b = a.inter == b.inter && a.intra == b.intra

-- The order of the tuples.
unfoldable pub less : RankPair → RankPair → Bool
less a b = ltb a.inter b.inter || (a.inter == b.inter && ltb a.intra b.intra)

-- `std::map<rank_pair, int>`
abbrev pub RankMap : Type 0
RankMap = List (RankPair × ℕ)

unfoldable pub map_set : RankPair → ℕ → RankMap → RankMap
unfolding equal
map_set k v [] = (k, v) ∷ []
map_set k v ((j, w) ∷ m) = if equal j k then (j, v) ∷ m else (j, w) ∷ map_set k v m

unfoldable pub map_at : RankPair → RankMap → Option ℕ
unfolding equal
map_at k [] = none
map_at k ((j, w) ∷ m) = if equal j k then some w else map_at k m

-- The loop of `create_inverted_rank_map` from the rank `i` on.
unfoldable pub invert_from : ℕ → List RankPair → RankMap → RankMap
unfolding map_set
invert_from i [] m = m
invert_from i (p ∷ ps) m = invert_from (i + 1) ps (map_set p i m)

unfoldable pub create_inverted_rank_map : List RankPair → RankMap
unfolding invert_from
create_inverted_rank_map ps = invert_from 0 ps []

-- The nodes seen, each with the number of its processes: `unique_elements` and `ppn`.
unfoldable pub count_up : ℕ → List (ℕ × ℕ) → List (ℕ × ℕ)
count_up k [] = (k, 1) ∷ []
count_up k ((j, n) ∷ m) = if j == k then (j, n + 1) ∷ m else (j, n) ∷ count_up k m

unfoldable pub count_nodes : List RankPair → List (ℕ × ℕ) → List (ℕ × ℕ)
unfolding count_up
count_nodes [] m = m
count_nodes (p ∷ ps) m = count_nodes ps (count_up p.inter m)

unfoldable pub count_nnodes : List RankPair → ℕ
unfolding count_nodes
count_nnodes ps = length (count_nodes ps [])

unfoldable pub max_count : List (ℕ × ℕ) → ℕ → ℕ
max_count [] best = best
max_count ((j, n) ∷ m) best = max_count m (if ltb best n then n else best)

-- `max_element` of the counts; `none` where there is none to point at.
unfoldable pub count_max_ppn : List RankPair → Option ℕ
unfolding count_nodes max_count
count_max_ppn ps = elim (count_nodes ps []) [ [] ↦ none | e ∷ m ↦ some (max_count m e.1) ]

pub record Topology : Type 0 where
  pub rank : ℕ
  pub intra_rank : ℕ
  pub intra_size : ℕ
  pub inter_rank : ℕ
  pub rank_map : List RankPair
  pub inverted_rank_map : RankMap
  pub cached_nnodes : ℕ
  pub cached_max_ppn : Option ℕ

-- The constructor; `pairs` is what `all_gather` gives.
unfoldable pub make : ℕ → ℕ → ℕ → ℕ → List RankPair → Topology
make rank intra_rank intra_size inter_rank pairs = record {
  rank = rank;
  intra_rank = intra_rank;
  intra_size = intra_size;
  inter_rank = inter_rank;
  rank_map = pairs;
  inverted_rank_map = create_inverted_rank_map pairs;
  cached_nnodes = count_nnodes pairs;
  cached_max_ppn = count_max_ppn pairs;
}

unfoldable pub size : Topology → ℕ
size t = length t.rank_map

unfoldable pub global2rank_pair : Topology → ℕ → Option RankPair
global2rank_pair t r = get_elem? t.rank_map r

unfoldable pub global2inter_rank : Topology → ℕ → Option ℕ
unfolding global2rank_pair
global2inter_rank t r = Option.map (λ p. p.inter) (global2rank_pair t r)

unfoldable pub global2intra_rank : Topology → ℕ → Option ℕ
unfolding global2rank_pair
global2intra_rank t r = Option.map (λ p. p.intra) (global2rank_pair t r)

unfoldable pub same_node : Option ℕ → Option ℕ → Option Bool
same_node none b = none
same_node (some a) none = none
same_node (some a) (some b) = some (a == b)

unfoldable pub are_local : Topology → ℕ → ℕ → Option Bool
unfolding same_node global2inter_rank
are_local t a b = same_node (global2inter_rank t a) (global2inter_rank t b)

unfoldable pub is_local : Topology → ℕ → Option Bool
unfolding are_local
is_local t a = are_local t a t.rank

unfoldable pub rank_pair2global_rank : Topology → RankPair → Option ℕ
unfolding map_at
rank_pair2global_rank t p = map_at p t.inverted_rank_map

unfoldable pub inter2global_rank : Topology → ℕ → Option ℕ
unfolding rank_pair2global_rank
inter2global_rank t r = rank_pair2global_rank t (record { inter = r; intra = 0 })

unfoldable pub intra2global_rank : Topology → ℕ → Option ℕ
unfolding rank_pair2global_rank
intra2global_rank t r = rank_pair2global_rank t (record { inter = t.inter_rank; intra = r })

-- The process with the intra rank 0 on the node of `r`, if the ranks of a node are consecutive. A
-- negative difference is none of a process, and the model stops at 0.
unfoldable pub global2intra_rank0_global_rank : Topology → ℕ → Option ℕ
unfolding global2intra_rank
global2intra_rank0_global_rank t r = Option.map (λ i. r - i) (global2intra_rank t r)
