-- ===== src/Rpm/Infos.antt =====
-- The vector of `initialize_rank_info`.
use peanuts.Base.{ℕ, suc, ◌<◌, ◌≡◌, refl, Option, none, some, [], length, arith, zero, le→ltb}
use peanuts.Rpm.{Rpm, RankInfo, rank_info_value, assign, assign_from, reserve, initialize_rank_info}

-- An empty vector has no element to assign, whatever room it has.
assign-empty :
    (capacity rank : ℕ) (info : RankInfo)
    → assign (record { elements = []; capacity = capacity }) rank info ≡ none
unfolding assign
assign-empty capacity rank info = rw (le→ltb rank 0 (omega arith))

assign_from-empty :
    (r : Rpm) (n rank capacity : ℕ)
    → 0 < n
    → assign_from r n rank (record { elements = []; capacity = capacity }) ≡ none
unfolding assign_from
assign_from-empty r zero rank capacity h = absurd (omega arith)
assign_from-empty r (suc n) rank capacity h = of_value (rank_info_value r rank) refl
  where
    of_value :
        (o : Option RankInfo)
        → rank_info_value r rank ≡ o
        → assign_from r (suc n) rank (record { elements = []; capacity = capacity }) ≡ none
    of_value none e = rw e refl
    of_value (some info) e = rw (e, assign-empty capacity rank info) refl

-- For a run of at least one process the vector is assigned an element that it has not.
initialize_rank_info-undefined :
    (r : Rpm) → 0 < length r.topo.rank_map → initialize_rank_info r ≡ none
unfolding initialize_rank_info reserve
initialize_rank_info-undefined r h = assign_from-empty r (length r.topo.rank_map) 0 _ h
