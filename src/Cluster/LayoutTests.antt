-- ===== src/Cluster/LayoutTests.antt =====
-- Three processes, two of them on one node, and the third on a node with a mapping of half the size.
use peanuts.Base.{◌-◌, ℕ, zero, suc, ◌<◌, ◌≡◌, ◌==◌, if◌then◌else◌, some, List, [], ◌∷◌, refl}
use peanuts.Base.{arith, ◌≤◌}
use peanuts.Rpm.{Rpm, RankInfo, nobody, rank_info_value, win_target_rank}
use peanuts.Topology.{Topology, RankPair, global2rank_pair, is_local}
use peanuts.Topology.{global2intra_rank0_global_rank}
use peanuts.BbHandler.{Handler}
use peanuts.Cluster.{Cluster}
use peanuts.Cluster.Layout.{IsLaidOut, rings_apart, entries-IsFabric, leader_of}
use peanuts.Power.{round_down_pow2}
use peanuts.Cluster.Fabric.{IsFabric}
use peanuts.Cluster.Consistent.{AreApart}
use peanuts.Pmem
use peanuts.Rpm
use peanuts.Topology

abbrev pairs : List RankPair
pairs =
    record { inter = 0; intra = 0 }
    ∷ record { inter = 0; intra = 1 }
    ∷ record { inter = 1; intra = 0 }
    ∷ []

-- The first node has two processes, and the second, with a mapping of half the size, has one.
abbrev topo : ℕ → Topology
topo r =
    Topology.make r (if r == 1 then 1 else 0) (if r == 2 then 1 else 2) (if r == 2 then 1 else 0)
      pairs

abbrev map_size : ℕ → ℕ
map_size r = if r == 2 then 5000000 else 10000000

abbrev idle : Handler
idle = record {
  global_tree = [];
  local_tree = [];
  ring = record { ring_size = 4; head_lsn = 0; tail_lsn = 0 };
  memory = λ i. 0;
  accessed = nobody;
  deferred_file_size = 0;
}

abbrev laid_out : Cluster
laid_out = record {
  size = 3;
  ring_size = 4;
  disp = λ r. if r == 1 then 4194304 else 0;
  node = λ r. if r == 2 then 1 else 0;
  local = λ r. idle;
  memory = λ k i. k;
}

abbrev pair : ℕ → RankPair
pair r = record { inter = if r == 2 then 1 else 0; intra = if r == 1 then 1 else 0 }

pair-known : (q r : ℕ) → q < 3 → r < 3 → global2rank_pair (topo q) r ≡ some (pair r)
unfolding global2rank_pair Topology.make
pair-known q zero k l = refl
pair-known q (suc zero) k l = refl
pair-known q (suc (suc zero)) k l = refl
pair-known q (suc (suc (suc r))) k l = absurd (omega arith)

pair-disp :
    (r : ℕ)
    → r < 3
    → laid_out.disp r ≡ Rpm.block_disp (Rpm.make (topo r) (map_size r)) (topo r).intra_rank
unfolding Rpm.block_disp Rpm.make Topology.make round_down_pow2
pair-disp zero l = refl
pair-disp (suc zero) l = refl
pair-disp (suc (suc zero)) l = refl
pair-disp (suc (suc (suc r))) l = absurd (omega arith)

pair-consecutive :
    (r : ℕ) → r < 3 → ((pair r).intra ≤ r) × (pair (r - (pair r).intra) ≡ leader_of (pair r))
pair-consecutive r l = ground arith

abbrev laid : IsLaidOut laid_out topo map_size
unfolding Topology.make
laid = record {
  pair = pair;
  known = pair-known;
  rank = λ r l. refl;
  intra_rank = λ r l. refl;
  node = λ r l. refl;
  disp = pair-disp;
}

abbrev info : ℕ → RankInfo
info r = record {
  local = (pair r).inter == 0;
  target = r - (pair r).intra;
  disp = Rpm.block_disp (Rpm.make (topo 0) (map_size 0)) (pair r).intra;
}

info-known : (r : ℕ) → r < 3 → rank_info_value (Rpm.make (topo 0) (map_size 0)) r ≡ some (info r)
unfolding rank_info_value Rpm.make Topology.make is_local win_target_rank
    global2intra_rank0_global_rank
info-known zero l = refl
info-known (suc zero) l = refl
info-known (suc (suc zero)) l = refl
info-known (suc (suc (suc r))) l = absurd (omega arith)

uniform :
    (r : ℕ)
    → r < 3
    → (Rpm.make (topo r) (map_size r)).block_size ≡ (Rpm.make (topo 0) (map_size 0)).block_size
unfolding Rpm.make Topology.make round_down_pow2
uniform zero l = refl
uniform (suc zero) l = refl
uniform (suc (suc zero)) l = refl
uniform (suc (suc (suc r))) l = absurd (omega arith)

entries-IsFabric_example :
    IsFabric laid_out 0 (λ t n ofs. Pmem.pread (laid_out.memory (laid_out.node t)) n ofs) info
unfolding laid
entries-IsFabric_example =
    entries-IsFabric laid_out topo map_size laid 0 (omega arith)
      (λ t n ofs. Pmem.pread (laid_out.memory (laid_out.node t)) n ofs) info info-known uniform
      pair-consecutive (λ t n ofs l z. refl)

fits : 4 ≤ (Rpm.make (topo 0) (map_size 0)).block_size
unfolding Rpm.make round_down_pow2 Topology.make
fits = omega arith

rings_apart_example : AreApart 4 0 4194304
unfolding Topology.make laid
rings_apart_example =
    rings_apart laid_out topo map_size laid 0 1 (omega arith) (omega arith) refl refl (omega arith)
      (omega arith) (omega arith) (omega arith) fits
