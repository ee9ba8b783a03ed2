-- ===== src/Cluster/Layout.antt =====
-- Where the processes have their blocks, and the entries that a process makes of its topology: the
-- constructors of `rpm_local_block` and `rpm_blocks` of projects/peanuts/include/peanuts/rpm.hpp, on
-- every process.
use peanuts.Base.{ℕ, ◌-◌, ◌≤◌, ◌<◌, ◌≡◌, ◌==◌, refl, some, ◌≢◌, two64, inl, inr, List, sym, arith}
use peanuts.Base.{ap, ◌∙◌, true, ◌*◌, ◌%◌}
use native.Mathlib.Decide.{dec_lt}
use native.Mathlib.Nat.{eq_of_mul-eq-mul_left}
use peanuts.Topology.{Topology, RankPair, global2rank_pair, is_local}
use peanuts.Topology.{global2intra_rank0_global_rank}
use peanuts.Rpm.{Rpm, RankInfo, block_disp, rank_info_value, win_target_rank}
use peanuts.Rpm.Blocks.{blocks_apart}
use peanuts.Cluster.{Cluster}
use peanuts.Cluster.Consistent.{AreApart}
use peanuts.Cluster.Fabric.{IsFabric}
use peanuts.Rpm
use peanuts.Pmem

abbrev pub leader_of : RankPair → RankPair
leader_of p = record { inter = p.inter; intra = 0 }

-- The processes, each with a topology and a mapping of its own, stand where every topology says, and
-- each has its block where its own `rpm_local_block` starts.
pub record IsLaidOut (c : Cluster) (topo : ℕ → Topology) (map_size : ℕ → ℕ) : Type 0 where
  pub pair : ℕ → RankPair
  pub known : (q r : ℕ) → q < c.size → r < c.size → global2rank_pair (topo q) r ≡ some (pair r)
  pub rank : (r : ℕ) → r < c.size → (topo r).rank ≡ r
  pub intra_rank : (r : ℕ) → r < c.size → (topo r).intra_rank ≡ (pair r).intra
  pub node : (r : ℕ) → r < c.size → c.node r ≡ (pair r).inter
  pub disp :
      (r : ℕ)
      → r < c.size
      → c.disp r ≡ block_disp (Rpm.make (topo r) (map_size r)) (topo r).intra_rank

-- The displacement of a block depends on the size of the blocks only.
block_disp-cong :
    (r s : Rpm) (i : ℕ) → r.block_size ≡ s.block_size → block_disp r i ≡ block_disp s i
unfolding block_disp
block_disp-cong r s i e = rw e refl

make-block_size :
    (t u : Topology) (m n : ℕ)
    → t.intra_size ≡ u.intra_size
    → m ≡ n
    → (Rpm.make t m).block_size ≡ (Rpm.make u n).block_size
unfolding Rpm.make
make-block_size t u m n e f = rw (e, f) refl

module _ (c : Cluster) (topo : ℕ → Topology) (map_size : ℕ → ℕ)
    (laid : IsLaidOut c topo map_size) where
  abbrev rpm : ℕ → Rpm
  rpm r = Rpm.make (topo r) (map_size r)

  placed : (r : ℕ) → r < c.size → c.disp r ≡ block_disp (rpm r) (laid.pair r).intra
  placed r l = laid.disp r l ∙ ap (block_disp (rpm r)) (laid.intra_rank r l)

  module _ (q : ℕ) (rank : q < c.size) where
    abbrev entry : ℕ → RankInfo
    entry r = record {
      local = (laid.pair r).inter == (laid.pair q).inter;
      target = r - (laid.pair r).intra;
      disp = block_disp (rpm q) (laid.pair r).intra;
    }

    rank_info_value-entry : (r : ℕ) → r < c.size → rank_info_value (rpm q) r ≡ some (entry r)
    unfolding rank_info_value is_local win_target_rank global2intra_rank0_global_rank Rpm.make
    rank_info_value-entry r l =
        rw (laid.rank q rank, laid.known q r rank l, laid.known q q rank rank) refl

    -- Where a process divides its mapping into blocks of another size than another one, the entry that
    -- it computes for that one leads it to a wrong place, but for the first process of a node.
    entry_misses :
        (r : ℕ) (info : RankInfo)
        → r < c.size
        → rank_info_value (rpm q) r ≡ some info
        → 0 < (laid.pair r).intra
        → (laid.pair r).intra * (rpm q).block_size < two64
        → (laid.pair r).intra * (rpm r).block_size < two64
        → (rpm q).block_size ≢ (rpm r).block_size
        → info.disp ≢ c.disp r
    unfolding block_disp
    entry_misses r info l v p wq wr d e =
        let i = (laid.pair r).intra in
        let k : some info ≡ some (entry r) = sym v ∙ rank_info_value-entry r l in
        let k' : info ≡ entry r = cc in
        let s : i * (rpm q).block_size % two64 ≡ i * (rpm r).block_size % two64 =
          ap (λ (x : RankInfo). x.disp) (sym k') ∙ e ∙ placed r l in
        let s' : i * (rpm q).block_size ≡ i * (rpm r).block_size = omega arith in
        d (eq_of_mul-eq-mul_left i p (rpm q).block_size (rpm r).block_size s')

    module _ (win_get : ℕ → ℕ → ℕ → List ℕ) (info : ℕ → RankInfo)
        (entries : (r : ℕ) → r < c.size → rank_info_value (rpm q) r ≡ some (info r))
        (uniform : (r : ℕ) → r < c.size → (rpm r).block_size ≡ (rpm q).block_size)
        (consecutive : (r : ℕ)
          → r < c.size
          → ((laid.pair r).intra ≤ r)
            × (laid.pair (r - (laid.pair r).intra) ≡ leader_of (laid.pair r)))
        (window : (t n ofs : ℕ)
          → t < c.size
          → (laid.pair t).intra ≡ 0
          → win_get t n ofs ≡ Pmem.pread (c.memory (c.node t)) n ofs) where
      info-entry : (r : ℕ) → r < c.size → info r ≡ entry r
      info-entry r l =
          let e : some (info r) ≡ some (entry r) = sym (entries r l) ∙ rank_info_value-entry r l in
          cc

      entry-disp : (r : ℕ) → r < c.size → (entry r).disp ≡ c.disp r
      entry-disp r l =
          block_disp-cong (rpm q) (rpm r) (laid.pair r).intra (sym (uniform r l)) ∙ sym (placed r l)

      -- The process that a window of a rank is on.
      target-node : (r : ℕ) → r < c.size → c.node (r - (laid.pair r).intra) ≡ c.node r
      target-node r l =
          let k = consecutive r l in
          laid.node (r - (laid.pair r).intra) (omega arith)
          ∙ ap (λ (p : RankPair). p.inter) k.1
          ∙ sym (laid.node r l)

      entry-window :
          (r n ofs : ℕ)
          → r < c.size
          → win_get (r - (laid.pair r).intra) n ofs ≡ Pmem.pread (c.memory (c.node r)) n ofs
      entry-window r n ofs l =
          let k = consecutive r l in
          window (r - (laid.pair r).intra) n ofs (omega arith) (ap (λ (p : RankPair). p.intra) k.1)
          ∙ ap (λ (j : ℕ). Pmem.pread (c.memory j) n ofs) (target-node r l)

      -- Where each process has its block at the displacement that it computes itself, all divide
      -- their mappings into blocks of one size, the ranks of a node are consecutive, the window of
      -- the first process of each node gives the bytes of the mapping of the node, and a process
      -- finds for each rank the entry that its constructor computed, the entries lead it to the
      -- blocks of all processes.
      pub entries-IsFabric : IsFabric c q win_get info
      entries-IsFabric = record {
        disp = λ r l. ap (λ (i : RankInfo). i.disp) (info-entry r l) ∙ entry-disp r l;
        same_node = λ r l e.
            let same : ((laid.pair r).inter == (laid.pair q).inter) ≡ true =
              ap (λ (i : RankInfo). i.local) (sym (info-entry r l)) ∙ e in
            let k : (laid.pair r).inter ≡ (laid.pair q).inter = ground arith in
            laid.node r l ∙ k ∙ sym (laid.node q rank);
        window = λ r n ofs l e.
            ap (λ (i : RankInfo). win_get i.target n ofs) (info-entry r l) ∙ entry-window r n ofs l;
      }

  -- Where two processes of one node have mappings of one size below 2^64, as many processes on
  -- their node, and two places among those, each has its block at the displacement that it computes
  -- itself, and a ring fits a block, their rings have no byte in common, whatever the other nodes
  -- have.
  pub rings_apart :
      (r q : ℕ)
      → r < c.size
      → q < c.size
      → map_size r ≡ map_size q
      → (topo r).intra_size ≡ (topo q).intra_size
      → map_size r < two64
      → (laid.pair r).intra < (topo r).intra_size
      → (laid.pair q).intra < (topo r).intra_size
      → (laid.pair r).intra ≢ (laid.pair q).intra
      → c.ring_size ≤ (rpm r).block_size
      → AreApart c.ring_size (c.disp r) (c.disp q)
  rings_apart r q lr lq same_map same_size mapped ir iq n fits =
      let i = (laid.pair r).intra in
      let j = (laid.pair q).intra in
      let at_r = placed r lr in
      let at_q =
        placed q lq
        ∙ block_disp-cong (rpm q) (rpm r) j (
            sym (make-block_size (topo r) (topo q) (map_size r) (map_size q) same_size same_map)) in
      elim (dec_lt i j) [
        | yes h ↦
            let b = blocks_apart (topo r) (map_size r) (omega arith) mapped i j h iq in
            inl (omega (arith, at_r, at_q, b.0))
        | no h ↦
            let b = blocks_apart (topo r) (map_size r) (omega arith) mapped j i (omega arith) ir in
            inr (omega (arith, at_r, at_q, b.0))
      ]
