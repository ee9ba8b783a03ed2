-- ===== src/Rpm.antt =====
-- projects/peanuts/include/peanuts/rpm.hpp: one mapping of persistent memory to a node, with a block
-- for each of its processes. The window on a remote mapping is MPI's, and a parameter: `win_get`
-- gives the bytes at a displacement in the window of a rank.
pub mod Flush
pub mod Blocks
pub mod Infos
mod Tests
use peanuts.Base.{ℕ, zero, suc, ◌+◌, ◌*◌, ◌/◌, ◌^◌, Bool, true, false, Option, some, none, List, []}
use peanuts.Base.{◌∷◌, get_elem?, length, ltb, ◌==◌, if◌then◌else◌, mul64, add64, take, max, ◌++◌}
use peanuts.Base.{drop}
use peanuts.Pmem.{Memory}
use peanuts.Power.{round_down_pow2}
use peanuts.Topology.{Topology, global2intra_rank, is_local, global2intra_rank0_global_rank}
use mathlib.Core.Option
use peanuts.Pmem

abbrev pub pmem_alignment : ℕ
pmem_alignment = 2 ^ 21

pub record Rpm : Type 0 where
  pub topo : Topology
  pub block_size : ℕ
  pub aligned_size : ℕ

-- The constructor, for a mapping of `map_size` bytes.
unfoldable pub make : Topology → ℕ → Rpm
make topo map_size =
    let block_size = round_down_pow2 (map_size / topo.intra_size) pmem_alignment in
    record { topo = topo; block_size = block_size; aligned_size = mul64 block_size topo.intra_size }

unfoldable pub block_disp : Rpm → ℕ → ℕ
block_disp r intra_rank = mul64 intra_rank r.block_size

unfoldable pub block_disp_from_global : Rpm → ℕ → Option ℕ
unfolding block_disp
block_disp_from_global r global_rank =
    Option.map (block_disp r) (global2intra_rank r.topo global_rank)

unfoldable pub win_target_rank : Rpm → ℕ → Option ℕ
win_target_rank r global_rank = global2intra_rank0_global_rank r.topo global_rank

-- `rpm_local_block`: reads and writes at an offset behind `disp`.
unfoldable pub local_pread : Memory → ℕ → ℕ → ℕ → List ℕ
local_pread m disp count offset = Pmem.pread m count (disp + offset)

unfoldable pub local_pwrite : ℕ → Memory → List ℕ → ℕ → Memory
local_pwrite disp m buf offset = Pmem.pwrite m buf (disp + offset)

-- `rpm_blocks::rank_info`
pub record RankInfo : Type 0 where
  pub local : Bool
  pub target : ℕ
  pub disp : ℕ

unfoldable pub make_rank_info : Option Bool → Option ℕ → Option ℕ → Option RankInfo
make_rank_info none t d = none
make_rank_info (some l) none d = none
make_rank_info (some l) (some t) none = none
make_rank_info (some l) (some t) (some d) = some (record { local = l; target = t; disp = d })

-- The value that `initialize_rank_info` assigns to the element of a rank; whether the vector has
-- that element is another matter.
unfoldable pub rank_info_value : Rpm → ℕ → Option RankInfo
unfolding make_rank_info block_disp_from_global win_target_rank
rank_info_value r rank =
    make_rank_info (is_local r.topo rank) (win_target_rank r rank) (block_disp_from_global r rank)

-- `std::vector<rank_info>`: its elements, and how many there is room for.
pub record RankInfos : Type 0 where
  pub elements : List RankInfo
  pub capacity : ℕ

unfoldable pub reserve : RankInfos → ℕ → RankInfos
reserve v n = record v { capacity = max v.capacity n }

-- `v[rank] = info`, which is undefined where the vector has no such element, whatever room it has.
unfoldable pub assign : RankInfos → ℕ → RankInfo → Option RankInfos
assign v rank info =
    if ltb rank (length v.elements)
    then some (record v { elements = take rank v.elements ++ (info ∷ drop (rank + 1) v.elements) })
    else none

infixl 5 ◌>>=◌
abbrev ◌>>=◌ {ℓ κ} : {A : Type ℓ} {B : Type κ} → Option A → (A → Option B) → Option B
none >>= f = none
some a >>= f = f a

-- The loop of `initialize_rank_info` from a rank on.
unfoldable pub assign_from : Rpm → ℕ → ℕ → RankInfos → Option RankInfos
unfolding rank_info_value assign
assign_from r zero rank v = some v
assign_from r (suc n) rank v = do
  info ← rank_info_value r rank
  v' ← assign v rank info
  assign_from r n (rank + 1) v'

unfoldable pub initialize_rank_info : Rpm → Option RankInfos
unfolding assign_from reserve
initialize_rank_info r =
    let world_size = length r.topo.rank_map in
    assign_from r world_size 0 (reserve (record { elements = []; capacity = 0 }) world_size)

-- `rank_accessed_`: NO_RANK_ACCESSED, a rank, or MULTIPLE_RANKS_ACCESSED.
pub data Accessed : Type 0 where
  nobody : Accessed
  only : ℕ → Accessed
  several : Accessed

unfoldable pub note_access : Accessed → ℕ → Accessed
note_access nobody target = only target
note_access (only r) target = if r == target then only r else several
note_access several target = several

-- What `flush` asks of the window: nothing, `flush(rank)` or `flush_all()`.
pub data FlushCall : Type 0 where
  no_call : FlushCall
  flush_rank : ℕ → FlushCall
  flush_all : FlushCall

unfoldable pub flush : Accessed → FlushCall × Accessed
flush nobody = (no_call, nobody)
flush (only r) = (flush_rank r, nobody)
flush several = (flush_all, nobody)

-- `rpm_blocks::pread_noflush` and `pread`, with what the flush asks for. The entry that the vector
-- gives for the rank is an argument: the source reads it from a vector that has no elements, so that
-- what is there is not of the source.
module _ (win_get : ℕ → ℕ → ℕ → List ℕ) (own : Memory) where
  unfoldable pub pread_noflush : RankInfo → Accessed → ℕ → ℕ → List ℕ × Accessed
  pread_noflush info acc count offset =
      if info.local
      then (Pmem.pread own count (info.disp + offset), acc)
      else (win_get info.target count (info.disp + offset), note_access acc info.target)

  unfoldable pub pread : RankInfo → Accessed → ℕ → ℕ → List ℕ × FlushCall × Accessed
  pread info acc count offset =
      let (buf, acc') = pread_noflush info acc count offset in
      let (call, acc'') = flush acc' in (buf, call, acc'')
