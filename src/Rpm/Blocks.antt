-- ===== src/Rpm/Blocks.antt =====
-- The blocks of the processes of a node in the node's mapping.
use native.Mathlib.Nat.{mod-add-div, mod-le, mul_comm, mul-le-mul_left, mul-le-mul_right, suc-mul}
use peanuts.Base.{ℕ, suc, ◌+◌, ◌-◌, ◌*◌, ◌/◌, ◌%◌, ◌^◌, ◌≤◌, ◌<◌, ◌≡◌, arith, two64, mul64}
use peanuts.Power.Rounding.{round_down_pow2_lem}
use peanuts.Topology.{Topology}
use peanuts.Rpm.{Rpm, make, block_disp, pmem_alignment}

-- Blocks of one size, one behind the other.
apart :
    (b n i j limit : ℕ)
    → i < j
    → j < n
    → limit < two64
    → n * b ≤ limit
    → (mul64 i b + b ≤ mul64 j b) × (mul64 j b + b ≤ mul64 b n) × (mul64 b n ≤ limit)
apart b n i j limit l m w h =
    let x : suc i * b ≤ j * b = mul-le-mul_right b l in
    let y : suc j * b ≤ n * b = mul-le-mul_right b m in
    let c = mul_comm b n in
    let p : suc i * b ≡ i * b + b = suc-mul i b in
    let q : suc j * b ≡ j * b + b = suc-mul j b in omega arith

module _ (topo : Topology) (map_size : ℕ) (some_process : 0 < topo.intra_size)
    (mapped : map_size < two64) where
  abbrev share : ℕ
  share = map_size / topo.intra_size

  share-le : topo.intra_size * share ≤ map_size
  share-le = omega (arith, mod-add-div map_size topo.intra_size)

  share-word : share < two64
  share-word = grind (arith, share-le)

  abbrev rpm : Rpm
  rpm = make topo map_size

  block_size-eq : rpm.block_size ≡ share - share % 2 ^ 21
  unfolding make
  block_size-eq = round_down_pow2_lem share 21 share-word (omega arith)

  blocks-le : topo.intra_size * rpm.block_size ≤ map_size
  blocks-le =
      let b : rpm.block_size ≤ share = omega (arith, block_size-eq, mod-le share (2 ^ 21)) in
      omega (arith, mul-le-mul_left topo.intra_size b, share-le)

  displacements :
      (i j : ℕ)
      → i < j
      → j < topo.intra_size
      → (block_disp rpm i + rpm.block_size ≤ block_disp rpm j)
        × (block_disp rpm j + rpm.block_size ≤ rpm.aligned_size)
        × (rpm.aligned_size ≤ map_size)
  unfolding make block_disp
  displacements i j l m = apart rpm.block_size topo.intra_size i j map_size l m mapped blocks-le

  -- For a mapping of a 64-bit size and a node with processes, the blocks of two of them do not
  -- overlap and lie in the mapping, without a wrap around, and the size of a block is a multiple of
  -- the alignment.
  pub blocks_apart :
      (i j : ℕ)
      → i < j
      → j < topo.intra_size
      → (block_disp rpm i + rpm.block_size ≤ block_disp rpm j)
        × (block_disp rpm j + rpm.block_size ≤ rpm.aligned_size)
        × (rpm.aligned_size ≤ map_size)
        × (rpm.block_size % pmem_alignment ≡ 0)
  blocks_apart i j l m =
      let a = displacements i j l m in
      (a.0, a.1, a.2, omega (arith, block_size-eq, mod-add-div share (2 ^ 21)))
