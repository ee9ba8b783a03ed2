-- ===== src/Pmem.antt =====
-- `pmem2::file_operations` of projects/peanuts/include/peanuts/pmem2.hpp: reads and writes in a
-- mapping. A memory gives the byte at each offset from the start of the mapping; the flags of a
-- write tell how it reaches the medium and not what is written.
pub mod Laws
use peanuts.Base.{ℕ, zero, suc, ◌+◌, List, [], ◌∷◌, ◌==◌, if◌then◌else◌}

abbrev pub Memory : Type 0
Memory = ℕ → ℕ

abbrev pub store : Memory → ℕ → ℕ → Memory
store m a b i = if i == a then b else m i

-- `std::memcpy` out of the mapping, and into it.
unfoldable pub pread : Memory → ℕ → ℕ → List ℕ
pread m zero ofs = []
pread m (suc count) ofs = m ofs ∷ pread m count (ofs + 1)

unfoldable pub pwrite : Memory → List ℕ → ℕ → Memory
pwrite m [] ofs = m
pwrite m (b ∷ buf) ofs = pwrite (store m ofs b) buf (ofs + 1)
