-- ===== src/BbRead/Tests.antt =====
-- Runs of reads.
use peanuts.Base.{ℕ, List, [], ◌∷◌, ◌≡◌, arith, false, some, take, ◌<◌, get_elem?, drop, Option}
use peanuts.Base.{refl}
use peanuts.Pmem.{Memory}
use peanuts.Extent.{Extent}
use peanuts.Rpm.{Accessed}
use peanuts.BbHandler.Tests.{fresh, fresh-IsReady, data', written, written-ok}
use peanuts.BbRead.{done, undefined, file_loop, pread_noflush}
use peanuts.BbRead.ReadBack.{pread_noflush-pwrite}
use peanuts.BbRead.File.{file_loop-undefined, pread_noflush-no_trees}
use peanuts.Pmem
use peanuts.Extent

abbrev rring_pread : ℕ → Accessed → ℕ → ℕ → List ℕ × Accessed
rring_pread rank accessed count lsn = ([], accessed)

-- a file of three bytes
abbrev file_bytes : List ℕ
file_bytes = 5 ∷ 6 ∷ 7 ∷ []

abbrev file_pread : ℕ → ℕ → Option (List ℕ)
file_pread ofs count = some (take count (drop ofs file_bytes))

abbrev buffer : Memory
buffer i = 0

pread_noflush-pwrite_example :
    (buf' : Memory) × ((pread_noflush 64 written 10 2 rring_pread file_pread buffer).0
      ≡ done 2 buf')
    × ((i : ℕ) → i < 2 → get_elem? data' i ≡ some (buf' i))
pread_noflush-pwrite_example =
    pread_noflush-pwrite 0 64 10 2 fresh written data' buffer rring_pread file_pread fresh-IsReady
      (omega arith) (omega arith) written-ok

file_loop-undefined_example :
    file_loop 0 file_pread 8 (record { begin = 0; end = 6 } ∷ []) false buffer ≡ undefined
file_loop-undefined_example =
    file_loop-undefined 0 file_pread 8 (record { begin = 0; end = 6 }) [] buffer (take 6 file_bytes)
      (unfold Extent.size in refl) (omega arith) (omega arith) (omega arith) (omega arith)
      (omega arith) tt

pread_noflush-no_trees_example :
    (pread_noflush 64
      (record fresh { local_tree = []; global_tree = [] })
      0
      3
      rring_pread
      file_pread
      buffer).0
    ≡ done 0 (Pmem.pwrite buffer file_bytes 0)
pread_noflush-no_trees_example =
    pread_noflush-no_trees 64 fresh 0 3 (omega arith) (omega arith) rring_pread file_pread buffer
      file_bytes refl
