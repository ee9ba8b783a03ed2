-- ===== src/CInterface/Tests.antt =====
-- Runs of the C functions.
use peanuts.Base.{ℕ, ◌<◌, ◌≡◌, arith, some, [], get_elem?, length, none}
use peanuts.Pmem.{Memory}
use peanuts.Store.{Bb, find_bb}
use peanuts.Store.Tests.{store, store-AreReady, opened, written, written-ok, two_bytes}
use peanuts.CInterface.{value, peanuts_bb_pwrite, peanuts_bb_pread}
use peanuts.CInterface.Calls.{peanuts_bb_pwrite-value, peanuts_bb_pread-peanuts_bb_pwrite}

written-value : peanuts_bb_pwrite store opened two_bytes 1 ≡ (value 2, written)
written-value = peanuts_bb_pwrite-value store written opened two_bytes 1 2 written-ok

peanuts_bb_pread-peanuts_bb_pwrite_example :
    (b : Bb) × (find_bb 0 written.bbs ≡ some b)
    × (new : Memory) × ((peanuts_bb_pread
          (λ r acc n ofs. ([], acc))
          (λ n ofs. none)
          written
          opened
          b
          (λ i. 0)
          2
          1).0
        ≡ some (value 2, new))
    × ((i : ℕ) → i < length two_bytes → get_elem? two_bytes i ≡ some (new i))
peanuts_bb_pread-peanuts_bb_pwrite_example =
    peanuts_bb_pread-peanuts_bb_pwrite (λ r acc n ofs. ([], acc)) (λ n ofs. none) store written
      opened two_bytes 1 2 (λ i. 0) (omega arith) (omega arith) store-AreReady written-value
