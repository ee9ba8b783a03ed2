-- ===== src/BbRead/RemoteTests.antt =====
-- A read of the rings of two processes.
use peanuts.Base.{ℕ, List, [], ◌∷◌, ◌≡◌, refl, arith, ◌+◌, ◌-◌, ◌*◌, ◌<◌, ◌≤◌, Option, none}
use peanuts.Pmem.{Memory}
use peanuts.Rpm.{Accessed}
use peanuts.NodeSet.{make_node}
use peanuts.BbHandler.{Handler}
use peanuts.BbHandler.Write.{IsReady}
use peanuts.BbHandler.Tests.{fresh}
use peanuts.BbRead.{done, pread_noflush}
use peanuts.BbRead.RemotePart.{bytes_from}
use peanuts.BbRead.RemoteRead.{byte_at, pread_noflush-known}

-- The offsets 20 and 21 are in the local ring, 22 and 23 in the ring of rank 1.
abbrev shared : Handler
shared = record fresh {
  local_tree = make_node 20 22 1 0 ∷ [];
  global_tree = make_node 22 24 5 1 ∷ [];
  memory = λ i. i - 32;
}

shared-IsReady : IsReady shared
shared-IsReady = record {
  nodes = omega arith;
  pos = omega arith;
  small = omega arith;
  room = omega arith;
  tail-le = omega arith;
  head-le = omega arith;
  live = λ p c a e. ground arith;
}

abbrev remote : ℕ → ℕ → ℕ
remote rank a = 100 * rank + a

abbrev rring_pread : ℕ → Accessed → ℕ → ℕ → List ℕ × Accessed
rring_pread rank accessed count lsn = (bytes_from (remote rank) count lsn, accessed)

abbrev no_file : ℕ → ℕ → Option (List ℕ)
no_file ofs count = none

abbrev buffer : Memory
buffer i = 0

pread_noflush-known_example :
    (buf' : Memory) × ((pread_noflush 64 shared 20 4 rring_pread no_file buffer).0 ≡ done 4 buf')
    × ((i : ℕ) → i < 4 → buf' i ≡ byte_at 64 shared remote (20 + i) 0)
    × ((i : ℕ) → 4 ≤ i → buf' i ≡ 0)
pread_noflush-known_example =
    pread_noflush-known 64 shared 20 4 shared-IsReady (omega arith) (omega arith) (omega arith)
      (λ r. 4) (omega arith) rring_pread remote (λ r acc n lsn k l. refl) no_file buffer
      (λ q c. ground arith)
