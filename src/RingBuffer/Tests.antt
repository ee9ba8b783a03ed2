-- ===== src/RingBuffer/Tests.antt =====
-- Runs of the ring on a block of eight bytes, round its end.
use peanuts.Base.{ℕ, List, [], ◌∷◌, ◌≡◌, refl, arith, ◌+◌}
use peanuts.Pmem.{Memory}
use peanuts.RingTracker.{RingTracker}
use peanuts.RingBuffer.{pread, pwrite}
use peanuts.RingBuffer.Stream.{stream_read, stream_write}
use peanuts.RingBuffer.Transfer.{IsRange, pread-stream_read, pwrite-stream_write}
use peanuts.Pmem

abbrev tracker : RingTracker
tracker = record { ring_size = 8; head_lsn = 12; tail_lsn = 5 }

range : IsRange tracker 3
range = record { pos = omega arith; small = omega arith; fits = omega arith }

abbrev memory : Memory
memory i = i + 100

abbrev block_pread : ℕ → ℕ → ℕ → List ℕ × ℕ
block_pread calls n ofs = (Pmem.pread memory n (16 + ofs), calls + 1)

abbrev block_pwrite : Memory → List ℕ → ℕ → Memory
block_pwrite m buf ofs = Pmem.pwrite m buf (16 + ofs)

pread-stream_read_example : (pread block_pread tracker 0 3 6).0 ≡ 122 ∷ 123 ∷ 116 ∷ []
unfolding stream_read
pread-stream_read_example =
    pread-stream_read block_pread memory 16 (λ s n ofs. refl) tracker 0 3 6 range

pwrite-stream_write_example :
    pwrite block_pwrite tracker memory (1 ∷ 2 ∷ 3 ∷ []) 6
    ≡ stream_write 16 8 memory (1 ∷ 2 ∷ 3 ∷ []) 6
pwrite-stream_write_example =
    pwrite-stream_write block_pwrite (λ m. m) 16 (λ s buf ofs. refl) tracker memory (1 ∷ 2 ∷ 3 ∷ [])
      6 range
