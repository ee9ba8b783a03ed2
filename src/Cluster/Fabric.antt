-- ===== src/Cluster/Fabric.antt =====
-- Reads of the rings of other processes, through the mapping of the own node or the window of MPI.
use peanuts.Base.{
  ℕ, ◌+◌, ◌^◌, ◌≤◌, ◌<◌, ◌≡◌, ◌∙◌, ap, sym, true, false, List, ◌∷◌, zero, suc, refl, Bool-cases,
  inl, inr, ap₂,
}
use peanuts.Pmem.{Memory}
use peanuts.Rpm.{Accessed, RankInfo, note_access}
use peanuts.RingTracker.{RingTracker}
use peanuts.RingBuffer.Stream.{stream_read, address}
use peanuts.RingBuffer.Transfer.{pread-stream_read}
use peanuts.Store.{remote_pread}
use peanuts.BbRead.RemotePart.{bytes_from}
use peanuts.Cluster.{Cluster, rring_pread}
use peanuts.Cluster.Consistent.{ring_byte}
use peanuts.Pmem
use peanuts.Rpm
use peanuts.RingTracker

-- The entries of the process `q` for the ranks tell where their blocks are. Those that it calls
-- local are on its node, and for the others the window gives the bytes of the mapping of their node.
pub record IsFabric (c : Cluster) (q : ℕ) (win_get : ℕ → ℕ → ℕ → List ℕ) (info : ℕ → RankInfo)
    : Type 0 where
  pub disp : (r : ℕ) → r < c.size → (info r).disp ≡ c.disp r
  pub same_node : (r : ℕ) → r < c.size → (info r).local ≡ true → c.node r ≡ c.node q
  pub window :
      (r n ofs : ℕ)
      → r < c.size
      → (info r).local ≡ false
      → win_get (info r).target n ofs ≡ Pmem.pread (c.memory (c.node r)) n ofs

stream_read-bytes_from :
    (base ring : ℕ) (m : Memory) (n lsn : ℕ)
    → stream_read base ring m n lsn ≡ bytes_from (λ a. m (address base ring a)) n lsn
unfolding stream_read
stream_read-bytes_from base ring m zero lsn = refl
stream_read-bytes_from base ring m (suc n) lsn =
    ap (◌∷◌ (m (address base ring lsn))) (stream_read-bytes_from base ring m n (lsn + 1))

module _ (c : Cluster) (q : ℕ) (win_get : ℕ → ℕ → ℕ → List ℕ) (info : ℕ → RankInfo)
    (fabric : IsFabric c q win_get info) where
  -- A read of a block, wherever it is.
  block-pread :
      (r : ℕ) (acc : Accessed) (n ofs : ℕ)
      → r < c.size
      → (Rpm.pread_noflush win_get (c.memory (c.node q)) (info r) acc n ofs).0
        ≡ Pmem.pread (c.memory (c.node r)) n (c.disp r + ofs)
  unfolding Rpm.pread_noflush
  block-pread r acc n ofs l = elim (Bool-cases (info r).local) [
    | inl t ↦ rw t (
        ap₂ (λ (k d : ℕ). Pmem.pread (c.memory k) n (d + ofs)) (sym (fabric.same_node r l t))
          (fabric.disp r l))
    | inr f ↦ rw f (
        fabric.window r n ((info r).disp + ofs) l f
        ∙ ap (λ (d : ℕ). Pmem.pread (c.memory (c.node r)) n (d + ofs)) (fabric.disp r l))
  ]

  -- A read of a remote ring of no more bytes than the ring has gives the bytes of the ring.
  pub rring_pread-bytes_from :
      (r : ℕ) (acc : Accessed) (n lsn : ℕ)
      → r < c.size
      → 0 < c.ring_size
      → c.ring_size < 2 ^ 63
      → n ≤ c.ring_size
      → (rring_pread win_get info c q r acc n lsn).0 ≡ bytes_from (ring_byte c r) n lsn
  unfolding rring_pread remote_pread RingTracker.make
  rring_pread-bytes_from r acc n lsn l pos small fits =
      let t = RingTracker.make c.ring_size in
      pread-stream_read (λ a k o. Rpm.pread_noflush win_get (c.memory (c.node q)) (info r) a k o)
        (c.memory (c.node r)) (c.disp r) (λ a k o. block-pread r a k o l) t acc n lsn
        (record { pos = pos; small = small; fits = fits })
      ∙ stream_read-bytes_from (c.disp r) c.ring_size (c.memory (c.node r)) n lsn
