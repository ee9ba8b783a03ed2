-- ===== src/Pmem/Laws.antt =====
-- Reads behind writes.
use peanuts.Base.{
  ℕ, zero, suc, ◌+◌, ◌≤◌, ◌<◌, ◌≡◌, ◌∙◌, refl, ap, ap₂, List, [], ◌∷◌, length, arith, ◌⊎◌,
}
use peanuts.Pmem.{Memory, store, pread, pwrite}

-- A write leaves alone what lies before and behind it.
pub pwrite-outside :
    (m : Memory) (buf : List ℕ) (ofs i : ℕ)
    → (i < ofs) ⊎ (ofs + length buf ≤ i)
    → pwrite m buf ofs i ≡ m i
unfolding pwrite
pwrite-outside m [] ofs i h = refl
pwrite-outside m (b ∷ buf) ofs i h =
    pwrite-outside (store m ofs b) buf (ofs + 1) i (omega arith) ∙ ground arith

-- Bytes written to a mapping are read back from the same offset.
pub pread-pwrite :
    (m : Memory) (buf : List ℕ) (ofs : ℕ) → pread (pwrite m buf ofs) (length buf) ofs ≡ buf
unfolding pread pwrite
pread-pwrite m [] ofs = refl
pread-pwrite m (b ∷ buf) ofs =
    ap₂ ◌∷◌ (pwrite-outside (store m ofs b) buf (ofs + 1) ofs (omega arith) ∙ ground arith)
      (pread-pwrite (store m ofs b) buf (ofs + 1))

pub length-pread : (m : Memory) (n ofs : ℕ) → length (pread m n ofs) ≡ n
unfolding pread
length-pread m zero ofs = refl
length-pread m (suc n) ofs = ap suc (length-pread m n (ofs + 1))
