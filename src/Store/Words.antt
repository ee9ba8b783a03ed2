-- ===== src/Store/Words.antt =====
-- Words and metadata as bytes, and back.
use native.Mathlib.Omega.{pow_step}
use peanuts.Base.{ℕ, zero, suc, ◌≡◌, ◌<◌, refl, List, [], ◌∷◌, ◌++◌, length, take, drop, arith}
use peanuts.Base.{IsU64, ap, ◌^◌, ◌/◌}
use peanuts.Store.{BlockMetadata, metadata_size}
use peanuts.Store.Persistence.{bytes_of, word_of, word_at, metadata_bytes, metadata_of}

pub length-bytes_of : (n w : ℕ) → length (bytes_of n w) ≡ n
unfolding bytes_of
length-bytes_of zero w = refl
length-bytes_of (suc n) w = ap suc (length-bytes_of n (w / 256))

word_of-bytes_of : (n w : ℕ) → w < 256 ^ n → word_of (bytes_of n w) ≡ w
unfolding bytes_of word_of
word_of-bytes_of zero w h = omega arith
word_of-bytes_of (suc n) w h =
    let i = word_of-bytes_of n (w / 256) (omega (arith, pow_step 256 n)) in omega (arith, i)

pub word_of-word : (w : ℕ) → IsU64 w → word_of (bytes_of 8 w) ≡ w
word_of-word w h = word_of-bytes_of 8 w (omega arith)

pub take-length-append {ℓ} : {A : Type ℓ} → (xs ys : List A) → take (length xs) (xs ++ ys) ≡ xs
take-length-append [] ys = refl
take-length-append (x ∷ xs) ys = ap (◌∷◌ x) (take-length-append xs ys)

pub drop-length-append {ℓ} : {A : Type ℓ} → (xs ys : List A) → drop (length xs) (xs ++ ys) ≡ ys
drop-length-append [] ys = refl
drop-length-append (x ∷ xs) ys = drop-length-append xs ys

-- All words of some metadata.
abbrev pub AreWords : BlockMetadata → Type 0
AreWords m =
    IsU64 m.tracker.ring_size
    × IsU64 m.tracker.head_lsn
    × IsU64 m.tracker.tail_lsn
    × IsU64 m.snapshot_lsn
    × IsU64 m.snapshot_size

-- Metadata are read back as they were written.
pub metadata_of-metadata_bytes :
    (m : BlockMetadata) → AreWords m → metadata_of (metadata_bytes m) ≡ m
unfolding metadata_of metadata_bytes bytes_of word_at word_of
metadata_of-metadata_bytes m h = λ i. record {
  tracker = record {
    ring_size = word_of-word m.tracker.ring_size h.0 i;
    head_lsn = word_of-word m.tracker.head_lsn h.1 i;
    tail_lsn = word_of-word m.tracker.tail_lsn h.2 i;
  };
  snapshot_lsn = word_of-word m.snapshot_lsn h.3 i;
  snapshot_size = word_of-word m.snapshot_size h.4 i;
}

pub length-metadata_bytes : (m : BlockMetadata) → length (metadata_bytes m) ≡ metadata_size
unfolding metadata_bytes bytes_of
length-metadata_bytes m = refl
