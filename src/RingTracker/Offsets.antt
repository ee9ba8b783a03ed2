-- ===== src/RingTracker/Offsets.antt =====
-- Offsets into the ring, and the two segments of a range that goes round its end.
use peanuts.Base.{ℕ, ◌+◌, ◌-◌, ◌%◌, ◌≤◌, ◌<◌, ◌≡◌, ◌≢◌, ◌∙◌, sym, ap, true, false, arith, ◌^◌}
use native.Mathlib.Nat.{mod-add-mod, mod-eq_of_lt, mod-eq-sub-mod, mod_self, mod-lt}
use native.Mathlib.Decide.{dec_lt}
use peanuts.RingTracker.{RingTracker, to_ofs, first_segment_size, is_wrapping}

pub mod-forward : (l k r : ℕ) → l % r + k < r → (l + k) % r ≡ l % r + k
mod-forward l k r h = sym (mod-add-mod l r k) ∙ mod-eq_of_lt h

pub mod-round : (l k r : ℕ) → l % r + k ≡ r → (l + k) % r ≡ 0
mod-round l k r h = sym (mod-add-mod l r k) ∙ ap (λ (x : ℕ). x % r) h ∙ mod_self r

mod-behind : (l k r : ℕ) → r ≤ l % r + k → l % r + k < r + r → (l + k) % r ≡ l % r + k - r
mod-behind l k r h g =
    sym (mod-add-mod l r k) ∙ mod-eq-sub-mod {n = l % r + k} {m = r} h ∙ mod-eq_of_lt (omega arith)

-- Two numbers less than a ring apart have different offsets.
pub mod-ne : (l k r : ℕ) → 0 < k → k < r → (l + k) % r ≢ l % r
mod-ne l k r h g = elim (dec_lt (l % r + k) r) [
  | yes p ↦ omega (arith, mod-forward l k r p)
  | no p ↦ omega (
    arith,
    mod-lt l {m = r} (omega arith),
    mod-behind l k r (omega arith) (omega (arith, mod-lt l {m = r} (omega arith))),
  )
]

pub mod-distinct : (a b r : ℕ) → a < b → b < a + r → b % r ≢ a % r
mod-distinct a b r h g e =
    mod-ne a (b - a) r (omega arith) (omega arith) (ap (λ (x : ℕ). x % r) (omega arith) ∙ e)

module _ (t : RingTracker) (lsn size : ℕ) (pos : 0 < t.ring_size) (small : t.ring_size < 2 ^ 63)
    (fits : size ≤ t.ring_size) where
  -- For a range no longer than a ring of fewer than 2^63 bytes, the first segment is a part of the
  -- range that ends within the ring; it is all of the range unless this is wrapping, and then it
  -- ends where the ring does.
  pub first_segment_size_lem :
      (first_segment_size t lsn size ≤ size)
      × (to_ofs lsn t.ring_size + first_segment_size t lsn size ≤ t.ring_size)
      × (is_wrapping t lsn size ≡ false → first_segment_size t lsn size ≡ size)
      × (is_wrapping t lsn size ≡ true
          → to_ofs lsn t.ring_size + first_segment_size t lsn size ≡ t.ring_size)
  unfolding first_segment_size is_wrapping
  first_segment_size_lem =
      let m : lsn % t.ring_size < t.ring_size = mod-lt lsn pos in
      (ground arith, ground arith, ground arith, ground arith)
