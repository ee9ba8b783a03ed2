-- ===== src/Power/Rounding.antt =====
-- Rounding down to a multiple of a power of two.
use Prim.Native.Nat.{bit_and, bit_and-bitwise, digits}
use native.Mathlib.Omega.{pow_step}
use native.Mathlib.Nat.{mod-lt, mod-add-div, mod-eq_of_lt, add-mul-mod_self_left, mul_assoc}
use peanuts.Base.{
  ℕ, zero, suc, ◌+◌, ◌-◌, ◌*◌, ◌/◌, ◌%◌, ◌^◌, ◌≤◌, ◌<◌, ◌≡◌, ◌∙◌, refl, ap, min, arith, two64,
  sub64,
}
use peanuts.Power.{round_down_pow2, bit_not}

-- The digits that `bit_and` computes, with more fuel than there are digits.
abbrev masked : ℕ → ℕ → ℕ → ℕ
masked fuel a b = digits (λ b. zero) min fuel a b

masked-fuel : (m n a b : ℕ) → a ≤ m → a ≤ n → masked m a b ≡ masked n a b
masked-fuel zero zero zero b p q = refl
masked-fuel zero (suc n) zero b p q = refl
masked-fuel (suc m) zero zero b p q = refl
masked-fuel (suc m) (suc n) zero b p q = refl
masked-fuel zero n (suc a) b p q = absurd (omega arith)
masked-fuel (suc m) zero (suc a) b p q = absurd (omega arith)
masked-fuel (suc m) (suc n) (suc a) b p q =
    omega (arith, masked-fuel m n (suc a / 2) (b / 2) (omega arith) (omega arith))

-- `bit_and` by the lowest digit.
bit_and-step : (a b : ℕ) → bit_and a b ≡ 2 * bit_and (a / 2) (b / 2) + min (a % 2) (b % 2)
bit_and-step zero b = omega (arith, bit_and-bitwise 0 b, bit_and-bitwise 0 (b / 2))
bit_and-step (suc a) b = omega (
  arith,
  bit_and-bitwise (suc a) b,
  bit_and-bitwise (suc a / 2) (b / 2),
  masked-fuel a (suc a / 2) (suc a / 2) (b / 2) (omega arith) (omega arith),
)

pow2-pos : (n : ℕ) → 0 < 2 ^ n
pow2-pos zero = omega arith
pow2-pos (suc n) = omega (arith, pow_step 2 n, pow2-pos n)

bit_and-ones : (w x : ℕ) → x < 2 ^ w → bit_and x (2 ^ w - 1) ≡ x
bit_and-ones zero x h = let e : x ≡ 0 = omega arith in rw e refl
bit_and-ones (suc w) x h =
    let p = pow_step 2 w in
    let q = pow2-pos w in
    let half : (2 ^ suc w - 1) / 2 ≡ 2 ^ w - 1 = omega arith in
    let i = bit_and-ones w (x / 2) (omega arith) in
    let m : bit_and (x / 2) ((2 ^ suc w - 1) / 2) ≡ x / 2 = ap (bit_and (x / 2)) half ∙ i in
    omega (arith, bit_and-step x (2 ^ suc w - 1), m, pow2-pos w)

mod-double : (x p : ℕ) → 0 < p → x % (2 * p) ≡ 2 * (x / 2 % p) + x % 2
mod-double x p h =
    let y = x / 2 in
    let r : y % p < p = mod-lt y h in
    let d = mod-add-div y p in
    let e : x ≡ 2 * (y % p) + x % 2 + 2 * p * (y / p) = omega (arith, mul_assoc 2 p (y / p)) in
    ap (λ (k : ℕ). k % (2 * p)) e
    ∙ add-mul-mod_self_left (2 * (y % p) + x % 2) (2 * p) (y / p)
    ∙ mod-eq_of_lt (omega arith)

bit_and-high : (k w x : ℕ) → x < 2 ^ (k + w) → bit_and x (2 ^ (k + w) - 2 ^ k) ≡ x - x % 2 ^ k
bit_and-high zero w x h =
    let e : zero + w ≡ w = omega arith in rw e (bit_and-ones w x (rw e at h) ∙ omega arith)
bit_and-high (suc k) w x h =
    let e : 2 ^ (suc k + w) ≡ 2 * 2 ^ (k + w) =
      ap (λ (n : ℕ). 2 ^ n) (omega arith) ∙ pow_step 2 (k + w) in
    let d = pow_step 2 k in
    let r = mod-add-div (x / 2) (2 ^ k) in
    let half : (2 ^ (suc k + w) - 2 ^ suc k) / 2 ≡ 2 ^ (k + w) - 2 ^ k = omega arith in
    let i : bit_and (x / 2) ((2 ^ (suc k + w) - 2 ^ suc k) / 2) ≡ x / 2 - x / 2 % 2 ^ k =
      ap (bit_and (x / 2)) half ∙ bit_and-high k w (x / 2) (omega arith) in
    let m : x % 2 ^ suc k ≡ 2 * (x / 2 % 2 ^ k) + x % 2 =
      ap (λ (q : ℕ). x % q) d ∙ mod-double x (2 ^ k) (pow2-pos k) in
    omega (arith, bit_and-step x (2 ^ (suc k + w) - 2 ^ suc k), i, m, r)

pow2-le : (k w : ℕ) → 2 ^ k ≤ 2 ^ (k + w)
pow2-le zero w =
    let e : 2 ^ (zero + w) ≡ 2 ^ w = ap (λ (n : ℕ). 2 ^ n) (omega arith) in
    omega (arith, e, pow2-pos w)
pow2-le (suc k) w =
    let e : 2 ^ (suc k + w) ≡ 2 * 2 ^ (k + w) =
      ap (λ (n : ℕ). 2 ^ n) (omega arith) ∙ pow_step 2 (k + w) in
    omega (arith, e, pow_step 2 k, pow2-le k w)

-- For a 64-bit number and a power of two of 64 bits as the alignment, `round_down_pow2` gives the
-- largest multiple of the alignment that is not larger than the number.
pub round_down_pow2_lem : (x k : ℕ) → x < two64 → k < 64 → round_down_pow2 x (2 ^ k) ≡ x - x % 2 ^ k
unfolding round_down_pow2
round_down_pow2_lem x k h l =
    let w = 64 - k in
    let sum : k + w ≡ 64 = omega arith in
    let e : 2 ^ (k + w) ≡ two64 = ap (λ (n : ℕ). 2 ^ n) sum in
    let low = pow2-le k w in
    let pos = pow2-pos k in
    let mask : bit_not (sub64 (2 ^ k) 1) ≡ 2 ^ (k + w) - 2 ^ k = omega arith in
    ap (bit_and x) mask ∙ bit_and-high k w x (omega arith)
