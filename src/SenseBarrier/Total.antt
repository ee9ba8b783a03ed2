-- ===== src/SenseBarrier/Total.antt =====
-- The sum of a number for each of the first threads.
use peanuts.Base.{ℕ, zero, suc, ◌+◌, ◌≤◌, ◌<◌, ◌≡◌, ◌≢◌, refl, arith}
use native.Mathlib.Decide.{dec_lt}

unfoldable pub total : ℕ → (ℕ → ℕ) → ℕ
total zero f = 0
total (suc n) f = total n f + f n

total-same : (n : ℕ) (f g : ℕ → ℕ) → ((j : ℕ) → j < n → g j ≡ f j) → total n g ≡ total n f
unfolding total
total-same zero f g h = refl
total-same (suc n) f g h =
    omega (arith, total-same n f g (λ j l. h j (omega arith)), h n (omega arith))

-- One number of the sum changes.
pub total-change :
    (n : ℕ) (f g : ℕ → ℕ) (i : ℕ)
    → i < n
    → ((j : ℕ) → j ≢ i → g j ≡ f j)
    → total n g + f i ≡ total n f + g i
unfolding total
total-change zero f g i l h = absurd (omega arith)
total-change (suc n) f g i l h = elim (dec_lt i n) [
  | yes below ↦ omega (arith, total-change n f g i below h, h n (omega arith))
  | no top ↦
      let e : i ≡ n = omega arith in
      rw e (omega (arith, total-same n f g (λ j b. h j (omega arith))))
]

pub le-total : (n : ℕ) (f : ℕ → ℕ) (i : ℕ) → i < n → f i ≤ total n f
unfolding total
le-total zero f i l = absurd (omega arith)
le-total (suc n) f i l = elim (dec_lt i n) [
  | yes below ↦ omega (arith, le-total n f i below)
  | no top ↦ (let e : i ≡ n = omega arith in rw e (omega arith))
]

add-le-total : (n : ℕ) (f : ℕ → ℕ) (i j : ℕ) → i < n → j < n → i ≢ j → f i + f j ≤ total n f
unfolding total
add-le-total zero f i j l m d = absurd (omega arith)
add-le-total (suc n) f i j l m d = elim (dec_lt i n) [
  | no a ↦ (let e : i ≡ n = omega arith in rw e (omega (arith, le-total n f j (omega arith))))
  | yes a ↦ elim (dec_lt j n) [
    | yes b ↦ omega (arith, add-le-total n f i j a b d)
    | no b ↦ (let e : j ≡ n = omega arith in rw e (omega (arith, le-total n f i a)))
  ]
]

-- Where one number makes up the sum, the others are 0.
pub total-single : (n : ℕ) (f : ℕ → ℕ) (i j : ℕ) → i < n → j < n → i ≢ j → total n f ≡ f i → f j ≡ 0
total-single n f i j l m d e = omega (arith, add-le-total n f i j l m d)

pub total-ones : (n : ℕ) (f : ℕ → ℕ) → ((j : ℕ) → j < n → f j ≡ 1) → total n f ≡ n
unfolding total
total-ones zero f h = refl
total-ones (suc n) f h = omega (arith, total-ones n f (λ j l. h j (omega arith)), h n (omega arith))

-- A sum that is not 0 has a number that is not 0.
pub total-pos : (n : ℕ) (f : ℕ → ℕ) → 0 < total n f → (i : ℕ) × (i < n) × (0 < f i)
unfolding total
total-pos zero f h = absurd (omega arith)
total-pos (suc n) f h = elim (dec_lt 0 (f n)) [
  | yes p ↦ (n, omega arith, p)
  | no z ↦ (let (i, l, p) = total-pos n f (omega arith) in (i, omega arith, p))
]
