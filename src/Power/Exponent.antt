-- ===== src/Power/Exponent.antt =====
-- `power` against the exponentiation of numbers.
use peanuts.Base.{ℕ, zero, suc, ◌≡◌, arith, ◌^◌, ◌%◌, ◌*◌, ◌/◌, ◌+◌, ap, ◌∙◌, sym, mul64, ◌<◌}
use peanuts.Base.{two64, Bool-cases, ◌==◌, inl, inr}
use native.Mathlib.Omega.{pow_step}
use native.Mathlib.Nat.{mod-add-div, add-mul, add-mul-mod_self_left, mul_comm, pow-zero}
use native.Mathlib.Nat.{mod-eq_of_lt, mul_assoc}
use peanuts.Power.{power_fuel, power}

pow-add : (b m n : ℕ) → b ^ (m + n) ≡ b ^ m * b ^ n
pow-add b zero n =
    let e : zero + n ≡ n = omega arith in
    let f : b ^ n ≡ 1 * b ^ n = omega arith in
    ap (λ (x : ℕ). b ^ x) e ∙ f ∙ ap (λ (x : ℕ). x * b ^ n) (sym (pow-zero b))
pow-add b (suc m) n =
    let e : suc m + n ≡ suc (m + n) = omega arith in
    rw e (pow_step b (m + n))
    ∙ ap (λ (x : ℕ). b * x) (pow-add b m n)
    ∙ sym (mul_assoc b (b ^ m) (b ^ n))
    ∙ ap (λ (x : ℕ). x * b ^ n) (sym (pow_step b m))

pow_one : (b : ℕ) → b ^ 1 ≡ b
pow_one b = let e : b * 1 ≡ b = omega arith in pow_step b 0 ∙ ap (λ (x : ℕ). b * x) (pow-zero b) ∙ e

-- Half of the exponent, twice.
pow-half : (b e : ℕ) → e % 2 ≡ 0 → b ^ e ≡ b ^ (e / 2) * b ^ (e / 2)
pow-half b e h = ap (λ (x : ℕ). b ^ x) (omega arith) ∙ pow-add b (e / 2) (e / 2)

pow-half_odd : (b e : ℕ) → e % 2 ≡ 1 → b ^ e ≡ b * b ^ (e / 2) * b ^ (e / 2)
pow-half_odd b e h =
    let d : e ≡ suc (e / 2 + e / 2) = omega arith in
    ap (λ (x : ℕ). b ^ x) d
    ∙ pow_step b (e / 2 + e / 2)
    ∙ ap (λ (x : ℕ). b * x) (pow-add b (e / 2) (e / 2))
    ∙ sym (mul_assoc b (b ^ (e / 2)) (b ^ (e / 2)))

mod-mul_left : (a b m : ℕ) → a % m * b % m ≡ a * b % m
mod-mul_left a b m =
    let e : a * b ≡ a % m * b + m * (a / m * b) =
      ap (λ (x : ℕ). x * b) (sym (mod-add-div a m))
      ∙ add-mul (a % m) (m * (a / m)) b
      ∙ ap (λ (x : ℕ). a % m * b + x) (mul_assoc m (a / m) b) in
    sym (ap (λ (x : ℕ). x % m) e ∙ add-mul-mod_self_left (a % m * b) m (a / m * b))

mul64-mod : (a b : ℕ) → mul64 (a % two64) (b % two64) ≡ a * b % two64
mul64-mod a b =
    mod-mul_left a (b % two64) two64
    ∙ ap (λ (x : ℕ). x % two64) (mul_comm a (b % two64))
    ∙ mod-mul_left b a two64
    ∙ ap (λ (x : ℕ). x % two64) (mul_comm b a)

power_fuel-pow : (fuel b e : ℕ) → b < two64 → e < 2 ^ fuel → power_fuel fuel b e ≡ b ^ e % two64
unfolding power_fuel
power_fuel-pow zero b e h l =
    let z : e ≡ 0 = omega arith in rw z (sym (ap (λ (x : ℕ). x % two64) (pow-zero b)))
power_fuel-pow (suc fuel) b e h l =
    let m : e / 2 < 2 ^ fuel = omega (arith, pow_step 2 fuel) in
    let i = power_fuel-pow fuel b (e / 2) h m in
    elim (Bool-cases (e == 0)) [
      | inl z ↦
          let e0 : e ≡ 0 = ground arith in
          rw z (rw e0 (sym (ap (λ (x : ℕ). x % two64) (pow-zero b))))
      | inr z ↦ elim (Bool-cases (e == 1)) [
        | inl o ↦
            let e1 : e ≡ 1 = ground arith in
            rw (z, o) (rw e1 (sym (mod-eq_of_lt h) ∙ ap (λ (x : ℕ). x % two64) (sym (pow_one b))))
        | inr o ↦ elim (Bool-cases (e % 2 == 0)) [
          | inl t ↦
              rw (z, o, t, i)
                (mul64-mod (b ^ (e / 2)) (b ^ (e / 2))
                  ∙ ap (λ (x : ℕ). x % two64) (sym (pow-half b e (ground arith))))
          | inr t ↦ rw (z, o, t, i) (odd b e h (ground arith))
        ]
      ]
    ]
  where
    odd :
        (c n : ℕ)
        → c < two64
        → n % 2 ≡ 1
        → mul64 (mul64 c (c ^ (n / 2) % two64)) (c ^ (n / 2) % two64) ≡ c ^ n % two64
    odd c n k t =
        let x = c ^ (n / 2) in
        let f : mul64 c (x % two64) ≡ c * x % two64 =
          ap (λ (y : ℕ). mul64 y (x % two64)) (sym (mod-eq_of_lt k)) ∙ mul64-mod c x in
        rw f (mul64-mod (c * x) x ∙ ap (λ (y : ℕ). y % two64) (sym (pow-half_odd c n t)))

-- For a 64-bit base and a 32-bit exponent, `power` gives the power as a 64-bit number.
pub power_lem : (b e : ℕ) → b < two64 → e < 2 ^ 32 → power b e ≡ b ^ e % two64
unfolding power
power_lem b e h l = power_fuel-pow 64 b e h (omega arith)
