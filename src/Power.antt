-- ===== src/Power.antt =====
-- projects/peanuts/include/peanuts/utils/power.hpp: powers of two, on 64-bit words.
pub mod Exponent
pub mod Rounding
use Prim.Native.Nat.{bit_and, bit_or}
use peanuts.Base.{
  ℕ, zero, suc, ◌-◌, ◌/◌, ◌%◌, ◌^◌, Bool, ◌==◌, if◌then◌else◌, add64, sub64, mul64, two64,
}

-- `power<base, exp>`: the recursion is on `exp / 2`, and 64 levels are enough for an `unsigned int`.
unfoldable pub power_fuel : ℕ → ℕ → ℕ → ℕ
power_fuel zero base e = 1
power_fuel (suc fuel) base e =
    let tmp = power_fuel fuel base (e / 2) in
    if e == 0
    then 1
    else if e == 1
    then base
    else if e % 2 == 0
    then mul64 tmp tmp
    else mul64 (mul64 base tmp) tmp

unfoldable pub power : ℕ → ℕ → ℕ
unfolding power_fuel
power base e = power_fuel 64 base e

-- `~x`
abbrev pub bit_not : ℕ → ℕ
bit_not x = two64 - 1 - x

abbrev or_shifted : ℕ → ℕ → ℕ
or_shifted x k = bit_or x (x / 2 ^ k)

unfoldable pub next_pow2 : ℕ → ℕ
next_pow2 x =
    let a = or_shifted (sub64 x 1) 1 in
    let b = or_shifted a 2 in
    let c = or_shifted b 4 in
    let d = or_shifted c 8 in let e = or_shifted d 16 in let f = or_shifted e 32 in add64 f 1

unfoldable pub is_pow2 : ℕ → Bool
is_pow2 x = bit_and x (sub64 x 1) == 0

unfoldable pub round_down_pow2 : ℕ → ℕ → ℕ
round_down_pow2 x alignment = bit_and x (bit_not (sub64 alignment 1))

unfoldable pub round_up_pow2 : ℕ → ℕ → ℕ
round_up_pow2 x alignment = bit_and (sub64 (add64 x alignment) 1) (bit_not (sub64 alignment 1))
