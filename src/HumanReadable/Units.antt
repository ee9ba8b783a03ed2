-- ===== src/HumanReadable/Units.antt =====
-- Numbers with a unit.
use peanuts.Base.{ℕ, ◌*◌, ◌^◌, ◌<◌, ◌≡◌, ◌∙◌, refl, ap, arith, two64, List, ◌∷◌, some}
use native.Mathlib.Nat.{mod-eq_of_lt}
use peanuts.Power.{power, power_fuel}
use peanuts.Power.Exponent.{power_lem}
use peanuts.HumanReadable.{Parsed, parsed, number, undefined, from_unit, scale, from_human}

-- The units that multiply, and their exponents.
pub data IsUnit : ℕ → ℕ → Type 0 where
  kilo : IsUnit 75 1
  small_kilo : IsUnit 107 1
  mega : IsUnit 77 2
  giga : IsUnit 71 3
  tera : IsUnit 84 4
  peta : IsUnit 80 5
  exa : IsUnit 69 6

from_unit-IsUnit : (base c k : ℕ) → IsUnit c k → from_unit base c ≡ some (power base k, 1)
unfolding from_unit
from_unit-IsUnit base _ _ kilo = refl
from_unit-IsUnit base _ _ small_kilo = refl
from_unit-IsUnit base _ _ mega = refl
from_unit-IsUnit base _ _ giga = refl
from_unit-IsUnit base _ _ tera = refl
from_unit-IsUnit base _ _ peta = refl
from_unit-IsUnit base _ _ exa = refl

IsUnit-small : (c k : ℕ) → IsUnit c k → k < 7
IsUnit-small _ _ kilo = omega arith
IsUnit-small _ _ small_kilo = omega arith
IsUnit-small _ _ mega = omega arith
IsUnit-small _ _ giga = omega arith
IsUnit-small _ _ tera = omega arith
IsUnit-small _ _ peta = omega arith
IsUnit-small _ _ exa = omega arith

scale-one : (v m : ℕ) → v * m < two64 → scale v (some (m, 1)) ≡ number (v * m)
unfolding scale
scale-one v m h = ap number (omega arith)

-- A number read in front of one of the units K, k, M, G, T, P and E gives the number times the base
-- to the power of the unit, where the base is below 2^32, and its power and the result are below
-- 2^64.
from_human-IsUnit :
    (from_chars : List ℕ → Parsed) (base : ℕ) (sv rest : List ℕ) (v c k : ℕ)
    → from_chars sv ≡ parsed v (c ∷ rest)
    → IsUnit c k
    → base < 2 ^ 32
    → base ^ k < two64
    → v * base ^ k < two64
    → from_human base from_chars sv ≡ number (v * base ^ k)
unfolding from_human
from_human-IsUnit from_chars base sv rest v c k e u b w h =
    let small = IsUnit-small c k u in
    let p : power base k ≡ base ^ k =
      power_lem base k (omega arith) (omega arith) ∙ mod-eq_of_lt w in
    rw (e, from_human)
      (ap (scale v) (from_unit-IsUnit base c k u)
        ∙ ap (λ (m : ℕ). scale v (some (m, 1))) p
        ∙ scale-one v (base ^ k) h)

-- The divisors of `y` and `z` do not fit 64 bits and come out as 0.
from_human-divides_by_zero :
    (from_chars : List ℕ → Parsed) (sv rest : List ℕ) (v : ℕ)
    → from_chars sv ≡ parsed v (121 ∷ rest)
    → from_human 1024 from_chars sv ≡ undefined
unfolding from_human scale from_unit power power_fuel
from_human-divides_by_zero from_chars sv rest v e = rw (e, from_human) refl
