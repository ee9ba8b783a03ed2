-- ===== src/HumanReadable.antt =====
-- `from_human` of projects/peanuts/include/peanuts/utils/human_readable.hpp, for `uint64_t`. The
-- string is the list of its characters, and `std::from_chars` a parameter.
pub mod Units
use peanuts.Base.{ℕ, ◌/◌, ◌==◌, List, [], ◌∷◌, Option, some, none, mul64, if◌then◌else◌}
use peanuts.Power.{power}

-- What `std::from_chars` gives: no number at all, one too large for the type, or a number; in the
-- last two cases with the characters behind it.
pub data Parsed : Type 0 where
  invalid_argument : Parsed
  out_of_range : List ℕ → Parsed
  parsed : ℕ → List ℕ → Parsed

-- The number, the two exceptions, or undefined behaviour.
pub data Human : Type 0 where
  number : ℕ → Human
  invalid_number : Human
  unknown_unit : Human
  undefined : Human

-- `from_unit`: what to multiply with, and what to divide by.
unfoldable pub from_unit : ℕ → ℕ → Option (ℕ × ℕ)
unfolding power
from_unit base c =
    if c == 121
    then some (1, power base 8)  -- y
    else if c == 122
    then some (1, power base 7)  -- z
    else if c == 97
    then some (1, power base 6)  -- a
    else if c == 102
    then some (1, power base 5)  -- f
    else if c == 112
    then some (1, power base 4)  -- p
    else if c == 110
    then some (1, power base 3)  -- n
    else if c == 117
    then some (1, power base 2)  -- u
    else if c == 109
    then some (1, power base 1)  -- m
    else if c == 75
    then some (power base 1, 1)  -- K
    else if c == 107
    then some (power base 1, 1)  -- k
    else if c == 77
    then some (power base 2, 1)  -- M
    else if c == 71
    then some (power base 3, 1)  -- G
    else if c == 84
    then some (power base 4, 1)  -- T
    else if c == 80
    then some (power base 5, 1)  -- P
    else if c == 69
    then some (power base 6, 1)  -- E
    else none

unfoldable pub scale : ℕ → Option (ℕ × ℕ) → Human
scale value none = unknown_unit
scale value (some (m, d)) = if d == 0 then undefined else number (mul64 value m / d)

-- A number that is too large leaves `value` without a value.
unfoldable pub from_human : ℕ → (List ℕ → Parsed) → List ℕ → Human
unfolding from_unit scale
from_human base from_chars sv = elim (from_chars sv) [
  | invalid_argument ↦ invalid_number
  | out_of_range rest ↦ undefined
  | parsed value rest ↦ elim rest [ [] ↦ number value | c ∷ cs ↦ scale value (from_unit base c) ]
]
