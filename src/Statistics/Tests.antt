-- ===== src/Statistics/Tests.antt =====
-- The values of two threads, one of which has none; whole numbers stand for those of type `double`.
use peanuts.Base.{ℕ, ◌+◌, ◌-◌, ◌*◌, ◌/◌, ◌≡◌, ◌⊎◌, List, [], ◌∷◌, arith, refl}
use peanuts.Statistics.{Double, Welford, ok, err, mean_undefined, no_data, from_range, clear, add}
use peanuts.Statistics.Aggregates.{HasEmpty, AreFilled, from_range_lem}

abbrev whole : Double
whole = record {
  Float = ℕ;
  zero = 0;
  of_size = λ n. n;
  plus = λ a b. a + b;
  minus = λ a b. a - b;
  times = λ a b. a * b;
  divide = λ a b. a / b;
  sqrt = λ a. a;
}

abbrev threads : List (Welford whole)
threads = record { n = 2; mean = 5; m2 = 8 } ∷ record { n = 0; mean = 0; m2 = 0 } ∷ []

from_range_lem_example :
    ((threads ≡ []) × (from_range whole threads ≡ err no_data))
    ⊎ (HasEmpty whole threads × (from_range whole threads ≡ err mean_undefined))
    ⊎ (AreFilled whole threads
        × (w : Welford whole) × (from_range whole threads ≡ ok w)
        × (w.n ≡ 2))
from_range_lem_example = from_range_lem whole threads (omega arith)

-- 3, then 7
abbrev samples : Welford whole
unfolding add clear
samples = add whole 7 (add whole 3 (clear whole))

samples_lem : (samples.n ≡ 2) × (samples.mean ≡ 5)
unfolding add clear
samples_lem = (refl, refl)
