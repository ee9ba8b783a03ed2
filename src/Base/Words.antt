-- ===== src/Base/Words.antt =====
-- `uint64_t` and `size_t`: natural numbers below 2 ^ 64, with the wrap-around written out.
use Prim.Native.Nat.{ℕ, ◌+◌, ◌-◌, ◌*◌, ◌%◌, ◌^◌, ◌<◌}

abbrev pub two64 : ℕ
two64 = 2 ^ 64

abbrev pub add64 : ℕ → ℕ → ℕ
add64 a b = (a + b) % two64

abbrev pub sub64 : ℕ → ℕ → ℕ
sub64 a b = (a + two64 - b) % two64

abbrev pub mul64 : ℕ → ℕ → ℕ
mul64 a b = a * b % two64

abbrev pub IsU64 : ℕ → Type 0
IsU64 n = n < two64
