-- ===== src/Statistics.antt =====
-- projects/peanuts/include/peanuts/utils/welford.hpp: a running mean and variance. The numbers of
-- type `double` are a parameter, with the operations on them and no law.
pub mod Aggregates
mod Tests
use peanuts.Base.{ℕ, ◌-◌, Bool, List, [], ◌∷◌, ltb, ◌==◌, if◌then◌else◌, add64}

pub record Double : Type 1 where
  pub Float : Type 0
  pub zero : Float
  pub of_size : ℕ → Float
  pub plus : Float → Float → Float
  pub minus : Float → Float → Float
  pub times : Float → Float → Float
  pub divide : Float → Float → Float
  pub sqrt : Float → Float

pub data Error : Type 0 where
  mean_undefined var_undefined no_data : Error

pub data Result {ℓ} (A : Type ℓ) : Type ℓ where
  ok : A → Result A
  err : Error → Result A

infixl 5 ◌>>=◌
abbrev pub ◌>>=◌ {ℓ κ} : {A : Type ℓ} {B : Type κ} → Result A → (A → Result B) → Result B
ok a >>= f = f a
err e >>= f = err e

module _ (d : Double) where
  open d use {Float, of_size, plus, minus, times, divide, sqrt}

  pub record Welford : Type 0 where
    pub n : ℕ
    pub mean : Float
    pub m2 : Float

  unfoldable pub clear : Welford
  clear = record { n = 0; mean = d.zero; m2 = d.zero }

  unfoldable pub add : Float → Welford → Welford
  add x w =
      let n = add64 w.n 1 in
      let delta = minus x w.mean in
      let mean = plus w.mean (divide delta (of_size n)) in
      let delta2 = minus x mean in
      record { n = n; mean = mean; m2 = plus w.m2 (times delta delta2) }

  unfoldable pub mean : Welford → Result Float
  mean w = if ltb w.n 1 then err mean_undefined else ok w.mean

  unfoldable pub var : Welford → Result Float
  var w = if ltb w.n 2 then err var_undefined else ok (divide w.m2 (of_size (w.n - 1)))

  unfoldable pub sum : Welford → Result Float
  unfolding mean
  sum w = do m ← mean w; ok (times (of_size w.n) m)

  unfoldable pub std : Welford → Result Float
  unfolding var
  std w = do v ← var w; ok (sqrt v)

  -- The first loop of `from_range`: the number of values and their sum.
  unfoldable pub totals : List Welford → ℕ → Float → Result (ℕ × Float)
  unfolding mean
  totals [] n t = ok (n, t)
  totals (w ∷ ws) n t = do m ← mean w; totals ws (add64 n w.n) (plus t (times m (of_size w.n)))

  -- The second loop.
  unfoldable pub spread : Float → List Welford → Float → Result Float
  unfolding mean
  spread grand [] t = ok t
  spread grand (w ∷ ws) t = do
    m ← mean w
    let off = minus m grand
    spread grand ws (plus t (plus w.m2 (times (times (of_size w.n) off) off)))

  unfoldable pub aggregate : List Welford → ℕ × Float → Result Welford
  unfolding spread
  aggregate ws (n, t) =
      let grand = divide t (of_size n) in
      if n == 0
      then err no_data
      else (spread grand ws d.zero >>= λ m2. ok (record { n = n; mean = grand; m2 = m2 }))

  unfoldable pub from_range : List Welford → Result Welford
  unfolding totals aggregate
  from_range ws = do t ← totals ws 0 d.zero; aggregate ws t
