-- ===== src/Handles/Counts.antt =====
-- How many variables own a resource, and how often it was freed.
use peanuts.Base.{
  ℕ, zero, suc, ◌+◌, ◌<◌, ◌≡◌, Option, none, some, List, [], ◌∷◌, arith, refl, ◌==◌, if◌then◌else◌,
  length,
}
use peanuts.Handles.{CondDeleter, Unique, call, get, set}

abbrev pub owned : ℕ → CondDeleter → Option ℕ → ℕ
owned k d none = 0
owned k d (some p) = if d.should_delete then (if p == k then 1 else 0) else 0

-- A variable owns what it will delete.
abbrev pub owns : ℕ → Unique → ℕ
owns k u = owned k u.deleter u.pointer

abbrev pub owners : ℕ → List Unique → ℕ
owners k [] = 0
owners k (u ∷ us) = owns k u + owners k us

abbrev pub count : ℕ → List ℕ → ℕ
count k [] = 0
count k (p ∷ ps) = (if p == k then 1 else 0) + count k ps

pub owners-set :
    (k : ℕ) (us : List Unique) (i : ℕ) (v : Unique)
    → i < length us
    → owners k (set us i v) + owns k (get us i) ≡ owners k us + owns k v
owners-set k [] i v h = absurd (omega arith)
owners-set k (u ∷ us) zero v h = omega arith
owners-set k (u ∷ us) (suc i) v h = omega (arith, owners-set k us i v)

pub length-set : (us : List Unique) (i : ℕ) (v : Unique) → length (set us i v) ≡ length us
length-set [] i v = refl
length-set (u ∷ us) zero v = refl
length-set (u ∷ us) (suc i) v = omega (arith, length-set us i v)

pub get-set : (us : List Unique) (i : ℕ) (v : Unique) → i < length us → get (set us i v) i ≡ v
get-set [] i v h = absurd (omega arith)
get-set (u ∷ us) zero v h = refl
get-set (u ∷ us) (suc i) v h = get-set us i v (omega arith)

pub count-call :
    (k : ℕ) (d : CondDeleter) (p : Option ℕ) (freed : List ℕ)
    → count k (call d p freed) ≡ count k freed + owned k d p
unfolding call
count-call k d none freed = omega arith
count-call k d (some p) freed = ground arith
