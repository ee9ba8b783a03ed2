-- ===== src/ThreadLocal.antt =====
-- projects/peanuts/include/peanuts/utils/tls.hpp: a value of which every thread has its own. Threads
-- are numbers. What a thread's pointer points to is its own, so that a pointer is its target.
pub mod Values
use peanuts.Base.{ℕ, Option, none, some, ◌==◌, if◌then◌else◌}

-- A family of values, changed at one index.
unfoldable pub update {ℓ} : {A : Type ℓ} → (ℕ → A) → ℕ → A → ℕ → A
update f i a j = if j == i then a else f j

-- `thread_specific_ptr`: what each thread's pointer points to.
abbrev pub ThreadSpecificPtr {ℓ} : Type ℓ → Type ℓ
ThreadSpecificPtr A = ℕ → Option A

-- `release` leaves the pointer to the caller.
unfoldable pub release {ℓ} : {A : Type ℓ} → ThreadSpecificPtr A → ℕ → Option A × ThreadSpecificPtr A
unfolding update
release p t = (p t, update p t none)

-- `reset` deletes what the pointer pointed to before.
unfoldable pub reset {ℓ} : {A : Type ℓ} → ThreadSpecificPtr A → ℕ → Option A → ThreadSpecificPtr A
unfolding update
reset p t v = update p t v

pub record ThreadLocalValue {ℓ} (A : Type ℓ) : Type ℓ where
  pub val : ThreadSpecificPtr A
  pub default : A

unfoldable pub make {ℓ} : {A : Type ℓ} → A → ThreadLocalValue A
make def = record { val = λ _. none; default = def }

unfoldable pub get {ℓ} : {A : Type ℓ} → ThreadLocalValue A → ℕ → A
get v t = elim (v.val t) [ some x ↦ x | none ↦ v.default ]

unfoldable pub set {ℓ} : {A : Type ℓ} → ThreadLocalValue A → ℕ → A → ThreadLocalValue A
unfolding reset update
set v t x = elim (v.val t) [
  | some _ ↦ record v { val = update v.val t (some x) }
  | none ↦ record v { val = reset v.val t (some x) }
]

-- `getRef`: the reference is to the value of the thread, which is there from then on.
unfoldable pub get_ref {ℓ} : {A : Type ℓ} → ThreadLocalValue A → ℕ → A × ThreadLocalValue A
unfolding reset
get_ref v t = elim (v.val t) [
  | some x ↦ (x, v)
  | none ↦ (v.default, record v { val = reset v.val t (some v.default) })
]
