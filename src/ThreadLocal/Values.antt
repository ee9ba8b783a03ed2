-- ===== src/ThreadLocal/Values.antt =====
-- Values of threads: one that is set, and those of the others.
use peanuts.Base.{ℕ, ◌≡◌, ◌≢◌, refl, Option, none, some, arith}
use peanuts.ThreadLocal.{update, ThreadLocalValue, get, set, reset, make}

pub update-same {ℓ} : {A : Type ℓ} (f : ℕ → A) (i : ℕ) (a : A) → update f i a i ≡ a
unfolding update
update-same f i a = ground arith

pub update-other {ℓ} :
    {A : Type ℓ} (f : ℕ → A) (i : ℕ) (a : A) (j : ℕ) → j ≢ i → update f i a j ≡ f j
unfolding update
update-other f i a j h = ground arith

pub get-set {ℓ} : {A : Type ℓ} (v : ThreadLocalValue A) (t : ℕ) (x : A) → get (set v t x) t ≡ x
unfolding get set reset
get-set {A = A} v t x = set_at (v.val t) refl
  where
    set_at : (o : Option A) → v.val t ≡ o → get (set v t x) t ≡ x
    set_at none e = rw (e, set) (rw (update-same v.val t (some x), get, reset) refl)
    set_at (some y) e = rw (e, set) (rw (update-same v.val t (some x), get, reset) refl)

pub get-set_other {ℓ} :
    {A : Type ℓ} (v : ThreadLocalValue A) (t : ℕ) (x : A) (u : ℕ)
    → u ≢ t
    → get (set v t x) u ≡ get v u
unfolding get set reset
get-set_other {A = A} v t x u d = set_at (v.val t) refl
  where
    set_at : (o : Option A) → v.val t ≡ o → get (set v t x) u ≡ get v u
    set_at none e = rw (e, set) (rw (update-other v.val t (some x) u d, get, reset) refl)
    set_at (some y) e = rw (e, set) (rw (update-other v.val t (some x) u d, get, reset) refl)

pub get-make {ℓ} : {A : Type ℓ} (x : A) (t : ℕ) → get (make x) t ≡ x
unfolding get make
get-make x t = refl
