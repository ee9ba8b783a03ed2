-- ===== src/Handles/Ownership.antt =====
-- The resources and the variables that own them, over any series of calls.
use peanuts.Base.{ℕ, zero, suc, ◌+◌, ◌<◌, ◌≡◌, ◌∙◌, Bool, true, false, Option, none, some, List, []}
use peanuts.Base.{◌∷◌, arith, refl, ap, ◌==◌, if◌then◌else◌, length, ltb, ◌⊎◌, inr, inl}
use peanuts.Handles.{Program, Unique, get, reset, release, null, create, set_should_delete, borrow}
use peanuts.Handles.{move_assign, destroy, close}
use peanuts.Handles.Counts.{owned, owns, owners, count, owners-set, length-set, get-set, count-call}

abbrev pub total : ℕ → Program → ℕ
total k h = owners k h.vars + count k h.freed

module _ (k v : ℕ) (h : Program) (there : v < length h.vars) where
  abbrev before : Unique
  before = get h.vars v

  total-reset : (p : Option ℕ) → total k (reset v p h) ≡ total k h + owned k before.deleter p
  unfolding reset
  total-reset p = omega (
    arith,
    owners-set k h.vars v (record before { pointer = p }) there,
    count-call k before.deleter before.pointer h.freed,
  )

  total-set_should_delete :
      (b : Bool)
      → total k (set_should_delete v b h) + owns k before
        ≡ total k h + owned k (record { should_delete = b }) before.pointer
  unfolding set_should_delete
  total-set_should_delete b = omega (
    arith,
    owners-set k h.vars v (record before { deleter = record { should_delete = b } }) there,
  )

  total-release : total k (release v h).1 + owns k before ≡ total k h
  unfolding release
  total-release = omega (arith, owners-set k h.vars v (record before { pointer = none }) there)

  total-destroy : total k (destroy v h) ≡ total k h
  unfolding destroy
  total-destroy = omega (arith, total-reset none)

  -- What the variable is behind a reset.
  get-reset : (p : Option ℕ) → get (reset v p h).vars v ≡ record before { pointer = p }
  unfolding reset
  get-reset p = get-set h.vars v (record before { pointer = p }) there

  length-reset : (p : Option ℕ) → length (reset v p h).vars ≡ length h.vars
  unfolding reset
  length-reset p = length-set h.vars v (record before { pointer = p })

-- A reset and a new deleter: the variable owns what it is told to.
total-set_reset :
    (k v : ℕ) (h : Program) (p : Option ℕ) (b : Bool)
    → v < length h.vars
    → total k (set_should_delete v b (reset v p h))
      ≡ total k h + owned k (record { should_delete = b }) p
total-set_reset k v h p b there =
    let l : v < length (reset v p h).vars = omega (arith, length-reset k v h there p) in
    let e = rw (get-reset k v h there p) at (total-set_should_delete k v (reset v p h) l b) in
    omega (arith, total-reset k v h there p, e)

total-create :
    (k v : ℕ) (h : Program)
    → v < length h.vars
    → total k (create true v h) ≡ total k h + (if h.created == k then 1 else 0)
unfolding create
total-create k v h there =
    total-set_reset k v (record h { created = suc h.created }) (some h.created) true there

total-borrow : (k p v : ℕ) (h : Program) → v < length h.vars → total k (borrow p v h) ≡ total k h
unfolding borrow
total-borrow k p v h there = omega (arith, total-set_reset k v h (some p) false there)

total-move_assign :
    (k v w : ℕ) (h : Program)
    → v < length h.vars
    → w < length h.vars
    → total k (move_assign v w h) ≡ total k h
unfolding move_assign
total-move_assign k v w h here there =
    let d = (get h.vars w).deleter in
    let r = release w h in
    let l : v < length r.1.vars =
      unfold release in
      omega (arith, length-set h.vars w (record (get h.vars w) { pointer = none })) in
    omega (
      arith,
      total-set_reset k v r.1 (get h.vars w).pointer d.should_delete l,
      total-release k w h there,
    )

total-close :
    (k v : ℕ) (h : Program)
    → v < length h.vars
    → (get h.vars v).deleter.should_delete ≡ true
    → total k (close v h) ≡ total k h
unfolding close
total-close k v h there d =
    let p = (get h.vars v).pointer in
    let r = release v h in
    let e : owned k (get h.vars v).deleter p ≡ owned k (record { should_delete = true }) p =
      ap (λ (b : Bool). owned k (record { should_delete = b }) p) d in
    omega (
      arith,
      count-call k (record { should_delete = true }) p r.1.freed,
      total-release k v h there,
      e,
    )

-- Every resource that was made is owned by one variable or was freed once, and no other is.
abbrev pub IsAccounted : Program → Type 0
IsAccounted h = (k : ℕ) → total k h ≡ (if ltb k h.created then 1 else 0)

-- What a program does with its variables.
pub data Step : Program → Program → Type 0 where
  creates : {h : Program} → (ok : Bool) (v : ℕ) → v < length h.vars → Step h (create ok v h)
  borrows : {h : Program} → (p v : ℕ) → v < length h.vars → Step h (borrow p v h)
  moves :
      {h : Program} → (v w : ℕ) → v < length h.vars → w < length h.vars → Step h (move_assign v w h)
  destroys : {h : Program} → (v : ℕ) → v < length h.vars → Step h (destroy v h)
  closes :
      {h : Program}
      → (v : ℕ) → v < length h.vars
      → (get h.vars v).deleter.should_delete ≡ true
      → Step h (close v h)

-- `n` variables that hold nothing yet.
unfoldable pub nulls : ℕ → List Unique
nulls zero = []
nulls (suc n) = null ∷ nulls n

pub data Reach : Program → Type 0 where
  begins : (n : ℕ) → Reach (record { vars = nulls n; freed = []; created = 0 })
  goes : {h h' : Program} → Reach h → Step h h' → Reach h'

owners-nulls : (k n : ℕ) → owners k (nulls n) ≡ 0
unfolding nulls
owners-nulls k zero = refl
owners-nulls k (suc n) = omega (arith, owners-nulls k n)

Step-IsAccounted : {h h' : Program} → Step h h' → IsAccounted h → IsAccounted h'
unfolding create borrow move_assign destroy close
Step-IsAccounted {h} (creates true v l) a k = total-create k v h l ∙ ground (arith, a k)
Step-IsAccounted (creates false v l) a k = a k
Step-IsAccounted {h} (borrows p v l) a k = total-borrow k p v h l ∙ a k
Step-IsAccounted {h} (moves v w l m) a k = total-move_assign k v w h l m ∙ a k
Step-IsAccounted {h} (destroys v l) a k = total-destroy k v h l ∙ a k
Step-IsAccounted {h} (closes v l d) a k = total-close k v h l d ∙ a k

Reach-IsAccounted : {h : Program} → Reach h → IsAccounted h
Reach-IsAccounted (begins n) = λ k. ground (arith, owners-nulls k n)
Reach-IsAccounted (goes r s) = Step-IsAccounted s (Reach-IsAccounted r)

one : (a b : ℕ) → a + b ≡ 1 → (a ≡ 1) × (b ≡ 0) ⊎ (a ≡ 0) × (b ≡ 1)
one zero b h = inr (refl, omega arith)
one (suc a) b h = inl (omega arith, omega arith)

-- In every state that a program comes to, in which variables make resources, hold those of others,
-- are moved, closed or end, in any order: every resource that was made so far either is owned by
-- exactly one variable and was not freed, or is owned by none and was freed exactly once.
pub freed_once :
    {h : Program} (k : ℕ)
    → Reach h
    → k < h.created
    → (owners k h.vars ≡ 1) × (count k h.freed ≡ 0) ⊎ (owners k h.vars ≡ 0) × (count k h.freed ≡ 1)
freed_once {h} k r l =
    let a : total k h ≡ 1 = Reach-IsAccounted r k ∙ ground arith in
    one (owners k h.vars) (count k h.freed) a
