-- ===== src/SenseBarrier/Progress.antt =====
-- Schedules of the threads of the barrier.
use peanuts.Base.{
  ℕ, zero, suc, ◌+◌, ◌-◌, ◌*◌, ◌^◌, ◌<◌, ◌≤◌, ◌≡◌, ◌≢◌, ◌⊎◌, ◌∙◌, sym, ap, refl, inl, inr, arith,
  Bool, true, false, if◌then◌else◌, ◌==◌, ◌%◌,
}
use peanuts.SenseBarrier.{
  Pc, outside, entered, last, publish, spin, SenseBarrier, Reach, later, step, act, arrive,
}
use peanuts.SenseBarrier.Total.{total, total-change}
use peanuts.SenseBarrier.Rounds.{IsMoved}
use peanuts.SenseBarrier.Invariant.{enter-IsMoved, stays-IsMoved, leave-IsMoved, spin-leave}
use peanuts.SenseBarrier.Safety.{CanMove, no_deadlock}
use native.Mathlib.Decide.{ℕ_discrete}

-- How far a thread is in its call, and how far in all.
abbrev rank : Pc → ℕ
rank outside = 0
rank (entered b) = 1
rank (last b) = 2
rank (publish b) = 3
rank (spin b) = 2

rank-lt : (p : Pc) → rank p < 4
rank-lt outside = omega arith
rank-lt (entered b) = omega arith
rank-lt (last b) = omega arith
rank-lt (publish b) = omega arith
rank-lt (spin b) = omega arith

abbrev progress : SenseBarrier → ℕ → ℕ
progress s t = 5 * s.returned t + rank (s.pc t)

-- A step that is not one more look at the sense.
record Advance (s s' : SenseBarrier) (t : ℕ) : Type 0 where
  further : progress s t < progress s' t
  returned : (s'.returned t ≡ s.returned t) ⊎ (s'.returned t ≡ suc (s.returned t))
  others : (u : ℕ) → u ≢ t → (s'.pc u ≡ s.pc u) × (s'.returned u ≡ s.returned u)

moved-Advance :
    (s s' : SenseBarrier) (t : ℕ) (q : Pc) (k : ℕ)
    → IsMoved s s' t q k
    → progress s t < 5 * k + rank q
    → (k ≡ s.returned t) ⊎ (k ≡ suc (s.returned t))
    → Advance s s' t
moved-Advance s s' t q k m f r = record {
  further = rw (m.pc-at, m.returned-at) f;
  returned = rw m.returned-at r;
  others = λ u d. (m.pc-else u d, m.returned-else u d);
}

spin-Advance :
    (s : SenseBarrier) (t : ℕ) (b : Bool)
    → s.pc t ≡ spin b
    → CanMove s t
    → Advance s (act s t (spin b)) t
spin-Advance s t b e c =
    rw (spin-leave t b s (sym (c b e)))
      (moved-Advance s _ t _ _ (leave-IsMoved s t b) (rw e (omega arith)) (inr refl))

act-Advance :
    (s : SenseBarrier) (t : ℕ) (p : Pc) → s.pc t ≡ p → CanMove s t → Advance s (act s t p) t
unfolding act arrive
act-Advance s t outside e c =
    moved-Advance s _ t _ _ (enter-IsMoved s t) (rw e (omega arith)) (inl refl)
act-Advance s t (entered b) e c =
    moved-Advance s _ t _ _
      (stays-IsMoved s t (if s.waits == 1 then last b else spin b)
        ((s.waits + 2 ^ 32 - 1) % 2 ^ 32))
      (rw e (ground arith)) (inl refl)
act-Advance s t (last b) e c =
    moved-Advance s _ t _ _ (stays-IsMoved s t (publish b) s.nthreads) (rw e (omega arith))
      (inl refl)
act-Advance s t (publish b) e c =
    moved-Advance s _ t _ _ (leave-IsMoved s t b) (rw e (omega arith)) (inr refl)
act-Advance s t (spin b) e c = spin-Advance s t b e c

step-Advance : (s : SenseBarrier) (t : ℕ) → CanMove s t → Advance s (step s t) t
unfolding step
step-Advance s t c = act-Advance s t (s.pc t) refl c

-- The steps from a state on.
pub data Leads (n : ℕ) : SenseBarrier → SenseBarrier → Type 0 where
  here : {s : SenseBarrier} → Leads n s s
  by : {s s' : SenseBarrier} → (t : ℕ) → t < n → Leads n (step s t) s' → Leads n s s'

-- What is left until every thread has returned from call `k`.
abbrev left : ℕ → ℕ → SenseBarrier → ℕ
left n k s = total n (λ j. 5 * suc k - progress s j)

left-falls :
    (n k t : ℕ) (s s' : SenseBarrier)
    → t < n
    → s.returned t ≤ k
    → Advance s s' t
    → left n k s' < left n k s
left-falls n k t s s' l r a =
    let f = λ (x : SenseBarrier) (j : ℕ). 5 * suc k - progress x j in
    let same : (j : ℕ) → j ≢ t → f s' j ≡ f s j =
      λ j d. let o = a.others j d in rw (o.0, o.1) refl in
    omega (arith, total-change n (f s) (f s') t l same, a.further, rank-lt (s.pc t))

Bool-eq : (a b : Bool) → (a ≡ b) ⊎ (a ≢ b)
Bool-eq true true = inl refl
Bool-eq true false = inr (λ e. cc)
Bool-eq false true = inr (λ e. cc)
Bool-eq false false = inl refl

-- Some thread that has returned from no more calls can go on.
mover :
    (n : ℕ) (small : n < 2 ^ 32) (s : SenseBarrier) (reach : Reach n s) (i : ℕ)
    → i < n
    → (j : ℕ) × (j < n) × CanMove s j × (s.returned j ≤ s.returned i)
mover n small s reach i l = at_pc (s.pc i) refl
  where
    self : CanMove s i → (j : ℕ) × (j < n) × CanMove s j × (s.returned j ≤ s.returned i)
    self c = (i, l, c, omega arith)

    at_pc : (p : Pc) → s.pc i ≡ p → (j : ℕ) × (j < n) × CanMove s j × (s.returned j ≤ s.returned i)
    at_pc outside e = self (λ b k. cc)
    at_pc (entered c) e = self (λ b k. cc)
    at_pc (last c) e = self (λ b k. cc)
    at_pc (publish c) e = self (λ b k. cc)
    at_pc (spin c) e = elim (Bool-eq c s.sense) [
      | inl q ↦ self (λ b k. (let o : c ≡ b = cc in cc))
      | inr d ↦ no_deadlock n small s reach i l c e d
    ]

-- A schedule behind which thread `i` has returned once more.
abbrev pub CanReturn : ℕ → SenseBarrier → ℕ → Type 0
CanReturn n s i = (s' : SenseBarrier) × Leads n s s' × (s'.returned i ≡ suc (s.returned i))

-- A step of `j`, and what follows if `i` has not returned by it.
one_step :
    (n : ℕ) (s : SenseBarrier) (i j : ℕ)
    → j < n
    → Advance s (step s j) j
    → ((step s j).returned i ≡ s.returned i → CanReturn n (step s j) i)
    → CanReturn n s i
one_step n s i j m a rest =
    let on : (step s j).returned i ≡ s.returned i → CanReturn n s i =
      λ e. let x = rest e in (x.0, by j m x.1, x.2 ∙ ap suc e) in
    elim (ℕ_discrete i j) [
      | no d ↦ on (a.others i d).1
      | yes e ↦
          let back : s.returned j ≡ s.returned i = ap s.returned (sym e) in
          let there : (step s j).returned i ≡ (step s j).returned j = ap (step s j).returned e in
          elim a.returned [
            | inl h ↦ on (there ∙ h ∙ back)
            | inr h ↦ (step s j, by j m here, there ∙ h ∙ ap suc back)
          ]
    ]

fuel-CanReturn :
    (fuel n : ℕ) (s : SenseBarrier) (i : ℕ)
    → n < 2 ^ 32
    → Reach n s
    → i < n
    → left n (s.returned i) s < fuel
    → CanReturn n s i
fuel-CanReturn zero n s i small reach l f = absurd (omega arith)
fuel-CanReturn (suc fuel) n s i small reach l f =
    let x = mover n small s reach i l in
    let a : Advance s (step s x.0) x.0 = step-Advance s x.0 x.2 in
    let fall = left-falls n (s.returned i) x.0 s (step s x.0) x.1 x.3 a in
    one_step n s i x.0 x.1 a (λ e.
      fuel-CanReturn fuel n (step s x.0) i small (later s x.0 reach x.1) l (rw e (omega arith)))

-- Of fewer than 2^32 threads, in every state that their steps lead to, there is for each thread a
-- schedule of further steps behind which it has returned from one more call of `wait` than before.
pub can_return :
    (n : ℕ) (s : SenseBarrier) (i : ℕ)
    → n < 2 ^ 32
    → Reach n s
    → i < n
    → (s' : SenseBarrier) × Leads n s s' × (s'.returned i ≡ suc (s.returned i))
can_return n s i small reach l =
    fuel-CanReturn (suc (left n (s.returned i) s)) n s i small reach l (omega arith)
