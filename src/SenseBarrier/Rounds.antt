-- ===== src/SenseBarrier/Rounds.antt =====
-- The rounds of the barrier: where the threads stand in one, and what a step changes.
use peanuts.Base.{
  ℕ, zero, suc, ◌+◌, ◌<◌, ◌≡◌, ◌≢◌, ◌⊎◌, refl, arith, Bool, true, false, not, if◌then◌else◌, ◌==◌,
}
use native.Mathlib.Decide.{ℕ_discrete}
use peanuts.ThreadLocal.{get}
use peanuts.SenseBarrier.{Pc, outside, entered, last, publish, spin, SenseBarrier}
use peanuts.SenseBarrier.Total.{total, total-change}

abbrev pub odd : ℕ → Bool
odd zero = false
odd (suc n) = not (odd n)

-- The calls of `wait` that a thread has begun, from those that it has finished.
abbrev pub begun_at : Pc → ℕ → ℕ
begun_at outside k = k
begun_at _ k = suc k

abbrev pub begun : SenseBarrier → ℕ → ℕ
begun s t = begun_at (s.pc t) (s.returned t)

-- A thread in round `g`: it takes part in it, or has not yet seen the end of the one before.
abbrev pub View : ℕ → Pc → ℕ → Type 0
View g outside k = k ≡ g
View g (entered b) k = (k ≡ g) × (b ≡ odd g)
View g (last b) k = (k ≡ g) × (b ≡ odd g)
View g (publish b) k = (k ≡ g) × (b ≡ odd g)
View g (spin b) k = (b ≡ odd k) × ((k ≡ g) ⊎ (suc k ≡ g))

-- 1 for a thread that has not arrived in round `g`.
abbrev pub weight : ℕ → Pc → ℕ → ℕ
weight g outside k = 1
weight g (entered b) k = 1
weight g (last b) k = 0
weight g (publish b) k = 0
weight g (spin b) k = if k == g then 0 else 1

abbrev pub weights : ℕ → SenseBarrier → ℕ → ℕ
weights g s t = weight g (s.pc t) (s.returned t)

abbrev pub releasing : Pc → Bool
releasing (last b) = true
releasing (publish b) = true
releasing _ = false

pub record InRound (g : ℕ) (s : SenseBarrier) (t : ℕ) : Type 0 where
  pub local : get s.tl_sense t ≡ odd (begun s t)
  pub view : View g (s.pc t) (s.returned t)

-- It has arrived, and the round is not over.
abbrev pub IsStuck : ℕ → SenseBarrier → ℕ → Type 0
IsStuck g s t = (s.pc t ≡ spin (odd g)) × (s.returned t ≡ g)

-- A step of thread `i` that brings it to `p`, with `k` calls finished.
pub record IsMoved (s s' : SenseBarrier) (i : ℕ) (p : Pc) (k : ℕ) : Type 0 where
  pub pc-at : s'.pc i ≡ p
  pub returned-at : s'.returned i ≡ k
  pub nthreads : s'.nthreads ≡ s.nthreads
  pub pc-else : (t : ℕ) → t ≢ i → s'.pc t ≡ s.pc t
  pub returned-else : (t : ℕ) → t ≢ i → s'.returned t ≡ s.returned t
  pub local-else : (t : ℕ) → t ≢ i → get s'.tl_sense t ≡ get s.tl_sense t

module _ {s s' : SenseBarrier} {i : ℕ} {p : Pc} {k : ℕ} (m : IsMoved s s' i p k) where
  pub moved-IsStuck : (g t : ℕ) → t ≢ i → IsStuck g s t → IsStuck g s' t
  moved-IsStuck g t d w = (rw (m.pc-else t d) w.0, rw (m.returned-else t d) w.1)

  pub moved-InRound :
      (g n : ℕ)
      → ((t : ℕ) → t < n → InRound g s t)
      → InRound g s' i
      → (t : ℕ) → t < n
      → InRound g s' t
  moved-InRound g n r at t l = elim (ℕ_discrete t i) [
    | yes e ↦ rw e at
    | no d ↦ record {
      local = rw (m.local-else t d, m.pc-else t d, m.returned-else t d) ((r t l).local);
      view = rw (m.pc-else t d, m.returned-else t d) ((r t l).view);
    }
  ]

  pub moved-total :
      (g n : ℕ)
      → i < n
      → total n (weights g s') + weights g s i ≡ total n (weights g s) + weight g p k
  moved-total g n l =
      let e : weights g s' i ≡ weight g p k = rw (m.pc-at, m.returned-at) refl in
      let c =
        total-change n (weights g s) (weights g s') i l
          (λ j d. rw (m.pc-else j d, m.returned-else j d) refl) in
      rw e at c

  pub moved-releasing :
      (n : ℕ)
      → ((t : ℕ) → t < n → releasing (s.pc t) ≡ false)
      → releasing p ≡ false
      → (t : ℕ) → t < n
      → releasing (s'.pc t) ≡ false
  moved-releasing n q e t l = elim (ℕ_discrete t i) [
    | yes h ↦ rw (h, m.pc-at) e
    | no d ↦ rw (m.pc-else t d) (q t l)
  ]

-- A thread without weight waits in its loop for the end of the round.
pub weight-IsStuck :
    (g : ℕ) (p : Pc) (k : ℕ)
    → View g p k
    → releasing p ≡ false
    → weight g p k ≡ 0
    → (p ≡ spin (odd g)) × (k ≡ g)
weight-IsStuck g outside k v q w = absurd (omega arith)
weight-IsStuck g (entered b) k v q w = absurd (omega arith)
weight-IsStuck g (last b) k v q w = cc
weight-IsStuck g (publish b) k v q w = cc
weight-IsStuck g (spin b) k v q w = let e : k ≡ g = ground arith in (rw (v.0, e) refl, e)
