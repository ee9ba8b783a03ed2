-- ===== src/SenseBarrier/Reachable.antt =====
-- The states that the threads come to.
use peanuts.Base.{ℕ, ◌^◌, ◌<◌, ◌≡◌, refl, arith, true, false}
use native.Mathlib.Decide.{ℕ_discrete}
use peanuts.ThreadLocal.Values.{get-make}
use peanuts.SenseBarrier.{Reach, start, later, outside, entered, last, publish, spin, SenseBarrier}
use peanuts.SenseBarrier.{act, step, make, Pc}
use peanuts.SenseBarrier.Total.{total, total-ones}
use peanuts.SenseBarrier.Rounds.{odd, weights, releasing}
use peanuts.SenseBarrier.Invariant.{Inv, collecting, closing, publishing}
use peanuts.SenseBarrier.Steps.{enter-Inv, arrive-last, arrive-waits, spin-Inv, stuck-Inv}
use peanuts.SenseBarrier.Steps.{reset-Inv, publish-Inv}

module _ (n : ℕ) (small : n < 2 ^ 32) (pos : 0 < n) where
  make-Inv : Inv n (make n)
  unfolding make
  make-Inv = record {
    round = 0;
    nthreads = omega arith;
    sense = refl;
    threads = λ t l. record { local = get-make false t; view = refl };
    phase =
        collecting (omega (arith, total-ones n (weights 0 (make n)) (λ j l. refl))) (omega arith)
          (omega arith) (λ t l. refl);
  }

  step-Inv : (s : SenseBarrier) (i : ℕ) → i < n → Inv n s → Inv n (step s i)
  unfolding step act
  step-Inv s i l inv = elim inv.phase [
    | closing t a e others ↦ elim (ℕ_discrete i t) [
      | no d ↦
          stuck-Inv n inv.round s i small l inv.nthreads inv.sense inv.threads (others i l d) inv
      | yes h ↦
          (let q : s.pc i ≡ last (odd inv.round) = rw h e in
            rw q (
              reset-Inv n inv.round s i small l inv.nthreads inv.sense inv.threads q (rw h others)))
    ]
    | publishing t a e w others ↦ elim (ℕ_discrete i t) [
      | no d ↦
          stuck-Inv n inv.round s i small l inv.nthreads inv.sense inv.threads (others i l d) inv
      | yes h ↦
          (let q : s.pc i ≡ publish (odd inv.round) = rw h e in
            rw q (
              publish-Inv n inv.round s i small l inv.nthreads inv.sense inv.threads q w
                (rw h others)))
    ]
    | collecting w p word quiet ↦ arriving w p word quiet (s.pc i) refl
  ]
    where
      arriving :
          s.waits ≡ total n (weights inv.round s)
          → 0 < s.waits
          → s.waits < 2 ^ 32
          → ((t : ℕ) → t < n → releasing (s.pc t) ≡ false)
          → (p : Pc) → s.pc i ≡ p
          → Inv n (act s i (s.pc i))
      arriving w p word quiet outside e =
          rw e
            (enter-Inv n inv.round s i small l inv.nthreads inv.sense inv.threads w p word quiet e)
      arriving w p word quiet (entered b) e = elim (ℕ_discrete s.waits 1) [
        | yes h ↦ rw e (
            arrive-last n inv.round s i small l inv.nthreads inv.sense inv.threads w p word quiet b
              e h)
        | no h ↦ rw e (
            arrive-waits n inv.round s i small l inv.nthreads inv.sense inv.threads w p word quiet b
              e h)
      ]
      arriving w p word quiet (last b) e = absurd (let c : true ≡ false = rw e at (quiet i l) in cc)
      arriving w p word quiet (publish b) e =
          absurd (let c : true ≡ false = rw e at (quiet i l) in cc)
      arriving w p word quiet (spin b) e = rw e (
          spin-Inv n inv.round s i small l inv.nthreads inv.sense inv.threads w p word quiet b e
            inv)

  pub Reach-Inv : (s : SenseBarrier) → Reach n s → Inv n s
  Reach-Inv _ start = make-Inv
  Reach-Inv _ (later s t r l) = step-Inv s t l (Reach-Inv s r)
