-- ===== src/SenseBarrier/Steps.antt =====
-- The steps of a thread, and the rounds of the barrier.
use peanuts.Base.{ℕ, suc, ◌+◌, ◌-◌, ◌%◌, ◌^◌, ◌<◌, ◌≡◌, ◌≢◌, ◌∙◌, sym, inl, inr, refl, arith, Bool}
use peanuts.Base.{true, false, not, ap, ◌==◌, ◌⊎◌}
use native.Mathlib.Decide.{ℕ_discrete}
use peanuts.ThreadLocal.{get}
use peanuts.ThreadLocal.Values.{get-set}
use peanuts.SenseBarrier.{outside, entered, last, publish, spin, SenseBarrier, leave, enter, arrive}
use peanuts.SenseBarrier.{act, step}
use peanuts.SenseBarrier.Total.{total, total-single, total-ones}
use peanuts.SenseBarrier.Rounds.{odd, weight, weights, releasing, InRound, IsStuck, IsMoved}
use peanuts.SenseBarrier.Rounds.{moved-IsStuck, moved-InRound, moved-total, moved-releasing}
use peanuts.SenseBarrier.Rounds.{weight-IsStuck}
use peanuts.SenseBarrier.Invariant.{Inv, collecting, closing, publishing, enter-IsMoved}
use peanuts.SenseBarrier.Invariant.{stays-IsMoved, leave-IsMoved, spin-stuck, spin-leave, not-not}

-- A thread that has yet to arrive in round `g`.
record IsFresh (g : ℕ) (s : SenseBarrier) (t : ℕ) : Type 0 where
  place : InRound g s t
  missing : weights g s t ≡ 1
  quiet : releasing (s.pc t) ≡ false

module _ (n g : ℕ) (s : SenseBarrier) (i : ℕ) (small : n < 2 ^ 32) (l : i < n)
    (nthreads : s.nthreads ≡ n) (sense : s.sense ≡ not (odd g))
    (threads : (t : ℕ) → t < n → InRound g s t) where
  module _ (waits : s.waits ≡ total n (weights g s)) (pos : 0 < s.waits) (word : s.waits < 2 ^ 32)
      (quiet : (t : ℕ) → t < n → releasing (s.pc t) ≡ false) where
    pub enter-Inv : s.pc i ≡ outside → Inv n (enter s i)
    unfolding enter
    enter-Inv e =
        let m = enter-IsMoved s i in
        let r = threads i l in
        let k : s.returned i ≡ g = rw e at r.view in
        let o : get s.tl_sense i ≡ odd g = (rw e at r.local) ∙ ap odd k in
        let w : weights g s i ≡ 1 = rw e refl in
        record {
          round = g;
          nthreads = nthreads;
          sense = sense;
          threads = moved-InRound m g n threads (record {
            local =
                rw m.pc-at
                  (get-set s.tl_sense i _ ∙ ap not o ∙ ap (λ (x : ℕ). odd (suc x)) (sym k));
            view = rw m.pc-at (k, o);
          });
          phase =
              collecting (waits ∙ omega (arith, moved-total m g n l, w)) pos word
                (moved-releasing m n quiet refl);
        }

    -- The last to arrive: every other thread is stuck.
    pub arrive-last : (b : Bool) → s.pc i ≡ entered b → s.waits ≡ 1 → Inv n (arrive s i b)
    unfolding arrive
    arrive-last b e one =
        let m = stays-IsMoved s i (last b) ((s.waits + 2 ^ 32 - 1) % 2 ^ 32) in
        let r = threads i l in
        let v : (s.returned i ≡ g) × (b ≡ odd g) = rw e at r.view in
        let o : get s.tl_sense i ≡ odd (suc (s.returned i)) = rw e at r.local in
        let w : weights g s i ≡ 1 = rw e refl in
        let q : (s.waits == 1) ≡ true = ground arith in
        rw q (record {
          round = g;
          nthreads = nthreads;
          sense = sense;
          threads =
              moved-InRound m g n threads (record { local = rw m.pc-at o; view = rw m.pc-at v });
          phase = closing i l (m.pc-at ∙ ap last v.1) (λ t a d. moved-IsStuck m g t d (
              weight-IsStuck g (s.pc t) (s.returned t) (threads t a).view (quiet t a)
                (total-single n (weights g s) i t l a (λ h. d (sym h)) (omega arith))));
        })

    pub arrive-waits : (b : Bool) → s.pc i ≡ entered b → s.waits ≢ 1 → Inv n (arrive s i b)
    unfolding arrive
    arrive-waits b e more =
        let m = stays-IsMoved s i (spin b) ((s.waits + 2 ^ 32 - 1) % 2 ^ 32) in
        let r = threads i l in
        let v : (s.returned i ≡ g) × (b ≡ odd g) = rw e at r.view in
        let o : get s.tl_sense i ≡ odd (suc (s.returned i)) = rw e at r.local in
        let w : weights g s i ≡ 1 = rw e refl in
        let z : weight g (spin b) (s.returned i) ≡ 0 = ground arith in
        let q : (s.waits == 1) ≡ false = ground arith in
        rw q (record {
          round = g;
          nthreads = nthreads;
          sense = sense;
          threads = moved-InRound m g n threads (record {
            local = rw m.pc-at o;
            view = rw m.pc-at (v.1 ∙ ap odd (sym v.0), inl v.0);
          });
          phase =
              collecting (omega (arith, moved-total m g n l)) (omega arith) (omega arith)
                (moved-releasing m n quiet refl);
        })

    leave-Inv : s.pc i ≡ spin (odd (s.returned i)) → suc (s.returned i) ≡ g → Inv n (leave s i)
    unfolding leave
    leave-Inv e k =
        let m = leave-IsMoved s i s.sense in
        let r = threads i l in
        let o : get s.tl_sense i ≡ odd (suc (s.returned i)) = rw e at r.local in
        let w : weights g s i ≡ 1 = rw e (ground arith) in
        record {
          round = g;
          nthreads = nthreads;
          sense = sense;
          threads = moved-InRound m g n threads (record {
            local = rw (m.pc-at, m.returned-at) o;
            view = rw (m.pc-at, m.returned-at) k;
          });
          phase =
              collecting (omega (arith, moved-total m g n l)) pos word
                (moved-releasing m n quiet refl);
        }

    -- A thread that has seen the end of its round goes on to the next.
    pub spin-Inv : (b : Bool) → s.pc i ≡ spin b → Inv n s → Inv n (act s i (spin b))
    spin-Inv b e inv =
        let r = threads i l in
        let v : (b ≡ odd (s.returned i)) × ((s.returned i ≡ g) ⊎ (suc (s.returned i) ≡ g)) =
          rw e at r.view in
        elim v.1 [
          | inl h ↦ (let q : b ≡ odd g = v.0 ∙ ap odd h in rw q (rw (spin-stuck g i s sense) inv))
          | inr h ↦
              (let c : s.sense ≡ b =
                  sense ∙ ap not (ap odd (sym h)) ∙ not-not (odd (s.returned i)) ∙ sym v.0 in
                rw (spin-leave i b s c) (rw (← c) (leave-Inv (e ∙ ap spin v.0) (omega arith))))
        ]

  -- The threads that wait do so until the last one has published the sense.
  pub stuck-Inv : IsStuck g s i → Inv n s → Inv n (step s i)
  unfolding step
  stuck-Inv w inv = rw w.0 (rw (spin-stuck g i s sense) inv)

  pub reset-Inv :
      s.pc i ≡ last (odd g)
      → ((t : ℕ) → t < n → t ≢ i → IsStuck g s t)
      → Inv n (act s i (last (odd g)))
  unfolding act
  reset-Inv e others =
      let m = stays-IsMoved s i (publish (odd g)) s.nthreads in
      let r = threads i l in
      let v : (s.returned i ≡ g) × (odd g ≡ odd g) = rw e at r.view in
      let o : get s.tl_sense i ≡ odd (suc (s.returned i)) = rw e at r.local in
      record {
        round = g;
        nthreads = nthreads;
        sense = sense;
        threads =
            moved-InRound m g n threads (record { local = rw m.pc-at o; view = rw m.pc-at v });
        phase = publishing i l m.pc-at nthreads (λ t a d. moved-IsStuck m g t d (others t a d));
      }

  stuck-IsFresh :
      (t : ℕ) (s' : SenseBarrier) → InRound g s' t → IsStuck g s' t → IsFresh (suc g) s' t
  stuck-IsFresh t s' r (a, k) = record {
    place = record { local = r.local; view = rw (a, k) (refl, inr refl) };
    missing = rw (a, k) (ground arith);
    quiet = rw a refl;
  }

  -- The next round begins: nobody has arrived in it.
  pub publish-Inv :
      s.pc i ≡ publish (odd g)
      → s.waits ≡ n
      → ((t : ℕ) → t < n → t ≢ i → IsStuck g s t)
      → Inv n (act s i (publish (odd g)))
  unfolding act leave
  publish-Inv e waits others = record {
    round = suc g;
    nthreads = nthreads;
    sense = sym (not-not (odd g));
    threads = λ t a. (fresh t a).place;
    phase =
        collecting (waits ∙ sym (total-ones n (weights (suc g) s') (λ t a. (fresh t a).missing)))
          (omega arith) (omega arith) (λ t a. (fresh t a).quiet);
  }
    where
      m : IsMoved s (leave (record s { sense = odd g }) i) i outside (suc (s.returned i))
      m = leave-IsMoved s i (odd g)

      s' : SenseBarrier
      s' = leave (record s { sense = odd g }) i

      fresh : (t : ℕ) → t < n → IsFresh (suc g) s' t
      fresh t a = elim (ℕ_discrete t i) [
        | no d ↦
            stuck-IsFresh t s'
              (record {
                local =
                    rw (m.local-else t d, m.pc-else t d, m.returned-else t d) ((threads t a).local);
                view = rw (m.pc-else t d, m.returned-else t d) ((threads t a).view);
              })
              (moved-IsStuck m g t d (others t a d))
        | yes h ↦
            (let r = threads i l in
              let v : (s.returned i ≡ g) × (odd g ≡ odd g) = rw e at r.view in
              let o : get s.tl_sense i ≡ odd (suc (s.returned i)) = rw e at r.local in
              rw h (record {
                place = record {
                  local = rw (m.pc-at, m.returned-at) o;
                  view = rw (m.pc-at, m.returned-at) (omega (arith, v.0));
                };
                missing = rw m.pc-at refl;
                quiet = rw m.pc-at refl;
              }))
      ]
