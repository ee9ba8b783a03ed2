-- ===== src/SenseBarrier/Safety.antt =====
-- The calls of `wait` that threads have begun, and those that they have returned from.
use peanuts.Base.{ℕ, suc, ◌^◌, ◌<◌, ◌≤◌, ◌≡◌, ◌≢◌, ◌⊎◌, ◌∙◌, sym, inl, inr, arith, Bool, not, ap}
use peanuts.SenseBarrier.{Pc, outside, entered, last, publish, spin, SenseBarrier, Reach}
use peanuts.SenseBarrier.Total.{total-pos}
use peanuts.SenseBarrier.Rounds.{odd, begun, begun_at, View, weight, weights}
use peanuts.SenseBarrier.Invariant.{Inv, collecting, closing, publishing, not-not}
use peanuts.SenseBarrier.Reachable.{Reach-Inv}

returned-le : (g : ℕ) (p : Pc) (k : ℕ) → View g p k → k ≤ g
returned-le g outside k v = omega arith
returned-le g (entered b) k v = omega (arith, v.0)
returned-le g (last b) k v = omega (arith, v.0)
returned-le g (publish b) k v = omega (arith, v.0)
returned-le g (spin b) k v = elim v.1 [ inl h ↦ omega arith | inr h ↦ omega arith ]

le-begun : (g : ℕ) (p : Pc) (k : ℕ) → View g p k → g ≤ begun_at p k
le-begun g outside k v = omega arith
le-begun g (entered b) k v = omega (arith, v.0)
le-begun g (last b) k v = omega (arith, v.0)
le-begun g (publish b) k v = omega (arith, v.0)
le-begun g (spin b) k v = elim v.1 [ inl h ↦ omega arith | inr h ↦ omega arith ]

-- The next step of a thread is not one more look at the sense.
abbrev pub CanMove : SenseBarrier → ℕ → Type 0
CanMove s t = (b : Bool) → s.pc t ≡ spin b → b ≡ s.sense

-- A thread that waits for the round before sees its end.
spin-sense : (g k : ℕ) (b sense : Bool) → sense ≡ not (odd g) → b ≡ odd k → suc k ≡ g → b ≡ sense
spin-sense g k b sense q v h = v ∙ sym (not-not (odd k)) ∙ ap not (ap odd h) ∙ sym q

weight-moves :
    (g : ℕ) (p : Pc) (k : ℕ) (sense : Bool)
    → sense ≡ not (odd g)
    → View g p k
    → 0 < weight g p k
    → (b : Bool) → p ≡ spin b
    → b ≡ sense
weight-moves g outside k sense q v w b e = cc
weight-moves g (entered c) k sense q v w b e = cc
weight-moves g (last c) k sense q v w b e = cc
weight-moves g (publish c) k sense q v w b e = cc
weight-moves g (spin c) k sense q v w b e =
    let o : c ≡ b = cc in
    elim v.1 [ inl h ↦ absurd (ground arith) | inr h ↦ spin-sense g k b sense q (sym o ∙ v.0) h ]

module _ (n : ℕ) (small : n < 2 ^ 32) (s : SenseBarrier) (reach : Reach n s) where
  -- Of at least one and fewer than 2^32 threads, in every state that their steps lead to, no thread
  -- has returned from more calls of `wait` than any other has begun: nobody leaves a round before
  -- all have come to it.
  pub returned-le-begun : (i j : ℕ) → i < n → j < n → s.returned i ≤ begun s j
  returned-le-begun i j a b =
      let inv = Reach-Inv n small (omega arith) s reach in
      omega (
        arith,
        returned-le inv.round _ _ (inv.threads i a).view,
        le-begun inv.round _ _ (inv.threads j b).view,
      )

  -- A thread that waits has all of the round before behind it.
  waiting-round :
      (inv : Inv n s) (i : ℕ)
      → i < n
      → (b : Bool) → s.pc i ≡ spin b
      → b ≢ s.sense
      → s.returned i ≡ inv.round
  waiting-round inv i l b e d =
      let v : (b ≡ odd (s.returned i))
          × ((s.returned i ≡ inv.round) ⊎ (suc (s.returned i) ≡ inv.round)) =
        rw e at ((inv.threads i l).view) in
      elim v.1 [
        | inl h ↦ h
        | inr h ↦ absurd (d (spin-sense inv.round (s.returned i) b s.sense inv.sense v.0 h))
      ]

  -- Of fewer than 2^32 threads, in every state that their steps lead to, where a thread waits for
  -- the end of its round there is one that has returned from no more calls and whose next step is
  -- not one more look at the sense.
  pub no_deadlock :
      (i : ℕ)
      → i < n
      → (b : Bool) → s.pc i ≡ spin b
      → b ≢ s.sense
      → (j : ℕ) × (j < n) × CanMove s j × (s.returned j ≤ s.returned i)
  no_deadlock i l b e d =
      let inv = Reach-Inv n small (omega arith) s reach in
      let k = waiting-round inv i l b e d in
      let older : (j : ℕ) → j < n → s.returned j ≤ s.returned i =
        λ j a. omega (arith, k, returned-le inv.round _ _ (inv.threads j a).view) in
      elim inv.phase [
        | closing t a q others ↦ (t, a, (λ c x. cc), older t a)
        | publishing t a q w others ↦ (t, a, (λ c x. cc), older t a)
        | collecting w p word quiet ↦
            (let (j, a, h) = total-pos n (weights inv.round s) (omega arith) in
              (
                j,
                a,
                weight-moves inv.round (s.pc j) (s.returned j) s.sense inv.sense
                    (inv.threads j a).view h,
                older j a,
              ))
      ]
