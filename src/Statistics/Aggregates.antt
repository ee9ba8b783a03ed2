-- ===== src/Statistics/Aggregates.antt =====
-- What `from_range` gives, for the values of several threads.
use peanuts.Base.{ℕ, ◌+◌, ◌<◌, ◌≡◌, ◌⊎◌, ◌∙◌, refl, List, [], ◌∷◌, All, arith, inl, inr, two64}
use peanuts.Base.{add64, ap, lt→ltb, le→ltb, ◌==◌, false}
use peanuts.Statistics.{Double, Welford, ok, err, mean_undefined, mean, totals, spread, from_range}
use peanuts.Statistics.{aggregate, no_data}
use native.Mathlib.Decide.{dec_lt}

module _ (d : Double) where
  open d use {Float}

  abbrev pub count : List (Welford d) → ℕ
  count [] = 0
  count (w ∷ ws) = w.n + count ws

  -- One of the entries has no values.
  abbrev pub HasEmpty : List (Welford d) → Type 0
  HasEmpty [] = ⊥
  HasEmpty (w ∷ ws) = (w.n ≡ 0) ⊎ HasEmpty ws

  abbrev pub AreFilled : List (Welford d) → Type 0
  AreFilled ws = All (λ (w : Welford d). 0 < w.n) ws

  filled-or-empty : (ws : List (Welford d)) → AreFilled ws ⊎ HasEmpty ws
  filled-or-empty [] = inl tt
  filled-or-empty (w ∷ ws) = elim (dec_lt 0 w.n) [
    | no z ↦ inr (inl (omega arith))
    | yes p ↦ elim (filled-or-empty ws) [ inl f ↦ inl (p, f) | inr e ↦ inr (inr e) ]
  ]

  mean-filled : (w : Welford d) → 0 < w.n → mean d w ≡ ok w.mean
  unfolding mean
  mean-filled w h = rw (le→ltb w.n 1 (omega arith))

  mean-empty : (w : Welford d) → w.n ≡ 0 → mean d w ≡ err mean_undefined
  unfolding mean
  mean-empty w h = rw (lt→ltb w.n 1 (omega arith))

  totals-empty :
      (ws : List (Welford d)) (n : ℕ) (t : Float)
      → HasEmpty ws
      → totals d ws n t ≡ err mean_undefined
  unfolding totals
  totals-empty [] n t e = absurd e
  totals-empty (w ∷ ws) n t e = elim (dec_lt 0 w.n) [
    | no z ↦ rw (mean-empty w (omega arith)) refl
    | yes p ↦ elim e [
      | inl z ↦ absurd (omega arith)
      | inr r ↦ rw (mean-filled w p) (totals-empty ws _ _ r)
    ]
  ]

  totals-filled :
      (ws : List (Welford d)) (n : ℕ) (t : Float)
      → AreFilled ws
      → n + count ws < two64
      → (t' : Float) × (totals d ws n t ≡ ok (n + count ws, t'))
  unfolding totals
  totals-filled [] n t f l = (t, ap (λ (k : ℕ). ok (k, t)) (omega arith))
  totals-filled (w ∷ ws) n t f l =
      let e : add64 n w.n ≡ n + w.n = omega arith in
      let x = d.plus t (d.times w.mean (d.of_size w.n)) in
      let i = totals-filled ws (n + w.n) x f.1 (omega arith) in
      let o : n + w.n + count ws ≡ n + count (w ∷ ws) = omega arith in
      (
        i.0,
        rw (mean-filled w f.0)
            (ap (λ (k : ℕ). totals d ws k x) e ∙ i.1 ∙ ap (λ (k : ℕ). ok (k, i.0)) o),
      )

  spread-filled :
      (grand : Float) (ws : List (Welford d)) (t : Float)
      → AreFilled ws
      → (t' : Float) × (spread d grand ws t ≡ ok t')
  unfolding spread
  spread-filled grand [] t f = (t, refl)
  spread-filled grand (w ∷ ws) t f =
      let off = d.minus w.mean grand in
      let x = d.plus t (d.plus w.m2 (d.times (d.times (d.of_size w.n) off) off)) in
      let i = spread-filled grand ws x f.1 in (i.0, rw (mean-filled w f.0) i.1)

  -- Filled entries with a value in all have an aggregate, of as many values.
  aggregate-filled :
      (ws : List (Welford d)) (n : ℕ) (t : Float)
      → AreFilled ws
      → 0 < n
      → (w : Welford d) × (aggregate d ws (n, t) ≡ ok w) × (w.n ≡ n)
  unfolding aggregate
  aggregate-filled ws n t f p =
      let grand = d.divide t (d.of_size n) in
      let i = spread-filled grand ws d.zero f in
      let z : (n == 0) ≡ false = ground arith in
      (record { n = n; mean = grand; m2 = i.0 }, rw (z, i.1) refl, refl)

  count-pos : (w : Welford d) (ws : List (Welford d)) → AreFilled (w ∷ ws) → 0 < count (w ∷ ws)
  count-pos w ws f = let p = f.0 in omega arith

  -- Where there are fewer than 2^64 values in all, `from_range` ends in one of three ways: without
  -- entries it says that there is no data; where one entry has no values, it says that the mean is
  -- undefined; else it gives an aggregate with the number of all values.
  pub from_range_lem :
      (ws : List (Welford d))
      → count ws < two64
      → ((ws ≡ []) × (from_range d ws ≡ err no_data))
        ⊎ (HasEmpty ws × (from_range d ws ≡ err mean_undefined))
        ⊎ (AreFilled ws × (w : Welford d) × (from_range d ws ≡ ok w) × (w.n ≡ count ws))
  unfolding from_range aggregate
  from_range_lem [] l = inl (refl, refl)
  from_range_lem (w ∷ ws) l = inr (elim (filled-or-empty (w ∷ ws)) [
    | inr e ↦ inl (e, rw (totals-empty (w ∷ ws) 0 d.zero e) refl)
    | inl f ↦
        let t = totals-filled (w ∷ ws) 0 d.zero f (omega arith) in
        let z : 0 + count (w ∷ ws) ≡ count (w ∷ ws) = omega arith in
        let e : totals d (w ∷ ws) 0 d.zero ≡ ok (count (w ∷ ws), t.0) =
          t.1 ∙ ap (λ (k : ℕ). ok (k, t.0)) z in
        let a = aggregate-filled (w ∷ ws) (count (w ∷ ws)) t.0 f (count-pos w ws f) in
        inr (f, a.0, rw e a.1, a.2)
  ])
