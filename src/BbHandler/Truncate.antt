-- ===== src/BbHandler/Truncate.antt =====
-- `size` and `truncate`.
use peanuts.Base.{ℕ, ◌-◌, ◌≤◌, ◌<◌, ◌≡◌, ◌≢◌, ◌∙◌, refl, none, List, [], ◌∷◌, arith, two64, true}
use peanuts.Base.{Bool-cases, ltb, if◌then◌else◌, inl, ltb→lt, inr}
use peanuts.NodeSet.{Node}
use peanuts.NodeSet.Order.{IsNodes}
use peanuts.NodeSet.Lookup.{lookup}
use peanuts.ExtentTree.{ExtentTree, back}
use peanuts.ExtentTree.Remove.{lookup-remove, remove-IsNodes}
use peanuts.BbHandler.{Handler, ok, truncate, cut_tree, end_of, size}
use native.Mathlib.Decide.{dec_lt}

end_of-cons : (e f : Node) (es : List Node) → end_of (e ∷ f ∷ es) ≡ end_of (f ∷ es)
unfolding end_of back
end_of-cons e f es = refl

end_of-one : (e : Node) → end_of (e ∷ []) ≡ e.ex.end
unfolding end_of back
end_of-one e = refl

end_of-nil : end_of [] ≡ 0
unfolding end_of back
end_of-nil = refl

first-le : (lo : ℕ) (e : Node) (es : List Node) → IsNodes lo (e ∷ es) → e.ex.end ≤ end_of (e ∷ es)
first-le lo e [] g = omega (arith, end_of-one e)
first-le lo e (f ∷ es) g = omega (arith, end_of-cons e f es, first-le e.ex.end f es g.2)

-- Every offset that the tree answers for lies before its end.
pub lookup-beyond :
    (lo : ℕ) (t : ExtentTree) (p : ℕ) → IsNodes lo t → end_of t ≤ p → lookup t p ≡ none
lookup-beyond lo [] p g h = refl
lookup-beyond lo (e ∷ []) p g h = ground (arith, end_of-one e)
lookup-beyond lo (e ∷ f ∷ es) p g h =
    ground
      (arith, end_of-cons e f es, first-le lo e (f ∷ es) g, lookup-beyond e.ex.end (f ∷ es) p g.2)

-- The last offset before the end is answered for.
lookup-last :
    (lo : ℕ) (t : ExtentTree) → IsNodes lo t → 0 < end_of t → lookup t (end_of t - 1) ≢ none
lookup-last lo [] g h = absurd (omega (arith, end_of-nil))
lookup-last lo (e ∷ []) g h = ground (arith, end_of-one e)
lookup-last lo (e ∷ f ∷ es) g h =
    ground
      (arith, end_of-cons e f es, lookup-last e.ex.end (f ∷ es) g.2, first-le e.ex.end f es g.2)

-- A tree that answers for nothing from `n` on ends there at the latest.
end_of-le :
    (t : ExtentTree) (n : ℕ) → IsNodes 0 t → ((p : ℕ) → n ≤ p → lookup t p ≡ none) → end_of t ≤ n
end_of-le t n g h = elim (dec_lt n (end_of t)) [
  | yes l ↦ absurd (lookup-last 0 t g (omega arith) (h (end_of t - 1) (omega arith)))
  | no l ↦ omega arith
]

end_of-lt : (lo : ℕ) (t : ExtentTree) → IsNodes lo t → end_of t < two64
end_of-lt lo [] g = omega (arith, end_of-nil)
end_of-lt lo (e ∷ []) g = omega (arith, end_of-one e)
end_of-lt lo (e ∷ f ∷ es) g = omega (arith, end_of-cons e f es, end_of-lt e.ex.end (f ∷ es) g.2)

-- Cutting a tree off at `n` keeps what it says before `n`, and nothing else.
cut_tree-lookup :
    (t : ExtentTree) (n p : ℕ)
    → IsNodes 0 t
    → IsNodes 0 (cut_tree t n) × (lookup (cut_tree t n) p ≡ (if ltb p n then lookup t p else none))
unfolding cut_tree
cut_tree-lookup t n p g = elim (Bool-cases (ltb n (end_of t))) [
  | inl c ↦
      let l : n < two64 - 1 = omega (arith, ltb→lt n (end_of t) c, end_of-lt 0 t g) in
      rw c (
        remove-IsNodes t n (two64 - 1) g l (omega arith),
        lookup-remove t n (two64 - 1) g l (omega arith) p
            ∙ ground (arith, lookup-beyond 0 t p g, end_of-lt 0 t g),
      )
  | inr c ↦ rw c (g, ground (arith, lookup-beyond 0 t p g))
]

-- Where rank 0 could cut the file off and both trees are in order, `truncate` sets the size of the
-- file to the one asked for, keeps both trees in order, keeps their answers before the cut, and
-- leaves none behind it.
pub truncate_lem :
    (h h' : Handler) (n : ℕ)
    → IsNodes 0 h.local_tree
    → IsNodes 0 h.global_tree
    → truncate true h n ≡ ok h'
    → (size h' ≡ n)
      × IsNodes 0 h'.local_tree
      × IsNodes 0 h'.global_tree
      × ((p : ℕ) → lookup h'.local_tree p ≡ (if ltb p n then lookup h.local_tree p else none))
      × ((p : ℕ) → lookup h'.global_tree p ≡ (if ltb p n then lookup h.global_tree p else none))
unfolding truncate size
truncate_lem h h' n l g e =
    let s : h' ≡ record h {
      local_tree = cut_tree h.local_tree n;
      global_tree = cut_tree h.global_tree n;
      deferred_file_size = n;
    } =
      cc in
    rw s (
      omega (arith, cut-end h.local_tree l, cut-end h.global_tree g),
      (cut_tree-lookup h.local_tree n 0 l).0,
      (cut_tree-lookup h.global_tree n 0 g).0,
      (λ p. (cut_tree-lookup h.local_tree n p l).1),
      (λ p. (cut_tree-lookup h.global_tree n p g).1),
    )
  where
    cut-end : (t : ExtentTree) → IsNodes 0 t → end_of (cut_tree t n) ≤ n
    cut-end t o =
        end_of-le (cut_tree t n) n (cut_tree-lookup t n 0 o).0
          (λ p q. (cut_tree-lookup t n p o).1 ∙ ground arith)
