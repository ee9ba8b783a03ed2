-- ===== src/Cluster/Gathered.antt =====
-- The trees gathered of the processes, and what the last of them that has an answer says.
use peanuts.Base.{
  ℕ, zero, suc, ◌≤◌, ◌<◌, ◌≡◌, ◌∙◌, ap, some, none, List, [], ◌∷◌, ◌++◌, arith, refl, Option, ap₂,
}
use peanuts.NodeSet.Lookup.{Place, lookup, first}
use peanuts.ExtentTree.{ExtentTree}
use peanuts.BbHandler.{Handler}
use peanuts.BbHandler.Sync.{answer}
use peanuts.BbHandler.Write.{local_byte, byte_at}
use peanuts.Cluster.{Cluster, handler_of, trees_of}
use peanuts.Cluster.Consistent.{IsConsistent, Refines, place_byte}
use peanuts.Cluster.Spec.{Spec, latest, or_else}

pub trees_of-cons :
    (local : ℕ → Handler) (n : ℕ)
    → 0 < n
    → (t : ExtentTree) × (ts : List ExtentTree) × (trees_of local n ≡ t ∷ ts)
unfolding trees_of
trees_of-cons local zero h = absurd (omega arith)
trees_of-cons local (suc zero) h = ((local 0).local_tree, [], refl)
trees_of-cons local (suc (suc n)) h =
    let i = trees_of-cons local (suc n) (omega arith) in
    (i.0, i.1 ++ (local (suc n)).local_tree ∷ [], rw i.2)

answer-append :
    (xs : List ExtentTree) (x : ExtentTree) (p : ℕ) (o : Option Place)
    → answer (xs ++ x ∷ []) p o ≡ first (lookup x p) (answer xs p o)
answer-append [] x p o = refl
answer-append (y ∷ ys) x p o = answer-append ys x p (first (lookup y p) o)

place_byte-first :
    (c : Cluster) (a b : Option Place)
    → place_byte c (first a b) ≡ or_else (place_byte c a) (place_byte c b)
place_byte-first c none b = refl
place_byte-first c (some (v, a)) b = refl

module _ (c : Cluster) (g : ExtentTree) (consistent : IsConsistent c g) where
  -- The place that a rank's own tree names is in its own ring.
  place_byte-local :
      (r p : ℕ)
      → r < c.size
      → place_byte c (lookup (c.local r).local_tree p) ≡ local_byte (c.disp r) (handler_of c r) p
  unfolding handler_of
  place_byte-local r p l =
      at_place (lookup (c.local r).local_tree p) (λ v a e. consistent.own r p v a l e)
    where
      at_place :
          (o : Option Place)
          → ((v a : ℕ) → o ≡ some (v, a) → v ≡ r)
          → place_byte c o ≡ byte_at (c.disp r) (c.memory (c.node r)) (c.local r).ring.ring_size o
      at_place none k = refl
      at_place (some (v, a)) k = rw (consistent.sized r l, k v a refl)

  module _ (s : Spec) (refines : Refines c g s) where
    -- The gathered trees say what the specification says of the first `n` ranks.
    pub place_byte-answer :
        (n p : ℕ)
        → n ≤ c.size
        → place_byte c (answer (trees_of c.local n) p (lookup g p)) ≡ latest n s p
    unfolding trees_of
    place_byte-answer zero p l = refines.committed p
    place_byte-answer (suc n) p l =
        let x = lookup (c.local n).local_tree p in
        let y = answer (trees_of c.local n) p (lookup g p) in
        ap (place_byte c) (answer-append (trees_of c.local n) (c.local n).local_tree p (lookup g p))
        ∙ place_byte-first c x y
        ∙ ap₂ or_else (place_byte-local n p (omega arith) ∙ refines.pending n p (omega arith))
            (place_byte-answer n p (omega arith))

  -- What the answer names is between tail and head of a ring.
  abbrev pub IsLive : Option Place → Type 0
  IsLive o =
      (v a : ℕ)
      → o ≡ some (v, a)
      → (v < c.size) × ((c.local v).ring.tail_lsn ≤ a) × (a < (c.local v).ring.head_lsn)

  first-IsLive : (x y : Option Place) → IsLive x → IsLive y → IsLive (first x y)
  first-IsLive none y h k = k
  first-IsLive (some x) y h k = h

  local-IsLive : (r p : ℕ) → r < c.size → IsLive (lookup (c.local r).local_tree p)
  local-IsLive r p l v a e =
      let o = consistent.own r p v a l e in
      let b : ((c.local r).ring.tail_lsn ≤ a) × (a < (c.local r).ring.head_lsn) =
        unfold handler_of in (consistent.ready r l).live p v a e in
      rw o (l, b.0, b.1)

  pub answer-IsLive : (n p : ℕ) → n ≤ c.size → IsLive (answer (trees_of c.local n) p (lookup g p))
  unfolding trees_of
  answer-IsLive zero p l = consistent.live p
  answer-IsLive (suc n) p l =
      rw (answer-append (trees_of c.local n) (c.local n).local_tree p (lookup g p)) (
        first-IsLive (lookup (c.local n).local_tree p) (answer (trees_of c.local n) p (lookup g p))
          (local-IsLive n p (omega arith)) (answer-IsLive n p (omega arith)))
