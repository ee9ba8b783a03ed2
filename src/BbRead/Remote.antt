-- ===== src/BbRead/Remote.antt =====
-- The loop of `pread_noflush` over the holes and the nodes of the global tree, and what it leaves.
use peanuts.Base.{ℕ, ◌+◌, ◌≤◌, ◌<◌, ◌≡◌, ◌∙◌, refl, ◌&&◌, ◌||◌, List, [], ◌∷◌, arith, two64}
use peanuts.Base.{Bool-cases, inl, inr, if◌then◌else◌, false, All, leb, ltb}
use peanuts.Extent.{Extent}
use peanuts.ExtentList.{ExtentList}
use peanuts.ExtentList.Sorted.{covers, IsGapped, IsOrdered}
use peanuts.NodeSet.{Node}
use peanuts.NodeSet.Lookup.{lookup, lookup-after}
use peanuts.Rpm.{Accessed}
use peanuts.BbHandler.{Handler}
use peanuts.BbRead.{Progress, global_loop}
use peanuts.BbRead.RemotePart.{bytes_from, IsPlaced, remote_or, filled, filled-IsGapped}
use peanuts.BbRead.RemotePart.{filled-noted, filled-bytes}
use peanuts.BbRead.LocalLoop.{is_some}
use peanuts.NodeSet.Order.{IsNodes}

module _ (ofs : ℕ) (rring_pread : ℕ → Accessed → ℕ → ℕ → List ℕ × Accessed) (remote : ℕ → ℕ → ℕ)
    (limit : ℕ → ℕ)
    (reads : (r : ℕ) (acc : Accessed) (n lsn : ℕ)
      → 0 < n
      → n ≤ limit r
      → (rring_pread r acc n lsn).0 ≡ bytes_from (remote r) n lsn) where
  -- The holes `xs` are filled as far as the nodes `ns` go.
  pub record IsFilled (xs : ExtentList) (ns : List Node) (old new : Progress) : Type 0 where
    pub gapped : IsGapped 0 new.el
    pub noted :
        (q : ℕ) → covers new.el q ≡ ((covers xs q && is_some (lookup ns q)) || covers old.el q)
    pub bytes :
        (i : ℕ)
        → new.buf i ≡ (
            if covers xs (ofs + i)
            then remote_or remote (lookup ns (ofs + i)) (old.buf i)
            else old.buf i)

  -- What lies before a list of holes is not in it.
  covers-before :
      (lo : ℕ) (xs : ExtentList) (q : ℕ) → IsOrdered lo xs → q < lo → covers xs q ≡ false
  covers-before lo [] q o l = refl
  covers-before lo (x ∷ xs) q o l = ground (arith, covers-before x.end xs q o.2)

  -- Holes and nodes that a round may skip.
  skip-hole :
      (x : Extent) (xs : ExtentList) (n : Node) (ns : List Node) (old new : Progress)
      → IsNodes n.ex.begin (n ∷ ns)
      → x.end ≤ n.ex.begin
      → IsFilled xs (n ∷ ns) old new
      → IsFilled (x ∷ xs) (n ∷ ns) old new
  skip-hole x xs n ns old new g l r = record {
    gapped = r.gapped;
    noted = λ q. ground (arith, r.noted q, lookup-after n.ex.begin (n ∷ ns) q g);
    bytes = λ i. r.bytes i ∙ ground (arith, lookup-after n.ex.begin (n ∷ ns) (ofs + i) g);
  }

  skip-node :
      (x : Extent) (xs : ExtentList) (n : Node) (ns : List Node) (old new : Progress)
      → IsOrdered x.begin (x ∷ xs)
      → n.ex.end ≤ x.begin
      → IsFilled (x ∷ xs) ns old new
      → IsFilled (x ∷ xs) (n ∷ ns) old new
  skip-node x xs n ns old new o l r = record {
    gapped = r.gapped;
    noted = λ q. ground (arith, r.noted q, covers-before x.begin (x ∷ xs) q o);
    bytes = λ i. r.bytes i ∙ ground (arith, covers-before x.begin (x ∷ xs) (ofs + i) o);
  }

  module _ (x : Extent) (xs : ExtentList) (n : Node) (ns : List Node) (p : Progress)
      (low : ofs ≤ x.begin) (o : IsOrdered x.begin (x ∷ xs)) (word : x.end < two64)
      (g : IsNodes n.ex.begin (n ∷ ns)) (placed : IsPlaced limit n) (starts : n.ex.begin < x.end)
      (ends : x.begin < n.ex.end) where
    abbrev part_filled : Progress
    part_filled =
        filled ofs rring_pread remote limit reads x n low o.1 word g.1.0 g.1.1 placed starts ends p

    -- The node goes on behind the hole.
    part-of-hole :
        {new : Progress}
        → x.end < n.ex.end
        → IsGapped 0 p.el
        → IsFilled (xs) (n ∷ ns) part_filled new
        → IsFilled (x ∷ xs) (n ∷ ns) p new
    part-of-hole l e r = record {
      gapped = r.gapped;
      noted = λ q. ground (
        arith,
        r.noted q,
        filled-noted ofs rring_pread remote limit reads x n low o.1 word g.1.0 g.1.1 placed starts
            ends p q e,
        covers-before x.end xs q o.2,
        lookup-after n.ex.end ns q g.2,
      );
      bytes = λ i.
          r.bytes i
          ∙ ground (
            arith,
            filled-bytes ofs rring_pread remote limit reads x n low o.1 word g.1.0 g.1.1 placed
                starts ends p i,
            covers-before x.end xs (ofs + i) o.2,
            lookup-after n.ex.end ns (ofs + i) g.2,
          );
    }

    -- The hole goes on behind the node.
    part-of-node :
        {new : Progress}
        → n.ex.end < x.end
        → IsGapped 0 p.el
        → IsFilled (x ∷ xs) (ns) part_filled new
        → IsFilled (x ∷ xs) (n ∷ ns) p new
    part-of-node l e r = record {
      gapped = r.gapped;
      noted = λ q. ground (
        arith,
        r.noted q,
        filled-noted ofs rring_pread remote limit reads x n low o.1 word g.1.0 g.1.1 placed starts
            ends p q e,
        covers-before x.end xs q o.2,
        lookup-after n.ex.end ns q g.2,
      );
      bytes = λ i.
          r.bytes i
          ∙ ground (
            arith,
            filled-bytes ofs rring_pread remote limit reads x n low o.1 word g.1.0 g.1.1 placed
                starts ends p i,
            covers-before x.end xs (ofs + i) o.2,
            lookup-after n.ex.end ns (ofs + i) g.2,
          );
    }

    -- Both end here.
    whole-part :
        {new : Progress}
        → x.end ≡ n.ex.end
        → IsGapped 0 p.el
        → IsFilled (xs) (ns) part_filled new
        → IsFilled (x ∷ xs) (n ∷ ns) p new
    whole-part l e r = record {
      gapped = r.gapped;
      noted = λ q. ground (
        arith,
        r.noted q,
        filled-noted ofs rring_pread remote limit reads x n low o.1 word g.1.0 g.1.1 placed starts
            ends p q e,
        covers-before x.end xs q o.2,
        lookup-after n.ex.end ns q g.2,
      );
      bytes = λ i.
          r.bytes i
          ∙ ground (
            arith,
            filled-bytes ofs rring_pread remote limit reads x n low o.1 word g.1.0 g.1.1 placed
                starts ends p i,
            covers-before x.end xs (ofs + i) o.2,
            lookup-after n.ex.end ns (ofs + i) g.2,
          );
    }

  pub global_loop-IsFilled :
      (disp : ℕ) (h : Handler) (count lo hi : ℕ) (xs : ExtentList) (ns : List Node) (p : Progress)
      → ofs ≤ lo
      → IsOrdered lo xs
      → All (λ (x : Extent). x.end < two64) xs
      → IsNodes hi ns
      → All (IsPlaced limit) ns
      → IsGapped 0 p.el
      → IsFilled xs ns p (global_loop disp h ofs count rring_pread xs ns p)
  unfolding global_loop filled
  global_loop-IsFilled disp h count lo hi [] ns p low o w g a e = record {
    gapped = e;
    noted = λ q. refl;
    bytes = λ i. refl;
  }
  global_loop-IsFilled disp h count lo hi (x ∷ xs) [] p low o w g a e = record {
    gapped = e;
    noted = λ q. ground arith;
    bytes = λ i. ground arith;
  }
  global_loop-IsFilled disp h count lo hi (x ∷ xs) (n ∷ ns) p low o w g a e =
      elim (Bool-cases (leb x.end n.ex.begin)) [
        | inl j ↦
            rw (j, global_loop)
              (skip-hole x xs n ns p _ (omega arith, g.1, g.2) (ground arith)
                (global_loop-IsFilled disp h count x.end hi xs (n ∷ ns) p (omega arith) o.2 w.1 g a
                  e))
        | inr j ↦ elim (Bool-cases (leb n.ex.end x.begin)) [
          | inl k ↦
              rw (j, k, global_loop)
                (skip-node x xs n ns p _ (omega arith, o.1, o.2) (ground arith)
                  (global_loop-IsFilled disp h count lo n.ex.end (x ∷ xs) ns p low o w g.2 a.1 e))
          | inr k ↦
              (let low' : ofs ≤ x.begin = omega arith in
                let o' : IsOrdered x.begin (x ∷ xs) = (omega arith, o.1, o.2) in
                let g' : IsNodes n.ex.begin (n ∷ ns) = (omega arith, g.1, g.2) in
                let starts : n.ex.begin < x.end = ground arith in
                let ends : x.begin < n.ex.end = ground arith in
                let f = part_filled x xs n ns p low' o' w.0 g' a.0 starts ends in
                let e' =
                  filled-IsGapped ofs rring_pread remote limit reads x n low' o.1 w.0 g.1.0 g.1.1
                    a.0 starts ends p e in
                elim (Bool-cases (ltb x.end n.ex.end)) [
                  | inl t ↦
                      rw (j, k, t, global_loop)
                        (part-of-hole x xs n ns p low' o' w.0 g' a.0 starts ends (ground arith) e (
                          global_loop-IsFilled disp h count x.end hi xs (n ∷ ns) f (omega arith) o.2
                            w.1 g a e'))
                  | inr t ↦ elim (Bool-cases (ltb n.ex.end x.end)) [
                    | inl u ↦
                        rw (j, k, t, u, global_loop)
                          (part-of-node x xs n ns p low' o' w.0 g' a.0 starts ends (ground arith) e
                            (global_loop-IsFilled disp h count lo n.ex.end (x ∷ xs) ns f low o w g.2
                              a.1 e'))
                    | inr u ↦
                        rw (j, k, t, u, global_loop)
                          (whole-part x xs n ns p low' o' w.0 g' a.0 starts ends (ground arith) e (
                            global_loop-IsFilled disp h count x.end n.ex.end xs ns f (omega arith)
                              o.2 w.1 g.2 a.1 e'))
                  ]
                ])
        ]
      ]
