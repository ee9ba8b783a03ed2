-- ===== src/ExtentTree/Insert.antt =====
-- The loop of `do_insert` and the insertion behind it.
use peanuts.Base.{ℕ, zero, suc, ◌≤◌, ◌<◌, ◌+◌, ◌≡◌, ◌∙◌, refl, List, [], ◌∷◌, false, arith, length}
use peanuts.Base.{some, none}
use peanuts.NodeSet.{Node, Cursor, cursor, insert}
use peanuts.NodeSet.Order.{IsNode, IsNodes, IsBefore, IsAt, Reaches, insert-fresh, insert-over}
use peanuts.NodeSet.Order.{IsNodes-weaken, IsBefore-weaken}
use peanuts.NodeSet.Lookup.{lookup_at}
use peanuts.ExtentTree.{carve_node, carve_loop, carve, hit}
use peanuts.Extent.Points.{contains}
use peanuts.ExtentTree.Carve.{meet, apart, inside, front, rear, whole, part, front_part, rear_part}
use peanuts.ExtentTree.Carve.{carve_node-inside, carve_node-front, carve_node-rear, carve_node-all}
use peanuts.ExtentTree.Carve.{lookup-inside, lookup-front, lookup-rear, lookup-all}

-- `v` stands at the iterator, in order, and nothing changed outside it.
pub record IsInserted (v : Node) (old new : Cursor) : Type 0 where
  pub bs : List Node
  pub es : List Node
  pub at : new ≡ cursor bs (v ∷ es)
  pub before : IsBefore v.ex.begin bs
  pub after : IsNodes v.ex.end es
  pub keeps : (p : ℕ) → contains v.ex p ≡ false → lookup_at (cursor bs es) p ≡ lookup_at old p

pub IsInserted-keeps :
    (v : Node) {mid old new : Cursor}
    → IsInserted v mid new
    → ((p : ℕ) → contains v.ex p ≡ false → lookup_at mid p ≡ lookup_at old p)
    → IsInserted v old new
IsInserted-keeps v i h = record {
  bs = i.bs;
  es = i.es;
  at = i.at;
  before = i.before;
  after = i.after;
  keeps = λ p q. i.keeps p q ∙ h p q;
}

-- Where the node at the iterator is not overlapped, the loop has ended.
pub carve_loop-stop : (f : ℕ) (v : Node) (c : Cursor) → hit v c.after ≡ none → carve_loop f v c ≡ c
unfolding carve_loop
carve_loop-stop zero v c h = refl
carve_loop-stop (suc f) v c h = rw (h, carve_loop)

pub hit-none : (v : Node) (es : List Node) → IsNodes v.ex.end es → hit v es ≡ none
unfolding hit
hit-none v [] g = refl
hit-none v (e ∷ es) g = ground arith

pub hit-some :
    (v e : Node) (es : List Node)
    → v.ex.begin < e.ex.end
    → e.ex.begin < v.ex.end
    → hit v (e ∷ es) ≡ some e
unfolding hit
hit-some v e es g h = ground arith

-- One round at a node that is overlapped.
pub carve_loop-round :
    (f : ℕ) (v e : Node) (bs es : List Node)
    → v.ex.begin < e.ex.end
    → e.ex.begin < v.ex.end
    → carve_loop (suc f) v (cursor bs (e ∷ es))
      ≡ carve_loop f v (carve_node v e (cursor bs (e ∷ es))).0
unfolding carve_loop
carve_loop-round f v e bs es g h = rw (hit-some v e es g h, carve_loop)

pub Reaches-after : (p lo : ℕ) (es : List Node) → p ≤ lo → IsNodes lo es → Reaches p es
Reaches-after p lo [] h g = tt
Reaches-after p lo (e ∷ es) h g = omega arith

module _ (v : Node) (node : IsNode v) where
  settled :
      (f : ℕ) (bs es : List Node)
      → IsBefore v.ex.begin bs
      → IsNodes v.ex.end es
      → insert v (carve_loop f v (cursor bs es)) ≡ cursor bs (v ∷ es)
  settled f bs es b g =
      rw (carve_loop-stop f v (cursor bs es) (hit-none v es g)) (insert-fresh v node bs es b g)

  over :
      (f : ℕ) (bs es : List Node) (n : Node)
      → IsBefore v.ex.begin bs
      → v.ex.end ≤ n.ex.begin
      → IsNode n
      → IsNodes n.ex.end es
      → insert v (carve_loop f v (cursor (n ∷ bs) es)) ≡ cursor bs (v ∷ n ∷ es)
  over f bs es n b h k g =
      let g' : IsNodes v.ex.end es = IsNodes-weaken v.ex.end n.ex.end es (omega arith) g in
      rw (carve_loop-stop f v (cursor (n ∷ bs) es) (hit-none v es g'))
        (insert-over v node bs es n b h k g)

  -- The loop ends within as many rounds as there are nodes behind the iterator, and `v` then goes
  -- to its place.
  pub carve_loop-IsInserted :
      (f : ℕ) (hi : ℕ) (bs es : List Node)
      → length es ≤ f
      → hi ≤ v.ex.begin
      → IsBefore hi bs
      → IsNodes hi es
      → Reaches v.ex.begin es
      → IsInserted v (cursor bs es) (insert v (carve_loop f v (cursor bs es)))
  carve_loop-IsInserted f hi bs [] l h b g r = record {
    bs = bs;
    es = [];
    at = settled f bs [] (IsBefore-weaken hi v.ex.begin bs h b) tt;
    before = IsBefore-weaken hi v.ex.begin bs h b;
    after = tt;
    keeps = λ p q. refl;
  }
  carve_loop-IsInserted zero hi bs (e ∷ es) l h b g r = absurd (omega arith)
  carve_loop-IsInserted (suc f) hi bs (e ∷ es) l h b g r = elim (meet v e) [
    | apart t ↦
        let g' : IsNodes v.ex.end (e ∷ es) = (t, g.1, g.2) in
        record {
          bs = bs;
          es = e ∷ es;
          at = settled (suc f) bs (e ∷ es) (IsBefore-weaken hi v.ex.begin bs h b) g';
          before = IsBefore-weaken hi v.ex.begin bs h b;
          after = g';
          keeps = λ p q. refl;
        }
    | inside a c ↦
        let b' : IsBefore e.ex.begin bs = IsBefore-weaken hi e.ex.begin bs g.0 b in
        let bf : IsBefore v.ex.begin (front_part v e ∷ bs) =
          (omega arith, (omega arith, omega arith), b') in
        let g' : IsNodes v.ex.end (rear_part v e ∷ es) =
          (omega arith, (omega arith, omega arith), g.2) in
        rw
          (
            carve_loop-round f v e bs es r (omega arith),
            carve_node-inside v e bs es node g.1 b' g.2 a c,
          )
          (record {
            bs = front_part v e ∷ bs;
            es = rear_part v e ∷ es;
            at = settled f (front_part v e ∷ bs) (rear_part v e ∷ es) bf g';
            before = bf;
            after = g';
            keeps = λ p q. lookup-inside v e bs es p g.1 q b' a node.0 c;
          })
    | front a c ↦
        let b' : IsBefore e.ex.begin bs = IsBefore-weaken hi e.ex.begin bs g.0 b in
        let bf : IsBefore v.ex.begin (front_part v e ∷ bs) =
          (omega arith, (omega arith, omega arith), b') in
        rw
          (
            carve_loop-round f v e bs es r (omega arith),
            carve_node-front v e bs es node g.1 b' g.2 a r c,
          )
          (IsInserted-keeps v
            (carve_loop-IsInserted f v.ex.begin (front_part v e ∷ bs) es (omega arith) (omega arith)
              bf (IsNodes-weaken v.ex.begin e.ex.end es (omega arith) g.2)
              (Reaches-after v.ex.begin e.ex.end es (omega arith) g.2))
            (λ p q. lookup-front v e bs es p g.1 q b' r a c))
    | rear a t c ↦
        let b' : IsBefore v.ex.begin bs = IsBefore-weaken hi v.ex.begin bs h b in
        let n : Node = part e v.ex.end e.ex.end in
        let g' : IsNodes v.ex.end (n ∷ es) = (omega arith, (omega arith, omega arith), g.2) in
        rw
          (
            carve_loop-round f v e bs es r t,
            carve_node-rear v e bs es node g.1
                (IsBefore-weaken v.ex.begin v.ex.end bs (omega arith) b') g.2 a c,
          )
          (record {
            bs = bs;
            es = n ∷ es;
            at = over f bs es n b' (omega arith) g'.1 g.2;
            before = b';
            after = g';
            keeps = λ p q. lookup-rear v e bs es p g.1 q hi b g.0 a t c;
          })
    | whole a t c ↦
        rw (carve_loop-round f v e bs es r t, carve_node-all v e bs es node g.1 a c)
          (IsInserted-keeps v
            (carve_loop-IsInserted f hi bs es (omega arith) h b
              (IsNodes-weaken hi e.ex.end es (omega arith) g.2)
              (Reaches-after v.ex.begin e.ex.end es (omega arith) g.2))
            (λ p q. lookup-all v e bs es p g.1 q a c))
  ]

  -- `do_insert` up to the insertion, from the place that `lower_bound` gives.
  pub insert-carve-IsInserted : (c : Cursor) → IsAt v c → IsInserted v c (insert v (carve v c))
  unfolding carve
  insert-carve-IsInserted c i =
      carve_loop-IsInserted (length c.after + 2) i.hi c.before c.after (omega arith) i.hi-le
        i.before i.after i.reaches
