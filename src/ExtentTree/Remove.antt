-- ===== src/ExtentTree/Remove.antt =====
-- `remove`.
use peanuts.Base.{ℕ, ap, Bool, zero, suc, ◌+◌, ◌≤◌, ◌<◌, ◌≡◌, ◌∙◌, List, [], ◌∷◌, none, true, false}
use peanuts.Base.{refl, arith, two64, if◌then◌else◌, length}
use peanuts.NodeSet.{Node, Cursor, cursor, make_node, rewind, to_list, lower_bound}
use peanuts.NodeSet.Order.{IsNode, IsNodes, IsBefore, Reaches, IsNodes-weaken, IsBefore-weaken}
use peanuts.NodeSet.Order.{lower_bound-IsAt, to_list-lower_bound}
use peanuts.NodeSet.Lookup.{lookup, lookup_at, lookup-before, lookup-after, lookup-to_list}
use peanuts.Extent.Points.{contains}
use peanuts.ExtentTree.{ExtentTree, remove, remove_loop, carve_node, hit}
use peanuts.ExtentTree.Insert.{hit-none, hit-some, Reaches-after}
use peanuts.ExtentTree.Carve.{meet, apart, inside, front, rear, whole, part, front_part, rear_part}
use peanuts.ExtentTree.Carve.{carve_node-inside, carve_node-front, carve_node-rear, carve_node-all}
use peanuts.ExtentTree.Carve.{lookup-inside, lookup-front, lookup-rear, lookup-all}
use peanuts.ExtentTree.Add.{rewind-IsNodes}

-- The set has a gap at `v`, and nothing changed outside it.
record IsRemoved (v : Node) (old new : Cursor) : Type 0 where
  bs : List Node
  es : List Node
  list : to_list new ≡ rewind bs es
  before : IsBefore v.ex.begin bs
  after : IsNodes v.ex.end es
  keeps : (p : ℕ) → contains v.ex p ≡ false → lookup_at (cursor bs es) p ≡ lookup_at old p

IsRemoved-keeps :
    (v : Node) {mid old new : Cursor}
    → IsRemoved v mid new
    → ((p : ℕ) → contains v.ex p ≡ false → lookup_at mid p ≡ lookup_at old p)
    → IsRemoved v old new
IsRemoved-keeps v i h = record {
  bs = i.bs;
  es = i.es;
  list = i.list;
  before = i.before;
  after = i.after;
  keeps = λ p q. i.keeps p q ∙ h p q;
}

remove_loop-stop : (f : ℕ) (v : Node) (c : Cursor) → hit v c.after ≡ none → remove_loop f v c ≡ c
unfolding remove_loop
remove_loop-stop zero v c h = refl
remove_loop-stop (suc f) v c h = rw (h, remove_loop)

-- A round that puts a part behind `v` back ends the loop; after any other the loop goes on.
remove_loop-round :
    (f : ℕ) (v e : Node) (bs es : List Node) {c : Cursor}
    → v.ex.begin < e.ex.end
    → e.ex.begin < v.ex.end
    → carve_node v e (cursor bs (e ∷ es)) ≡ (c, false)
    → remove_loop (suc f) v (cursor bs (e ∷ es)) ≡ remove_loop f v c
unfolding remove_loop
remove_loop-round f v e bs es g h k =
    rw (hit-some v e es g h, remove_loop)
      (rw (ap (λ (r : Cursor × Bool). r.1) k, remove_loop) (rw (ap (λ (r : Cursor × Bool). r.0) k)))

remove_loop-break :
    (f : ℕ) (v e : Node) (bs es : List Node) {c : Cursor}
    → v.ex.begin < e.ex.end
    → e.ex.begin < v.ex.end
    → carve_node v e (cursor bs (e ∷ es)) ≡ (c, true)
    → remove_loop (suc f) v (cursor bs (e ∷ es)) ≡ c
unfolding remove_loop
remove_loop-break f v e bs es g h k =
    rw (hit-some v e es g h, remove_loop)
      (rw (ap (λ (r : Cursor × Bool). r.1) k, remove_loop) (ap (λ (r : Cursor × Bool). r.0) k))

module _ (v : Node) (node : IsNode v) where
  untouched :
      (f : ℕ) (bs es : List Node)
      → IsBefore v.ex.begin bs
      → IsNodes v.ex.end es
      → IsRemoved v (cursor bs es) (remove_loop f v (cursor bs es))
  unfolding to_list
  untouched f bs es b g =
      rw (remove_loop-stop f v (cursor bs es) (hit-none v es g))
        (record { bs = bs; es = es; list = refl; before = b; after = g; keeps = λ p q. refl })

  remove_loop-IsRemoved :
      (f : ℕ) (hi : ℕ) (bs es : List Node)
      → length es ≤ f
      → hi ≤ v.ex.begin
      → IsBefore hi bs
      → IsNodes hi es
      → Reaches v.ex.begin es
      → IsRemoved v (cursor bs es) (remove_loop f v (cursor bs es))
  unfolding to_list rewind
  remove_loop-IsRemoved f hi bs [] l h b g r =
      untouched f bs [] (IsBefore-weaken hi v.ex.begin bs h b) tt
  remove_loop-IsRemoved zero hi bs (e ∷ es) l h b g r = absurd (omega arith)
  remove_loop-IsRemoved (suc f) hi bs (e ∷ es) l h b g r = elim (meet v e) [
    | apart t ↦ untouched (suc f) bs (e ∷ es) (IsBefore-weaken hi v.ex.begin bs h b) (t, g.1, g.2)
    | inside a c ↦
        let b' : IsBefore e.ex.begin bs = IsBefore-weaken hi e.ex.begin bs g.0 b in
        rw
          (remove_loop-break f v e bs es r (omega arith)
            (carve_node-inside v e bs es node g.1 b' g.2 a c))
          (record {
            bs = front_part v e ∷ bs;
            es = rear_part v e ∷ es;
            list = refl;
            before = (omega arith, (omega arith, omega arith), b');
            after = (omega arith, (omega arith, omega arith), g.2);
            keeps = λ p q. lookup-inside v e bs es p g.1 q b' a node.0 c;
          })
    | front a c ↦
        let b' : IsBefore e.ex.begin bs = IsBefore-weaken hi e.ex.begin bs g.0 b in
        rw
          (remove_loop-round f v e bs es r (omega arith)
            (carve_node-front v e bs es node g.1 b' g.2 a r c))
          (IsRemoved-keeps v
            (remove_loop-IsRemoved f v.ex.begin (front_part v e ∷ bs) es (omega arith) (omega arith)
              (omega arith, (omega arith, omega arith), b')
              (IsNodes-weaken v.ex.begin e.ex.end es (omega arith) g.2)
              (Reaches-after v.ex.begin e.ex.end es (omega arith) g.2))
            (λ p q. lookup-front v e bs es p g.1 q b' r a c))
    | rear a t c ↦
        let b' : IsBefore v.ex.begin bs = IsBefore-weaken hi v.ex.begin bs h b in
        let n : Node = part e v.ex.end e.ex.end in
        let g' : IsNodes v.ex.end es = IsNodes-weaken v.ex.end e.ex.end es (omega arith) g.2 in
        rw
          (
            remove_loop-round f v e bs es r t (
                carve_node-rear v e bs es node g.1
                  (IsBefore-weaken v.ex.begin v.ex.end bs (omega arith) b') g.2 a c),
            remove_loop-stop f v (cursor (n ∷ bs) es) (hit-none v es g'),
          )
          (record {
            bs = bs;
            es = n ∷ es;
            list = refl;
            before = b';
            after = (omega arith, (omega arith, omega arith), g.2);
            keeps = λ p q. lookup-rear v e bs es p g.1 q hi b g.0 a t c;
          })
    | whole a t c ↦ rw (remove_loop-round f v e bs es r t (carve_node-all v e bs es node g.1 a c)) (
        IsRemoved-keeps v
          (remove_loop-IsRemoved f hi bs es (omega arith) h b
            (IsNodes-weaken hi e.ex.end es (omega arith) g.2)
            (Reaches-after v.ex.begin e.ex.end es (omega arith) g.2))
          (λ p q. lookup-all v e bs es p g.1 q a c))
  ]

module _ (t : ExtentTree) (b e : ℕ) (ordered : IsNodes 0 t) (lt : b < e) (fits : e < two64) where
  abbrev range : Node
  range = make_node b e 0 0

  removed :
      IsRemoved range
        (lower_bound t range)
        (remove_loop (length (lower_bound t range).after + 1) range (lower_bound t range))
  removed =
      let a = lower_bound-IsAt range t ordered in
      let c = lower_bound t range in
      remove_loop-IsRemoved range (lt, fits) (length c.after + 1) a.hi c.before c.after
        (omega arith) a.hi-le a.before a.after a.reaches

  -- For a tree in order and a non-empty 64-bit range, after `remove` no client holds an offset of
  -- the range, and every other offset is held as before.
  pub lookup-remove :
      (p : ℕ) → lookup (remove t b e) p ≡ (if contains (range.ex) p then none else lookup t p)
  unfolding remove to_list
  lookup-remove p =
      let w = removed in
      let a = lower_bound-IsAt range t ordered in
      let end : lookup t p ≡ lookup_at (lower_bound t range) p =
        rw (to_list-lower_bound range t) at
          (lookup-to_list a.hi (lower_bound t range) p a.before) in
      rw (w.list, end)
        (lookup-to_list b (cursor w.bs w.es) p w.before
          ∙ ground
              (arith, w.keeps p, lookup-before b w.bs p w.before, lookup-after e w.es p w.after))

  -- For a tree in order and a non-empty 64-bit range, `remove` keeps the nodes in order, disjoint
  -- and non-empty.
  pub remove-IsNodes : IsNodes 0 (remove t b e)
  unfolding remove
  remove-IsNodes =
      let w = removed in
      rw w.list
        (rewind-IsNodes b w.bs w.es w.before (IsNodes-weaken b e w.es (omega arith) w.after))
