-- ===== src/BbRead/LocalLoop.antt =====
-- The loop of `pread_noflush` over the nodes found in the local tree, and what it leaves.
use peanuts.Base.{ℕ, ◌+◌, ◌-◌, ◌≤◌, ◌<◌, ◌≡◌, ◌∙◌, refl, Bool, true, false, ◌&&◌, ◌||◌, Option}
use peanuts.Base.{some, none, List, [], ◌∷◌, arith, two64, add64, Bool-cases, inl, inr}
use peanuts.Base.{if◌then◌else◌}
use peanuts.Extent.{Extent, overlaps, get_intersection}
use peanuts.Extent.Points.{contains}
use peanuts.ExtentList.Sorted.{covers, IsGapped}
use peanuts.ExtentList.Add.{add-IsGapped, covers-add}
use peanuts.NodeSet.{Node}
use peanuts.NodeSet.Order.{IsNodes, Reaches}
use peanuts.NodeSet.Lookup.{Place, lookup, lookup-after}
use peanuts.ExtentTree.Insert.{Reaches-after}
use peanuts.BbHandler.{Handler}
use peanuts.BbHandler.Write.{IsReady}
use peanuts.BbRead.{Progress, fill, local_loop, get_intersection}
use peanuts.BbRead.Local.{local_or, IsLive, addr, bytes, buffer-inside, buffer-outside, valid}
use peanuts.RingBuffer.Stream.{address}

abbrev pub is_some : Option Place → Bool
is_some none = false
is_some (some a) = true

module _ (disp : ℕ) (h : Handler) (ofs count : ℕ) (ready : IsReady h) (pos : 0 < count)
    (fits : ofs + count < two64) where
  abbrev pub range : Extent
  range = record { begin = ofs; end = add64 ofs count }

  -- The nodes `ns` are read: what they say of the range is noted and in the buffer.
  pub record IsRead (ns : List Node) (old new : Progress) : Type 0 where
    pub gapped : IsGapped 0 new.el
    pub noted :
        (p : ℕ) → covers new.el p ≡ ((contains range p && is_some (lookup ns p)) || covers old.el p)
    pub bytes :
        (p : ℕ)
        → contains range p ≡ true
        → new.buf (p - ofs)
          ≡ local_or disp h ofs count ready pos fits (lookup ns p) (old.buf (p - ofs))
    pub beyond : (i : ℕ) → count ≤ i → new.buf i ≡ old.buf i
    pub accessed : new.accessed ≡ old.accessed

  overlaps-starts : (n : Node) → overlaps n.ex range ≡ true → n.ex.begin < ofs + count
  unfolding overlaps
  overlaps-starts n t = ground arith

  -- A list that starts behind the range says nothing of it.
  beyond-range :
      (n : Node) (ns : List Node) (lo q : ℕ)
      → IsNodes lo (n ∷ ns)
      → overlaps n.ex range ≡ false
      → ofs < n.ex.end
      → contains range q ≡ true
      → lookup (n ∷ ns) q ≡ none
  unfolding overlaps
  beyond-range n ns lo q g o r c = ground (arith, lookup-after n.ex.begin (n ∷ ns) q)

  module _ (n : Node) (ns : List Node) (lo : ℕ) (g : IsNodes lo (n ∷ ns))
      (starts : n.ex.begin < ofs + count) (ends : ofs < n.ex.end)
      (live : IsLive disp h ofs count ready pos fits (n ∷ ns)) where
    node-live :
        (q : ℕ)
        → contains range q ≡ true
        → contains n.ex q ≡ true
        → (h.ring.tail_lsn ≤ addr n q) × (addr n q < h.ring.head_lsn)
    node-live q c d = live q n.client_id (addr n q) c (rw d)

    tail-IsLive : IsLive disp h ofs count ready pos fits ns
    tail-IsLive q c a k e = live q c a k (ground (arith, lookup-after n.ex.end ns q g.2))

    abbrev part : Extent
    part = valid disp h ofs count ready pos fits n g.1 starts ends node-live

    module _ (p : Progress) where
      abbrev filled : Progress
      filled =
          fill ofs part (bytes disp h ofs count ready pos fits n g.1 starts ends node-live)
            p.accessed p

      filled-IsGapped : IsGapped 0 p.el → IsGapped 0 filled.el
      unfolding fill
      filled-IsGapped e = add-IsGapped 0 p.el part (omega arith) (omega arith) e

      filled-noted :
          (q : ℕ)
          → IsGapped 0 p.el
          → covers filled.el q ≡ ((contains range q && contains n.ex q) || covers p.el q)
      unfolding fill
      filled-noted q e = covers-add 0 p.el part q (omega arith) e ∙ ground arith

      filled-bytes :
          (q : ℕ)
          → contains range q ≡ true
          → filled.buf (q - ofs) ≡ (
              if contains n.ex q
              then h.memory (address disp h.ring.ring_size (addr n q))
              else p.buf (q - ofs))
      unfolding fill
      filled-bytes q c = elim (Bool-cases (contains n.ex q)) [
        | inl d ↦ rw d (
            buffer-inside disp h ofs count ready pos fits n g.1 starts ends node-live p.buf q
              (ground arith) (ground arith))
        | inr d ↦ rw d (
            buffer-outside disp h ofs count ready pos fits n g.1 starts ends node-live p.buf
              (q - ofs) (ground arith))
      ]

      filled-beyond : (i : ℕ) → count ≤ i → filled.buf i ≡ p.buf i
      unfolding fill
      filled-beyond i c =
          buffer-outside disp h ofs count ready pos fits n g.1 starts ends node-live p.buf i
            (inr (omega arith))

      -- What the later rounds leave of the buffer and of the list, with this round in front.
      with-node :
          {new : Progress}
          → IsGapped 0 p.el
          → IsRead ns filled new
          → new.accessed ≡ p.accessed
          → IsRead (n ∷ ns) p new
      with-node {new} e r a = record {
        gapped = r.gapped;
        noted = λ q. ground (arith, r.noted q, filled-noted q e, lookup-after n.ex.end ns q g.2);
        bytes =
            λ q c. r.bytes q c ∙ ground (arith, filled-bytes q c, lookup-after n.ex.end ns q g.2);
        beyond = λ i c. r.beyond i c ∙ filled-beyond i c;
        accessed = a;
      }

  pub local_loop-IsRead :
      (lo : ℕ) (ns : List Node) (p : Progress)
      → IsNodes lo ns
      → Reaches ofs ns
      → IsLive disp h ofs count ready pos fits ns
      → IsGapped 0 p.el
      → IsRead ns p (local_loop disp h ofs count ns p)
  unfolding local_loop get_intersection
  local_loop-IsRead lo [] p g r l e = record {
    gapped = e;
    noted = λ q. ground arith;
    bytes = λ q c. refl;
    beyond = λ i c. refl;
    accessed = refl;
  }
  local_loop-IsRead lo (n ∷ ns) p g r l e = elim (Bool-cases (overlaps n.ex range)) [
    | inr t ↦
        rw (t, local_loop)
          (record {
            gapped = e;
            noted = λ q. ground (arith, beyond-range n ns lo q g t r);
            bytes = λ q c. rw (beyond-range n ns lo q g t r c);
            beyond = λ i c. refl;
            accessed = refl;
          })
    | inl t ↦
        let s = overlaps-starts n t in
        let f = filled n ns lo g s r l p in
        let i =
          local_loop-IsRead n.ex.end ns f g.2 (Reaches-after ofs n.ex.end ns (omega arith) g.2)
            (tail-IsLive n ns lo g s r l) (filled-IsGapped n ns lo g s r l p e) in
        rw (t, local_loop) (with-node n ns lo g s r l p e i i.accessed)
  ]
