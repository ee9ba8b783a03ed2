-- ===== src/Cluster/Written.antt =====
-- What the handler of a rank is behind a write that succeeds.
use peanuts.Base.{ℕ, ◌+◌, ◌≤◌, ◌<◌, ◌≡◌, ◌∙◌, sym, ap, some, List, length, arith, two64, refl}
use peanuts.Base.{Bool-cases, inl, inr}
use peanuts.NodeSet.Lookup.{lookup}
use peanuts.RingBuffer.Stream.{stream_write}
use peanuts.BbHandler.{Handler, ok, err, Result}
use peanuts.BbHandler.Write.{IsReady, local_byte, after, pwrite-ok, pwrite-room, ok-injective}
use peanuts.BbHandler.Write.{memory-after, span, after-head, same-ring, pwrite_lem, lookup-inside}
use peanuts.BbHandler.Write.{lookup-outside, node}
use peanuts.Cluster.{Cluster, handler_of, put_handler, write}
use peanuts.Cluster.Consistent.{IsConsistent}
use peanuts.Cluster.Spec.{overwrite}
use peanuts.ExtentTree.{ExtentTree}
use peanuts.RingTracker.{used_capacity}
use peanuts.Extent.Points.{contains}
use peanuts.BbHandler

pub record IsWritten (c : Cluster) (w : ℕ) (buf : List ℕ) (ofs n : ℕ) (h : Handler) : Type 0 where
  pub count : n ≡ length buf
  pub memory :
      h.memory
      ≡ stream_write (c.disp w) c.ring_size (c.memory (c.node w)) buf (c.local w).ring.head_lsn
  pub head : h.ring.head_lsn ≡ (c.local w).ring.head_lsn + length buf
  pub tail : h.ring.tail_lsn ≡ (c.local w).ring.tail_lsn
  pub ring_size : h.ring.ring_size ≡ c.ring_size
  pub span : (c.local w).ring.head_lsn + length buf ≤ (c.local w).ring.tail_lsn + c.ring_size
  pub global : h.global_tree ≡ (c.local w).global_tree
  pub own : (p v a : ℕ) → lookup h.local_tree p ≡ some (v, a) → v ≡ w
  pub ready : IsReady h
  pub bytes :
      (p : ℕ)
      → local_byte (c.disp w) h p ≡ overwrite buf ofs (local_byte (c.disp w) (handler_of c w)) p

module _ (c : Cluster) (g : ExtentTree) (consistent : IsConsistent c g) (w : ℕ) (buf : List ℕ)
    (ofs : ℕ) (rank : w < c.size) (pos : 0 < length buf) (fits : ofs + length buf < two64) where
  abbrev writer : Handler
  writer = handler_of c w

  after-own :
      (r : IsReady writer) (room : used_capacity writer.ring + length buf ≤ writer.ring.ring_size)
      (p v a : ℕ)
      → lookup (after (c.disp w) w writer buf ofs r pos fits room).local_tree p ≡ some (v, a)
      → v ≡ w
  after-own r room p v a e =
      elim (Bool-cases (contains (node (c.disp w) w writer buf ofs r pos fits room).ex p)) [
        | inl t ↦ ground (arith, lookup-inside (c.disp w) w writer buf ofs r pos fits room p t)
        | inr t ↦ consistent.own w p v a rank (
            unfold handler_of in
            sym (lookup-outside (c.disp w) w writer buf ofs r pos fits room p t) ∙ e)
      ]

  pwrite-IsWritten :
      {n : ℕ} {h : Handler}
      → BbHandler.pwrite w (c.disp w) (handler_of c w) buf ofs ≡ ok (n, h)
      → IsWritten c w buf ofs n h
  unfolding handler_of BbHandler.write_at
  pwrite-IsWritten {n} {h} e =
      let r = consistent.ready w rank in
      let d = c.disp w in
      let room = pwrite-room d w writer buf ofs r e in
      let eh : h ≡ after d w writer buf ofs r pos fits room =
        ap (λ (x : ℕ × Handler). x.1)
          (ok-injective (sym e ∙ pwrite-ok d w writer buf ofs r pos fits room)) in
      let all = pwrite_lem d w writer buf ofs r pos fits e in
      let s = consistent.sized w rank in
      let ring = same-ring d w writer buf ofs r pos fits room in
      record {
        count = all.0;
        memory =
            ap (λ (x : Handler). x.memory) eh
            ∙ memory-after d w writer buf ofs r pos fits room
            ∙ ap (λ (k : ℕ). stream_write d k writer.memory buf writer.ring.head_lsn) s;
        head =
            ap (λ (x : Handler). x.ring.head_lsn) eh
            ∙ after-head d w writer buf ofs r pos fits room;
        tail = ap (λ (x : Handler). x.ring.tail_lsn) eh ∙ ring.1;
        ring_size = ap (λ (x : Handler). x.ring.ring_size) eh ∙ ring.0 ∙ s;
        span = omega (arith, span d w writer buf ofs r pos fits room, s);
        global = ap (λ (x : Handler). x.global_tree) eh;
        own = λ p v a l.
            after-own r room p v a (ap (λ (x : Handler). lookup x.local_tree p) (sym eh) ∙ l);
        ready = all.1;
        bytes = all.2;
      }

  -- A write that succeeds is one of the handler.
  pub write-cases :
      {n : ℕ} {c' : Cluster}
      → write w buf ofs c ≡ ok (n, c')
      → (h : Handler) × IsWritten c w buf ofs n h × (c' ≡ put_handler c w h)
  unfolding write
  write-cases {n} {c'} e = of_result (BbHandler.pwrite w (c.disp w) writer buf ofs) refl
    where
      of_result :
          (x : Result (ℕ × Handler))
          → BbHandler.pwrite w (c.disp w) writer buf ofs ≡ x
          → (h : Handler) × IsWritten c w buf ofs n h × (c' ≡ put_handler c w h)
      of_result (err x) p = absurd (let d : err x ≡ ok (n, c') = rw (p, write) at e in cc)
      of_result (ok (m, h)) p =
          let d : ok (m, put_handler c w h) ≡ ok (n, c') = rw (p, write) at e in
          let both : (m ≡ n) × (put_handler c w h ≡ c') = (cc, cc) in
          (h, pwrite-IsWritten (p ∙ ap (λ (k : ℕ). ok (k, h)) both.0), sym both.1)
