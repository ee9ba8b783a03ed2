-- ===== src/Cluster/Kept.antt =====
-- What a write leaves in the rings and the handlers of all processes.
use peanuts.Base.{ℕ, ◌≤◌, ◌<◌, ◌≡◌, ◌≢◌, ◌∙◌, sym, ap, some, List, arith, refl, Option, none, ◌%◌}
use peanuts.Pmem.{Memory}
use peanuts.NodeSet.Lookup.{Place, lookup}
use peanuts.RingBuffer.Stream.{stream_write, stream_write-outside, address}
use peanuts.BbHandler.{Handler}
use peanuts.BbHandler.Write.{IsReady}
use peanuts.Cluster.{Cluster, handler_of, put_handler}
use peanuts.Cluster.Consistent.{IsConsistent, ring_byte, place_byte}
use peanuts.Cluster.Written.{IsWritten}
use peanuts.Cluster.Blocks.{stream_write-block}
use peanuts.ExtentTree.{ExtentTree}
use peanuts.ThreadLocal.Values.{update-same, update-other}
use native.Mathlib.Decide.{ℕ_discrete}
use native.Mathlib.Nat.{mod-lt}
use mathlib.Core.Path.{subst}

-- The memory of a handler plays no part in whether it is ready.
pub IsReady-memory : (h : Handler) (m : Memory) → IsReady h → IsReady (record h { memory = m })
IsReady-memory h m r = record {
  nodes = r.nodes;
  pos = r.pos;
  small = r.small;
  room = r.room;
  tail-le = r.tail-le;
  head-le = r.head-le;
  live = r.live;
}

module _ (c : Cluster) (g : ExtentTree) (consistent : IsConsistent c g) (w : ℕ) (buf : List ℕ)
    (ofs n : ℕ) (rank : w < c.size) (h : Handler) (done : IsWritten c w buf ofs n h) where
  abbrev pub after : Cluster
  after = put_handler c w h

  abbrev head : ℕ
  head = (c.local w).ring.head_lsn

  pub memory-written :
      after.memory (c.node w) ≡ stream_write (c.disp w) c.ring_size (c.memory (c.node w)) buf head
  unfolding put_handler
  memory-written = update-same c.memory (c.node w) h.memory ∙ done.memory

  memory-other : (m : ℕ) → m ≢ c.node w → after.memory m ≡ c.memory m
  unfolding put_handler
  memory-other m d = update-other c.memory (c.node w) h.memory m d

  pub local-written : after.local w ≡ h
  unfolding put_handler
  local-written = update-same c.local w h

  pub local-other : (r : ℕ) → r ≢ w → after.local r ≡ c.local r
  unfolding put_handler
  local-other r d = update-other c.local w h r d

  pub ring-pos : 0 < c.ring_size
  ring-pos =
      let r = consistent.ready w rank in
      let s = consistent.sized w rank in
      let p : 0 < (c.local w).ring.ring_size = unfold handler_of in r.pos in omega arith

  -- What lies between tail and head of a ring stays.
  own_byte-kept :
      (a : ℕ)
      → (c.local w).ring.tail_lsn ≤ a
      → a < (c.local w).ring.head_lsn
      → after.memory (c.node w) (address (c.disp w) c.ring_size a) ≡ ring_byte c w a
  own_byte-kept a lo hi =
      let s = done.span in
      ap (λ (m : Memory). m (address (c.disp w) c.ring_size a)) memory-written
      ∙ stream_write-outside (c.disp w) c.ring_size (c.memory (c.node w)) buf head a (omega arith)

  other_byte-kept :
      (v a : ℕ)
      → v < c.size
      → v ≢ w
      → after.memory (c.node v) (address (c.disp v) c.ring_size a) ≡ ring_byte c v a
  other_byte-kept v a lv d = elim (ℕ_discrete (c.node v) (c.node w)) [
    | yes e ↦
        let i = address (c.disp v) c.ring_size a in
        let b = consistent.apart v w lv rank d e in
        let l : a % c.ring_size < c.ring_size = mod-lt a ring-pos in
        ap (λ (k : ℕ). after.memory k i) e
        ∙ ap (λ (m : Memory). m i) memory-written
        ∙ stream_write-block (c.disp w) c.ring_size (c.memory (c.node w)) buf head i ring-pos
            (ground arith)
        ∙ ap (λ (k : ℕ). c.memory k i) (sym e)
    | no n ↦ ap (λ (m : Memory). m (address (c.disp v) c.ring_size a)) (memory-other (c.node v) n)
  ]

  pub byte-kept :
      (v a : ℕ)
      → v < c.size
      → (c.local v).ring.tail_lsn ≤ a
      → a < (c.local v).ring.head_lsn
      → after.memory (c.node v) (address (c.disp v) c.ring_size a) ≡ ring_byte c v a
  byte-kept v a lv lo hi = elim (ℕ_discrete v w) [
    | yes e ↦
        subst
          (λ (k : ℕ).
            (c.local k).ring.tail_lsn ≤ a
            → a < (c.local k).ring.head_lsn
            → after.memory (c.node k) (address (c.disp k) c.ring_size a) ≡ ring_byte c k a)
          (sym e) (own_byte-kept a) lo hi
    | no d ↦ other_byte-kept v a lv d
  ]

  pub place_byte-kept : (p : ℕ) → place_byte after (lookup g p) ≡ place_byte c (lookup g p)
  unfolding put_handler
  place_byte-kept p = at_place (lookup g p) (consistent.live p)
    where
      at_place :
          (o : Option Place)
          → ((v a : ℕ)
              → o ≡ some (v, a)
              → (v < c.size) × ((c.local v).ring.tail_lsn ≤ a) × (a < (c.local v).ring.head_lsn))
          → place_byte after o ≡ place_byte c o
      at_place none l = refl
      at_place (some (v, a)) l = let b = l v a refl in ap some (byte-kept v a b.0 b.1 b.2)

  pub ring_le :
      (v : ℕ)
      → ((after.local v).ring.tail_lsn ≡ (c.local v).ring.tail_lsn)
        × ((c.local v).ring.head_lsn ≤ (after.local v).ring.head_lsn)
  ring_le v = elim (ℕ_discrete v w) [
    | yes e ↦
        subst
          (λ (k : ℕ).
            ((after.local k).ring.tail_lsn ≡ (c.local k).ring.tail_lsn)
            × ((c.local k).ring.head_lsn ≤ (after.local k).ring.head_lsn))
          (sym e) (rw local-written (done.tail, (let h = done.head in omega arith)))
    | no d ↦ rw (local-other v d) (refl, omega arith)
  ]
