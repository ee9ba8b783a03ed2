-- ===== src/BbHandler/Write.antt =====
-- `pwrite`: what the process holds of the file behind the call.
use peanuts.Base.{ℕ, ◌+◌, ◌^◌, ◌≤◌, ◌<◌, ◌≡◌, Option, some, none, List, length, arith, two64, refl}
use peanuts.Base.{if◌then◌else◌, sym, ◌∙◌, add64, get_elem?, ◌-◌, false, ap, Bool-cases, true, inl}
use peanuts.Base.{inr, leb, ◌&&◌, ltb}
use peanuts.Pmem.{Memory}
use peanuts.NodeSet.Order.{IsNodes}
use peanuts.NodeSet.Lookup.{Place, lookup}
use peanuts.RingTracker.{allocate, can_allocate, free_capacity, used_capacity}
use peanuts.RingBuffer.{reserve_nb}
use peanuts.RingBuffer.Stream.{address, stream_write, stream_write-outside, stream_write-at}
use peanuts.BbHandler.{Handler, ok, err, no_space, pwrite, write_at, local_pwrite}
use peanuts.RingBuffer.Transfer.{pwrite-stream_write}
use peanuts.NodeSet.{Node, make_node}
use peanuts.ExtentTree.Add.{overlaid, lookup-add, add-IsNodes}
use peanuts.Extent.Points.{contains}
use peanuts.Rpm.{local_pwrite}

-- The ring is sized and not near the end of the LSNs, the tree is in order, and what the tree says
-- to be in the ring lies between tail and head.
pub record IsReady (h : Handler) : Type 0 where
  pub nodes : IsNodes 0 h.local_tree
  pub pos : 0 < h.ring.ring_size
  pub small : h.ring.ring_size < 2 ^ 63
  pub room : h.ring.tail_lsn + h.ring.ring_size < two64
  pub tail-le : h.ring.tail_lsn ≤ h.ring.head_lsn
  pub head-le : h.ring.head_lsn ≤ h.ring.tail_lsn + h.ring.ring_size
  pub live :
      (p c a : ℕ)
      → lookup h.local_tree p ≡ some (c, a)
      → (h.ring.tail_lsn ≤ a) × (a < h.ring.head_lsn)

pub ok-injective : {a b : ℕ × Handler} → ok a ≡ ok b → a ≡ b
ok-injective e = cc

module _ (disp : ℕ) where
  abbrev pub byte_at : Memory → ℕ → Option Place → Option ℕ
  byte_at m ring none = none
  byte_at m ring (some (c, a)) = some (m (address disp ring a))

  -- The byte that the local ring holds for an offset of the file.
  abbrev pub local_byte : Handler → ℕ → Option ℕ
  local_byte h p = byte_at h.memory h.ring.ring_size (lookup h.local_tree p)

  module _ (global_rank : ℕ) (h : Handler) (buf : List ℕ) (ofs : ℕ) (ready : IsReady h) where
    -- A write of more bytes than the ring has free is refused, for a handler whose tree is in order
    -- and whose ring holds what the tree says.
    pwrite-full :
        free_capacity h.ring < length buf → pwrite global_rank disp h buf ofs ≡ err no_space
    unfolding pwrite reserve_nb can_allocate
    pwrite-full l = ground arith

    module _ (pos : 0 < length buf) (fits : ofs + length buf < two64)
        (room : used_capacity h.ring + length buf ≤ h.ring.ring_size) where
      abbrev pub after : Handler
      after =
          write_at global_rank disp h buf ofs (allocate h.ring (length buf)).0
            (allocate h.ring (length buf)).1

      pub pwrite-ok : pwrite global_rank disp h buf ofs ≡ ok (length buf, after)
      unfolding pwrite reserve_nb can_allocate allocate free_capacity used_capacity
      pwrite-ok = let r = ready in ground arith

      abbrev pub node : Node
      node = make_node ofs (add64 ofs (length buf)) h.ring.head_lsn global_rank

      lookup-after-write :
          (p : ℕ) → lookup after.local_tree p ≡ overlaid node p (lookup h.local_tree p)
      unfolding write_at allocate
      lookup-after-write p =
          lookup-add h.local_tree ofs (add64 ofs (length buf)) h.ring.head_lsn global_rank
            ready.nodes (omega arith) (omega arith) p

      pub memory-after :
          after.memory ≡ stream_write disp h.ring.ring_size h.memory buf h.ring.head_lsn
      unfolding write_at allocate
      memory-after =
          pwrite-stream_write (local_pwrite disp) (λ m. m) disp
            (λ s b o. unfold local_pwrite in refl) after.ring h.memory buf h.ring.head_lsn
            (record { pos = ready.pos; small = ready.small; fits = omega arith })

      pub span : h.ring.head_lsn + length buf ≤ h.ring.tail_lsn + h.ring.ring_size
      unfolding used_capacity
      span = let r = ready in omega arith

      pub held :
          (o : Option Place)
          → ((c a : ℕ) → o ≡ some (c, a) → (h.ring.tail_lsn ≤ a) × (a < h.ring.head_lsn))
          → byte_at
              (stream_write disp h.ring.ring_size h.memory buf h.ring.head_lsn)
              h.ring.ring_size
              o
            ≡ byte_at h.memory h.ring.ring_size o
      held none l = refl
      held (some (c, a)) l =
          let b = l c a refl in
          ap some (
            stream_write-outside disp h.ring.ring_size h.memory buf h.ring.head_lsn a
              (omega (arith, span)))

      -- What the new node answers, and what the tree answered elsewhere.
      pub lookup-inside :
          (p : ℕ)
          → contains node.ex p ≡ true
          → lookup after.local_tree p ≡ some (global_rank, h.ring.head_lsn + (p - ofs))
      lookup-inside p e =
          let s = span in
          let r = ready in
          lookup-after-write p ∙ rw e (ap (λ (a : ℕ). some (global_rank, a)) (ground arith))

      pub lookup-outside :
          (p : ℕ) → contains node.ex p ≡ false → lookup after.local_tree p ≡ lookup h.local_tree p
      lookup-outside p e = lookup-after-write p ∙ rw e

      after-live :
          (p c a : ℕ)
          → lookup after.local_tree p ≡ some (c, a)
          → (h.ring.tail_lsn ≤ a) × (a < h.ring.head_lsn + length buf)
      after-live p c a e =
          let r = ready in
          elim (Bool-cases (contains node.ex p)) [
            | inl t ↦ ground (arith, lookup-inside p t)
            | inr t ↦ let l = r.live p c a (sym (lookup-outside p t) ∙ e) in omega (arith, l)
          ]

      pub after-head : after.ring.head_lsn ≡ h.ring.head_lsn + length buf
      unfolding write_at allocate
      after-head = let r = ready in omega (arith, span)

      pub same-ring :
          (after.ring.ring_size ≡ h.ring.ring_size) × (after.ring.tail_lsn ≡ h.ring.tail_lsn)
      unfolding write_at allocate
      same-ring = (refl, refl)

      after-nodes : IsNodes 0 after.local_tree
      unfolding write_at allocate
      after-nodes =
          add-IsNodes h.local_tree ofs (add64 ofs (length buf)) h.ring.head_lsn global_rank
            ready.nodes (omega arith) (omega arith)

      -- What `write_at` keeps.
      after-IsReady : IsReady after
      after-IsReady =
          let r = ready in
          let s = same-ring in
          let g = span in
          record {
            nodes = after-nodes;
            pos = omega arith;
            small = omega arith;
            room = omega arith;
            tail-le = omega (arith, after-head);
            head-le = omega (arith, after-head);
            live =
                λ p c a e. let l = after-live p c a e in (omega arith, omega (arith, after-head));
          }

      -- The bytes that the process holds are those written, and elsewhere those that it held.
      local_byte-after :
          (p : ℕ)
          → local_byte after p
            ≡ (if contains node.ex p then get_elem? buf (p - ofs) else local_byte h p)
      unfolding write_at allocate
      local_byte-after p = elim (Bool-cases (contains node.ex p)) [
        | inl t ↦
            rw (t, lookup-inside p t, memory-after)
              (sym (
                stream_write-at disp h.ring.ring_size h.memory buf h.ring.head_lsn (p - ofs)
                  (omega arith) (ground arith)))
        | inr t ↦
            rw (t, lookup-outside p t, memory-after)
              (held (lookup h.local_tree p) (λ c a e. ready.live p c a e))
      ]

    pub pwrite-room :
        {r : ℕ × Handler}
        → pwrite global_rank disp h buf ofs ≡ ok r
        → used_capacity h.ring + length buf ≤ h.ring.ring_size
    unfolding pwrite reserve_nb can_allocate free_capacity used_capacity
    pwrite-room e = let r = ready in ground arith

    -- A write of at least one byte that succeeds on a handler whose tree is in order and whose ring
    -- holds what the tree says returns the number of bytes; the handler then holds them at their
    -- offsets, holds every other byte that it held, and is again such a handler.
    pub pwrite_lem :
        {n : ℕ} {h' : Handler}
        → 0 < length buf
        → ofs + length buf < two64
        → pwrite global_rank disp h buf ofs ≡ ok (n, h')
        → (n ≡ length buf)
          × IsReady h'
          × ((p : ℕ)
              → local_byte h' p ≡ (
                  if leb ofs p && ltb p (ofs + length buf)
                  then get_elem? buf (p - ofs)
                  else local_byte h p))
    pwrite_lem {n} {h'} pos fits e =
        let room = pwrite-room e in
        let same = ok-injective (sym e ∙ pwrite-ok pos fits room) in
        let eh : h' ≡ after pos fits room = ap (λ (r : ℕ × Handler). r.1) same in
        let w : add64 ofs (length buf) ≡ ofs + length buf = omega arith in
        (
          ap (λ (r : ℕ × Handler). r.0) same,
          rw eh (after-IsReady pos fits room),
          λ p. rw eh (rw w at (local_byte-after pos fits room p)),
        )
