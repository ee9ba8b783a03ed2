-- ===== src/BbRead/RemoteRead.antt =====
-- `pread_noflush` over ranges that the trees know.
use peanuts.Base.{ℕ, ◌+◌, ◌-◌, ◌≤◌, ◌<◌, ◌≡◌, ◌≢◌, ◌∙◌, refl, ap₂, true, false, not, ◌&&◌, Option}
use peanuts.Base.{some, none, List, [], All, arith, two64, add64, Bool-cases, inl, inr, sym}
use peanuts.Pmem.{Memory}
use peanuts.Extent.{Extent}
use peanuts.Extent.Points.{contains}
use peanuts.ExtentList.{ExtentList, inverse, outer_extent, max_end}
use peanuts.ExtentList.Sorted.{covers, IsOrdered}
use peanuts.ExtentList.Inverse.{covers-inverse, inverse-IsOrdered, empty-inverse, nil-covers}
use peanuts.NodeSet.Order.{IsNodes}
use peanuts.NodeSet.Lookup.{Place, lookup, first}
use peanuts.ExtentTree.{find}
use peanuts.ExtentTree.Find.{find_lem}
use peanuts.Rpm.{Accessed}
use peanuts.RingBuffer.Stream.{address}
use peanuts.BbHandler.{Handler}
use peanuts.BbHandler.Write.{IsReady}
use peanuts.BbRead.{Progress, read_local, read_global, pread_noflush, done}
use peanuts.BbRead.Local.{local_or}
use peanuts.BbRead.LocalLoop.{range, IsRead, is_some}
use peanuts.BbRead.ReadBack.{local-IsRead, ne-none}
use peanuts.BbRead.RemotePart.{bytes_from, IsPlaced, remote_or}
use peanuts.BbRead.Remote.{IsFilled, global_loop-IsFilled}
use peanuts.BbRead.Holes.{find-All, covers-All, covers-outer_extent}
use peanuts.ExtentList

-- The byte that the two trees give an offset, the local one first, and else the byte that the
-- buffer had.
abbrev pub byte_at : ℕ → Handler → (ℕ → ℕ → ℕ) → ℕ → ℕ → ℕ
byte_at disp h remote q old = elim (lookup h.local_tree q) [
  | some (c, a) ↦ h.memory (address disp h.ring.ring_size a)
  | none ↦ remote_or remote (lookup h.global_tree q) old
]

module _ (disp : ℕ) (h : Handler) (ofs count : ℕ) (ready : IsReady h) (pos : 0 < count)
    (fits : ofs + count < two64) (global : IsNodes 0 h.global_tree) (limit : ℕ → ℕ)
    (placed : All (IsPlaced limit) h.global_tree)
    (rring_pread : ℕ → Accessed → ℕ → ℕ → List ℕ × Accessed) (remote : ℕ → ℕ → ℕ)
    (reads : (r : ℕ) (acc : Accessed) (n lsn : ℕ)
      → 0 < n
      → n ≤ limit r
      → (rring_pread r acc n lsn).0 ≡ bytes_from (remote r) n lsn) where
  abbrev buffer_range : Extent
  buffer_range = range disp h ofs count ready pos fits

  module _ (file_pread : ℕ → ℕ → Option (List ℕ)) (buf : Memory) where
    abbrev local_progress : Progress
    local_progress = read_local disp h ofs count buf

    abbrev holes : ExtentList
    holes = inverse local_progress.el buffer_range

    progress-IsRead :
        IsRead disp h ofs count ready pos fits
          (find h.local_tree ofs (add64 ofs count))
          (record { el = []; buf = buf; accessed = h.accessed })
          local_progress
    progress-IsRead = local-IsRead disp h ofs count ready pos fits buf

    holes-IsOrdered : IsOrdered ofs holes
    holes-IsOrdered =
        inverse-IsOrdered 0 local_progress.el buffer_range (omega arith) progress-IsRead.gapped

    -- The holes are the offsets of the range that the local tree does not know.
    covers-holes :
        (q : ℕ)
        → covers holes q ≡ (contains buffer_range q && not (is_some (lookup h.local_tree q)))
    covers-holes q =
        let f = find_lem h.local_tree ofs (add64 ofs count) ready.nodes in
        covers-inverse 0 local_progress.el buffer_range q progress-IsRead.gapped
        ∙ ground (arith, progress-IsRead.noted q, f.2 q)

    global-IsFilled :
        IsFilled ofs rring_pread remote limit reads holes
          (find h.global_tree (outer_extent holes).begin (outer_extent holes).end)
          local_progress
          (read_global disp h ofs count rring_pread file_pread local_progress)
    unfolding read_global
    global-IsFilled =
        let o = outer_extent holes in
        let f = find_lem h.global_tree o.begin o.end global in
        global_loop-IsFilled ofs rring_pread remote limit reads disp h count ofs 0 holes
          (find h.global_tree o.begin o.end) local_progress (omega arith) holes-IsOrdered
          (covers-All ofs (ofs + count) holes fits holes-IsOrdered
            (λ q c. ground (arith, covers-holes q)))
          f.0 (find-All (IsPlaced limit) h.global_tree o.begin o.end placed) progress-IsRead.gapped

    abbrev global_progress : Progress
    global_progress = read_global disp h ofs count rring_pread file_pread local_progress

    local-byte :
        (i : ℕ)
        → i < count
        → local_progress.buf i
          ≡ local_or disp h ofs count ready pos fits (lookup h.local_tree (ofs + i)) (buf i)
    local-byte i l =
        let f = find_lem h.local_tree ofs (add64 ofs count) ready.nodes in
        let e : ofs + i - ofs ≡ i = omega arith in
        rw (e, f.2 (ofs + i) (omega arith) (omega arith)) at
          (progress-IsRead.bytes (ofs + i) (ground arith))

    -- What a hole finds among the nodes is what the global tree says.
    hole-lookup :
        (q : ℕ)
        → covers holes q ≡ true
        → lookup (find h.global_tree (outer_extent holes).begin (outer_extent holes).end) q
          ≡ lookup h.global_tree q
    hole-lookup q c =
        let o = outer_extent holes in
        let f = find_lem h.global_tree o.begin o.end global in
        let d = covers-outer_extent ofs holes q holes-IsOrdered c in
        f.2 q (ground arith) (ground arith)

    in-range : (i : ℕ) → i < count → contains buffer_range (ofs + i) ≡ true
    in-range i l = ground arith

    global-byte :
        (i : ℕ) → i < count → global_progress.buf i ≡ byte_at disp h remote (ofs + i) (buf i)
    global-byte i l = of_place (lookup h.local_tree (ofs + i)) refl
      where
        of_place :
            (o : Option Place)
            → lookup h.local_tree (ofs + i) ≡ o
            → global_progress.buf i ≡ byte_at disp h remote (ofs + i) (buf i)
        of_place none e =
            let k : covers holes (ofs + i) ≡ true =
              rw (in-range i l, e) at (covers-holes (ofs + i)) in
            let b = rw k at (global-IsFilled.bytes i) in
            rw (e, byte_at)
              (b ∙ ap₂ (remote_or remote) (hole-lookup (ofs + i) k) (rw e at (local-byte i l)))
        of_place (some (c, a)) e =
            let k : covers holes (ofs + i) ≡ false =
              rw (in-range i l, e) at (covers-holes (ofs + i)) in
            let b = rw k at (global-IsFilled.bytes i) in
            rw (e, byte_at) (b ∙ (rw e at (local-byte i l)))

    global-behind : (i : ℕ) → count ≤ i → global_progress.buf i ≡ buf i
    global-behind i l =
        let out : contains buffer_range (ofs + i) ≡ false = ground arith in
        let k : covers holes (ofs + i) ≡ false = rw out at (covers-holes (ofs + i)) in
        (rw k at (global-IsFilled.bytes i)) ∙ progress-IsRead.beyond i l

    module _
        (held : (q : ℕ)
          → contains buffer_range q ≡ true
          → first (lookup h.local_tree q) (lookup h.global_tree q) ≢ none) where
      -- Every offset of the range is noted behind the two loops.
      all-noted : (q : ℕ) → contains buffer_range q ≡ true → covers global_progress.el q ≡ true
      all-noted q c = of_place (lookup h.local_tree q) refl
        where
          of_place :
              (o : Option Place) → lookup h.local_tree q ≡ o → covers global_progress.el q ≡ true
          of_place none e =
              let k : covers holes q ≡ true = rw (c, e) at (covers-holes q) in
              let s = ne-none (lookup h.global_tree q) (rw e at (held q c)) in
              rw (k, hole-lookup q k, s) at (global-IsFilled.noted q)
          of_place (some (d, a)) e =
              let k : covers holes q ≡ false = rw (c, e) at (covers-holes q) in
              let f = find_lem h.local_tree ofs (add64 ofs count) ready.nodes in
              let n : covers local_progress.el q ≡ true =
                rw (c, f.2 q (ground arith) (ground arith), e) at (progress-IsRead.noted q) in
              rw (k, n) at (global-IsFilled.noted q)

      no-hole-left : ExtentList.empty (inverse global_progress.el buffer_range) ≡ true
      no-hole-left =
          (empty-inverse 0 global_progress.el buffer_range (omega arith) global-IsFilled.gapped).1
            all-noted

      -- Without holes every byte comes from the local ring.
      local-only :
          ExtentList.empty holes ≡ true
          → (i : ℕ) → i < count
          → local_progress.buf i ≡ byte_at disp h remote (ofs + i) (buf i)
      local-only z i l = of_place (lookup h.local_tree (ofs + i)) refl
        where
          of_place :
              (o : Option Place)
              → lookup h.local_tree (ofs + i) ≡ o
              → local_progress.buf i ≡ byte_at disp h remote (ofs + i) (buf i)
          of_place none e =
              let k : covers holes (ofs + i) ≡ true =
                rw (in-range i l, e) at (covers-holes (ofs + i)) in
              absurd (let d : true ≡ false = sym k ∙ nil-covers holes (ofs + i) z in cc)
          of_place (some (c, a)) e = rw (e, byte_at) (rw e at (local-byte i l))

      -- Where the local tree and the ring are as a write leaves them, the global tree is in order
      -- with nodes of at most as many bytes as `limit` tells for their rank, at addresses that do
      -- not wrap around, every remote ring gives for up to so many addresses the bytes of its
      -- stream, and each offset of a non-empty range is in one of the two trees, a read returns the
      -- whole range: each byte is that of the local ring where the local tree knows the offset,
      -- else that of the remote ring and address that the global tree names, and the buffer is as
      -- it was behind the range.
      pub pread_noflush-known :
          (buf' : Memory) × ((pread_noflush disp h ofs count rring_pread file_pread buf).0
            ≡ done count buf')
          × ((i : ℕ) → i < count → buf' i ≡ byte_at disp h remote (ofs + i) (buf i))
          × ((i : ℕ) → count ≤ i → buf' i ≡ buf i)
      unfolding pread_noflush
      pread_noflush-known = elim (Bool-cases (ExtentList.empty holes)) [
        | inl z ↦
            (local_progress.buf, rw (z, pread_noflush) refl, local-only z, progress-IsRead.beyond)
        | inr z ↦ (
          global_progress.buf,
          rw (z, no-hole-left, pread_noflush) refl,
          global-byte,
          global-behind,
        )
      ]
