-- ===== src/BbRead/ReadBack.antt =====
-- Reading what the process itself has written.
use peanuts.Base.{ℕ, ◌+◌, ◌-◌, ◌≤◌, ◌<◌, ◌≡◌, ◌≢◌, ◌∙◌, refl, sym, ap, true, Option, some, none}
use peanuts.Base.{List, length, get_elem?, arith, two64, add64, [], ◌∷◌, get_elem?-some}
use peanuts.Pmem.{Memory}
use peanuts.Rpm.{Accessed}
use peanuts.Extent.Points.{contains}
use peanuts.ExtentList.{inverse}
use peanuts.ExtentList.Inverse.{empty-inverse}
use peanuts.NodeSet.Lookup.{lookup, Place}
use peanuts.ExtentTree.Find.{find_lem, Starts}
use peanuts.BbHandler.{Handler, ok, pwrite}
use peanuts.BbHandler.Write.{IsReady, local_byte, pwrite_lem, byte_at}
use peanuts.BbRead.{Outcome, done, read_local, pread_noflush, Node}
use peanuts.BbRead.LocalLoop.{range, IsRead, local_loop-IsRead, is_some}
use peanuts.ExtentTree.{find}
use peanuts.NodeSet.{make_node}
use peanuts.NodeSet.Order.{Reaches}
use peanuts.BbRead.Local.{local_or}
use peanuts.ExtentList

-- The buffer holds the bytes of the process for the range, and is as it was behind it.
pub record Holds (disp : ℕ) (h : Handler) (ofs count : ℕ) (old new : Memory) : Type 0 where
  pub inside : (i : ℕ) → i < count → local_byte disp h (ofs + i) ≡ some (new i)
  pub behind : (i : ℕ) → count ≤ i → new i ≡ old i

pub ne-none : (o : Option Place) → o ≢ none → is_some o ≡ true
ne-none none h = absurd (h refl)
ne-none (some a) h = refl

module _ (disp : ℕ) (h : Handler) (ofs count : ℕ) (ready : IsReady h) (pos : 0 < count)
    (fits : ofs + count < two64) where
  Starts-Reaches :
      (ns : List Node) → Starts (make_node ofs (add64 ofs count) 0 0) ns → Reaches ofs ns
  Starts-Reaches [] s = tt
  Starts-Reaches (n ∷ ns) s = s.0

  pub local-IsRead :
      (buf : Memory)
      → IsRead disp h ofs count ready pos fits
          (find h.local_tree ofs (add64 ofs count))
          (record { el = []; buf = buf; accessed = h.accessed })
          (read_local disp h ofs count buf)
  unfolding read_local
  local-IsRead buf =
      let t = h.local_tree in
      let f = find_lem t ofs (add64 ofs count) ready.nodes in
      local_loop-IsRead disp h ofs count ready pos fits 0 (find t ofs (add64 ofs count)) _ f.0
        (Starts-Reaches (find t ofs (add64 ofs count)) f.1)
        (λ p c a k e. ready.live p c a (sym (f.2 p (ground arith) (ground arith)) ∙ e)) tt

  module _ (held : (i : ℕ) → i < count → lookup h.local_tree (ofs + i) ≢ none) (buf : Memory) where
    held-some :
        (p : ℕ)
        → contains (range disp h ofs count ready pos fits) p ≡ true
        → is_some (lookup (find h.local_tree ofs (add64 ofs count)) p) ≡ true
    held-some p c =
        let f = find_lem h.local_tree ofs (add64 ofs count) ready.nodes in
        let e : ofs + (p - ofs) ≡ p = ground arith in
        let s = held (p - ofs) (ground arith) in
        rw (f.2 p (ground arith) (ground arith)) (ne-none (lookup h.local_tree p) (rw e at s))

    no-hole :
        ExtentList.empty
          (inverse (read_local disp h ofs count buf).el (range disp h ofs count ready pos fits))
        ≡ true
    no-hole =
        let r = local-IsRead buf in
        (empty-inverse 0 (read_local disp h ofs count buf).el
            (range disp h ofs count ready pos fits) (omega arith) r.gapped).1
          (λ p c. r.noted p ∙ ground (arith, held-some p c))

    from-ring :
        (o : Option Place) (x old : ℕ)
        → o ≢ none
        → x ≡ local_or disp h ofs count ready pos fits o old
        → byte_at disp h.memory h.ring.ring_size o ≡ some x
    from-ring none x old n e = absurd (n refl)
    from-ring (some (c, a)) x old n e = ap some (sym e)

    read-inside :
        (i : ℕ)
        → i < count
        → local_byte disp h (ofs + i) ≡ some ((read_local disp h ofs count buf).buf i)
    read-inside i l =
        let f = find_lem h.local_tree ofs (add64 ofs count) ready.nodes in
        let r = local-IsRead buf in
        let e : ofs + i - ofs ≡ i = omega arith in
        let b =
          rw (e, f.2 (ofs + i) (omega arith) (omega arith)) at (r.bytes (ofs + i) (ground arith)) in
        from-ring (lookup h.local_tree (ofs + i)) _ (buf i) (held i l) b

    -- Where a process holds every offset of a non-empty range, the read returns all of it from the
    -- local ring, changes the buffer nowhere else and notes no other rank.
    pread_noflush-local :
        (rring_pread : ℕ → Accessed → ℕ → ℕ → List ℕ × Accessed)
        (file_pread : ℕ → ℕ → Option (List ℕ))
        → (buf' : Memory) × (pread_noflush disp h ofs count rring_pread file_pread buf
            ≡ (done count buf', h.accessed))
          × Holds disp h ofs count buf buf'
    unfolding pread_noflush
    pread_noflush-local rring_pread file_pread =
        let r = local-IsRead buf in
        let q = read_local disp h ofs count buf in
        (q.buf, rw (no-hole, r.accessed), record { inside = read-inside; behind = r.beyond })

byte-none :
    (disp ring : ℕ) (m : Memory) (o : Option Place) (x : ℕ)
    → byte_at disp m ring o ≡ some x
    → o ≢ none
byte-none disp ring m none x e n = cc
byte-none disp ring m (some a) x e n = cc

-- A process reads back what it wrote: for a handler whose tree is in order and whose ring holds
-- what the tree says, behind a write of at least one byte that succeeds, a read of the same range
-- returns as many bytes as were written, and the buffer holds exactly those, whatever the other
-- rings and the file below hold.
pub pread_noflush-pwrite :
    (rank disp ofs n : ℕ) (h h' : Handler) (data' : List ℕ) (buf : Memory)
    (rring_pread : ℕ → Accessed → ℕ → ℕ → List ℕ × Accessed) (file_pread : ℕ → ℕ → Option (List ℕ))
    → IsReady h
    → 0 < length data'
    → ofs + length data' < two64
    → pwrite rank disp h data' ofs ≡ ok (n, h')
    → (buf' : Memory) × ((pread_noflush disp h' ofs n rring_pread file_pread buf).0
        ≡ done (length data') buf')
      × ((i : ℕ) → i < length data' → get_elem? data' i ≡ some (buf' i))
pread_noflush-pwrite rank disp ofs n h h' data' buf rring_pread file_pread ready pos fits e =
    let w = pwrite_lem disp rank h data' ofs ready pos fits e in
    let written : (i : ℕ) → i < length data' → local_byte disp h' (ofs + i) ≡ get_elem? data' i =
      λ i l. w.2 (ofs + i) ∙ (let d : ofs + i - ofs ≡ i = omega arith in rw d (ground arith)) in
    let held : (i : ℕ) → i < length data' → lookup h'.local_tree (ofs + i) ≢ none = λ i l.
      let g = get_elem?-some data' i l in
      byte-none disp h'.ring.ring_size h'.memory (lookup h'.local_tree (ofs + i)) g.0
        (written i l ∙ g.1) in
    let r =
      pread_noflush-local disp h' ofs (length data') w.1 pos fits held buf rring_pread file_pread in
    rw w.0
      (r.0, ap (λ (x : Outcome × Accessed). x.0) r.1, λ i l. sym (written i l) ∙ r.2.inside i l)
