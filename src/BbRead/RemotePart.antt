-- ===== src/BbRead/RemotePart.antt =====
-- A round of the loop over the holes and the global tree: the part of a hole that a node has.
use peanuts.Base.{ℕ, zero, suc, ◌+◌, ◌-◌, ◌≤◌, ◌<◌, ◌≡◌, ◌∙◌, refl, ap, ◌&&◌, ◌||◌, Option, max}
use peanuts.Base.{min, ap₂, ◌⊎◌, some, none, List, [], ◌∷◌, length, arith, two64, add64, sub64}
use peanuts.Base.{Bool-cases, inl, inr, if◌then◌else◌, ◌%◌}
use peanuts.Pmem.{Memory, store}
use peanuts.Pmem.Laws.{pwrite-outside}
use peanuts.Extent.{Extent, get_intersection}
use peanuts.Extent.Points.{contains, contains-get_intersection}
use peanuts.ExtentList.Sorted.{covers, IsGapped}
use peanuts.ExtentList.Add.{add-IsGapped, covers-add}
use peanuts.NodeSet.{Node}
use peanuts.NodeSet.Lookup.{Place}
use peanuts.Rpm.{Accessed}
use peanuts.BbRead.{Progress, fill}
use peanuts.Pmem
use peanuts.Extent

-- `n` bytes from an address on.
abbrev pub bytes_from : (ℕ → ℕ) → ℕ → ℕ → List ℕ
bytes_from f zero a = []
bytes_from f (suc n) a = f a ∷ bytes_from f n (a + 1)

pub length-bytes_from : (f : ℕ → ℕ) (n a : ℕ) → length (bytes_from f n a) ≡ n
length-bytes_from f zero a = refl
length-bytes_from f (suc n) a = ap suc (length-bytes_from f n (a + 1))

pwrite-bytes_from :
    (f : ℕ → ℕ) (buf : Memory) (n a o k : ℕ)
    → k < n
    → Pmem.pwrite buf (bytes_from f n a) o (o + k) ≡ f (a + k)
unfolding Pmem.pwrite
pwrite-bytes_from f buf zero a o k h = absurd (omega arith)
pwrite-bytes_from f buf (suc n) a o zero h =
    let e : o + 0 ≡ o = omega arith in
    let g : a + 0 ≡ a = omega arith in
    rw (e, g)
      (pwrite-outside (store buf o (f a)) (bytes_from f n (a + 1)) (o + 1) o (omega arith)
        ∙ ground arith)
pwrite-bytes_from f buf (suc n) a o (suc k) h =
    let e : o + suc k ≡ o + 1 + k = omega arith in
    let g : a + suc k ≡ a + 1 + k = omega arith in
    rw (e, g) (pwrite-bytes_from f (store buf o (f a)) n (a + 1) (o + 1) k (omega arith))

-- The addresses of a node, counted from a 64-bit number, do not wrap around, and there are at most as many as `limit`
-- tells for the client.
abbrev pub IsPlaced : (ℕ → ℕ) → Node → Type 0
IsPlaced limit n =
    (n.ptr % two64 + (n.ex.end - n.ex.begin) < two64) × (n.ex.end - n.ex.begin ≤ limit n.client_id)

-- What a place holds, `remote` telling the byte of a rank at an address; else the byte there was.
abbrev pub remote_or : (ℕ → ℕ → ℕ) → Option Place → ℕ → ℕ
remote_or remote none old = old
remote_or remote (some (c, a)) old = remote c a

module _ (ofs : ℕ) (rring_pread : ℕ → Accessed → ℕ → ℕ → List ℕ × Accessed) (remote : ℕ → ℕ → ℕ)
    (limit : ℕ → ℕ)
    (reads : (r : ℕ) (acc : Accessed) (n lsn : ℕ)
      → 0 < n
      → n ≤ limit r
      → (rring_pread r acc n lsn).0 ≡ bytes_from (remote r) n lsn) where
  -- A hole and a node that meet.
  module _ (x : Extent) (n : Node) (low : ofs ≤ x.begin) (whole : x.begin < x.end)
      (word : x.end < two64) (node : n.ex.begin < n.ex.end) (last : n.ex.end < two64)
      (placed : IsPlaced limit n) (starts : n.ex.begin < x.end) (ends : x.begin < n.ex.end)
      (p : Progress) where
    unfoldable pub part : Extent
    unfolding get_intersection
    part = get_intersection x n.ex

    unfoldable pub answer : List ℕ × Accessed
    unfolding Extent.size
    answer =
        rring_pread n.client_id p.accessed (Extent.size part)
          (add64 n.ptr (sub64 part.begin n.ex.begin))

    unfoldable pub filled : Progress
    unfolding part answer fill
    filled = fill ofs part answer.0 answer.1 p

    pub filled-IsGapped : IsGapped 0 p.el → IsGapped 0 filled.el
    unfolding filled
    filled-IsGapped g = add-IsGapped 0 p.el part (omega arith) (omega arith) g

    pub filled-noted :
        (q : ℕ)
        → IsGapped 0 p.el
        → covers filled.el q ≡ ((contains x q && contains n.ex q) || covers p.el q)
    unfolding filled
    filled-noted q g =
        covers-add 0 p.el part q (omega arith) g
        ∙ ground (arith, contains-get_intersection x n.ex q)

    abbrev part_begin : ℕ
    part_begin = max x.begin n.ex.begin

    abbrev part_end : ℕ
    part_end = min x.end n.ex.end

    answer-bytes :
        answer.0
        ≡ bytes_from
            (remote n.client_id)
            (part_end - part_begin)
            (n.ptr % two64 + (part_begin - n.ex.begin))
    unfolding answer part get_intersection Extent.size
    answer-bytes =
        let s : sub64 part_end part_begin ≡ part_end - part_begin = omega arith in
        let a : add64 n.ptr (sub64 part_begin n.ex.begin)
            ≡ n.ptr % two64 + (part_begin - n.ex.begin) =
          omega arith in
        reads n.client_id p.accessed (sub64 part_end part_begin)
          (add64 n.ptr (sub64 part_begin n.ex.begin)) (omega arith) (omega arith)
        ∙ ap₂ (bytes_from (remote n.client_id)) s a

    pub filled-bytes :
        (i : ℕ)
        → filled.buf i ≡ (
            if contains x (ofs + i) && contains n.ex (ofs + i)
            then remote n.client_id (add64 n.ptr (sub64 (ofs + i) n.ex.begin))
            else p.buf i)
    unfolding filled answer
    filled-bytes i =
        let f = remote n.client_id in
        let bytes =
          bytes_from f (part_end - part_begin) (n.ptr % two64 + (part_begin - n.ex.begin)) in
        let o : sub64 part_begin ofs ≡ part_begin - ofs = omega arith in
        let l =
          length-bytes_from f (part_end - part_begin) (n.ptr % two64 + (part_begin - n.ex.begin)) in
        elim (Bool-cases (contains x (ofs + i) && contains n.ex (ofs + i))) [
          | inl c ↦
              (let k = ofs + i - part_begin in
                let inside : (part_begin ≤ ofs + i) × (ofs + i < part_end) =
                  (ground arith, ground arith) in
                let e : i ≡ part_begin - ofs + k = omega (arith, inside) in
                let a : n.ptr % two64 + (part_begin - n.ex.begin) + k
                    ≡ add64 n.ptr (sub64 (ofs + i) n.ex.begin) =
                  omega (arith, inside) in
                rw (c, answer-bytes, o)
                  (ap (Pmem.pwrite p.buf bytes (part_begin - ofs)) e
                    ∙ pwrite-bytes_from f p.buf (part_end - part_begin)
                        (n.ptr % two64 + (part_begin - n.ex.begin)) (part_begin - ofs) k
                        (omega (arith, inside))
                    ∙ ap f a))
          | inr c ↦
              (let outside : (ofs + i < part_begin) ⊎ (part_end ≤ ofs + i) = ground arith in
                rw (c, answer-bytes, o)
                  (pwrite-outside p.buf bytes (part_begin - ofs) i (omega (arith, outside, l))))
        ]
