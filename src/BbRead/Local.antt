-- ===== src/BbRead/Local.antt =====
-- The loop of `pread_noflush` over the local tree.
use peanuts.Base.{ℕ, zero, suc, ◌+◌, ◌-◌, ◌≤◌, ◌<◌, ◌≡◌, ◌∙◌, refl, ap, true, Option, some, none}
use peanuts.Base.{List, arith, two64, add64, sub64, max, min, length, ◌⊎◌}
use peanuts.Pmem.{Memory, store}
use peanuts.Pmem.Laws.{pwrite-outside}
use peanuts.Extent.{Extent, overlaps, get_intersection}
use peanuts.Extent.Points.{contains}
use peanuts.NodeSet.{Node}
use peanuts.NodeSet.Order.{IsNode}
use peanuts.NodeSet.Lookup.{Place, lookup}
use peanuts.RingBuffer.Stream.{address, stream_read}
use peanuts.RingBuffer.Transfer.{pread-stream_read}
use peanuts.BbHandler.{Handler}
use peanuts.BbHandler.Write.{IsReady}
use peanuts.BbRead.{ring_pread}
use peanuts.Rpm.{local_pread}
use peanuts.Pmem
use peanuts.Extent

abbrev pub addr : Node → ℕ → ℕ
addr n p = add64 n.ptr (sub64 p n.ex.begin)

-- Addresses that stay below a 64-bit number do not wrap around.
addr-next :
    (n : Node) (head b k : ℕ)
    → n.ex.begin ≤ b
    → b + k < two64
    → head < two64
    → ((j : ℕ) → j < k → addr n (b + j) < head)
    → addr n (b + k) ≡ addr n b + k
addr-next n head b zero h g l f = omega arith
addr-next n head b (suc k) h g l f =
    let ih = addr-next n head b k h (omega arith) l (λ j q. f j (omega arith)) in
    let last = f k (omega arith) in omega arith

-- A buffer into which a range of the stream was copied.
pwrite-stream :
    (base ring : ℕ) (m buf : Memory) (n lsn o k : ℕ)
    → k < n
    → Pmem.pwrite buf (stream_read base ring m n lsn) o (o + k) ≡ m (address base ring (lsn + k))
unfolding stream_read Pmem.pwrite
pwrite-stream base ring m buf zero lsn o k h = absurd (omega arith)
pwrite-stream base ring m buf (suc n) lsn o zero h =
    let e : o + 0 ≡ o = omega arith in
    let f : lsn + 0 ≡ lsn = omega arith in
    rw (e, f)
      (pwrite-outside (store buf o (m (address base ring lsn)))
          (stream_read base ring m n (lsn + 1)) (o + 1) o (omega arith)
        ∙ ground arith)
pwrite-stream base ring m buf (suc n) lsn o (suc k) h =
    let e : o + suc k ≡ o + 1 + k = omega arith in
    let f : lsn + suc k ≡ lsn + 1 + k = omega arith in
    rw (e, f)
      (pwrite-stream base ring m (store buf o (m (address base ring lsn))) n (lsn + 1) (o + 1) k
        (omega arith))

length-stream_read :
    (base ring : ℕ) (m : Memory) (n lsn : ℕ) → length (stream_read base ring m n lsn) ≡ n
unfolding stream_read
length-stream_read base ring m zero lsn = refl
length-stream_read base ring m (suc n) lsn = ap suc (length-stream_read base ring m n (lsn + 1))

module _ (disp : ℕ) (h : Handler) (ofs count : ℕ) (ready : IsReady h) (pos : 0 < count)
    (fits : ofs + count < two64) where
  abbrev pub range : Extent
  range = record { begin = ofs; end = add64 ofs count }

  ring_pread-stream :
      (n lsn : ℕ)
      → n ≤ h.ring.ring_size
      → ring_pread disp h ofs count n lsn ≡ stream_read disp h.ring.ring_size h.memory n lsn
  unfolding ring_pread
  ring_pread-stream n lsn l =
      pread-stream_read {S = Unit {0}} (λ s k o. (local_pread h.memory disp k o, s)) h.memory disp
        (λ s k o. unfold local_pread in refl) h.ring tt n lsn
        (record { pos = ready.pos; small = ready.small; fits = l })

  -- What is in the ring of an offset, and the byte that the buffer had where nothing is.
  abbrev pub local_or : Option Place → ℕ → ℕ
  local_or none old = old
  local_or (some (c, a)) old = h.memory (address disp h.ring.ring_size a)

  -- What the list says of the range lies between tail and head.
  abbrev pub IsLive : List Node → Type 0
  IsLive ns =
      (p c a : ℕ)
      → contains range p ≡ true
      → lookup ns p ≡ some (c, a)
      → (h.ring.tail_lsn ≤ a) × (a < h.ring.head_lsn)

  -- One node that meets the range.
  module _ (n : Node) (node : IsNode n) (starts : n.ex.begin < ofs + count) (ends : ofs < n.ex.end)
      (live : (p : ℕ)
        → contains range p ≡ true
        → contains n.ex p ≡ true
        → (h.ring.tail_lsn ≤ addr n p) × (addr n p < h.ring.head_lsn)) where
    abbrev pub valid : Extent
    valid = record { begin = max n.ex.begin ofs; end = min n.ex.end (add64 ofs count) }

    pub valid-bounds :
        (valid.begin < valid.end)
        × (n.ex.begin ≤ valid.begin)
        × (ofs ≤ valid.begin)
        × (valid.end ≤ n.ex.end)
        × (valid.end ≤ ofs + count)
        × (valid.end < two64)
    valid-bounds = (omega arith, omega arith, omega arith, omega arith, omega arith, omega arith)

    head-lt : h.ring.head_lsn < two64
    head-lt = let r = ready in omega arith

    pub linear :
        (k : ℕ) → valid.begin + k < valid.end → addr n (valid.begin + k) ≡ addr n valid.begin + k
    linear k l =
        let v = valid-bounds in
        addr-next n h.ring.head_lsn valid.begin k v.1 (omega arith) head-lt
          (λ j q. (live (valid.begin + j) (ground arith) (ground arith)).1)

    short : valid.end - valid.begin ≤ h.ring.ring_size
    short =
        let v = valid-bounds in
        let r = ready in
        let e = linear (valid.end - valid.begin - 1) (omega arith) in
        let a = live valid.begin (ground arith) (ground arith) in
        let b = live (valid.begin + (valid.end - valid.begin - 1)) (ground arith) (ground arith) in
        omega arith

    abbrev pub bytes : List ℕ
    bytes =
        ring_pread disp h ofs count (Extent.size valid) (add64 n.ptr (sub64 valid.begin n.ex.begin))

    size-valid : Extent.size valid ≡ valid.end - valid.begin
    unfolding Extent.size
    size-valid = let v = valid-bounds in omega arith

    bytes-stream :
        bytes
        ≡ stream_read disp h.ring.ring_size h.memory (valid.end - valid.begin) (addr n valid.begin)
    bytes-stream =
        rw size-valid (ring_pread-stream (valid.end - valid.begin) (addr n valid.begin) short)

    -- The node's bytes come to their places in the buffer, and no other place changes.
    pub buffer-inside :
        (buf : Memory) (p : ℕ)
        → valid.begin ≤ p
        → p < valid.end
        → Pmem.pwrite buf bytes (sub64 valid.begin ofs) (p - ofs)
          ≡ h.memory (address disp h.ring.ring_size (addr n p))
    buffer-inside buf p l m =
        let v = valid-bounds in
        let e : sub64 valid.begin ofs ≡ valid.begin - ofs = omega arith in
        let f : p - ofs ≡ valid.begin - ofs + (p - valid.begin) = omega arith in
        let g : valid.begin + (p - valid.begin) ≡ p = omega arith in
        let k : addr n p ≡ addr n valid.begin + (p - valid.begin) =
          rw g at (linear (p - valid.begin) (omega arith)) in
        rw (bytes-stream, e, f, k)
          (pwrite-stream disp h.ring.ring_size h.memory buf (valid.end - valid.begin)
            (addr n valid.begin) (valid.begin - ofs) (p - valid.begin) (omega arith))

    pub buffer-outside :
        (buf : Memory) (i : ℕ)
        → (i + ofs < valid.begin) ⊎ (valid.end ≤ i + ofs)
        → Pmem.pwrite buf bytes (sub64 valid.begin ofs) i ≡ buf i
    buffer-outside buf i o =
        let v = valid-bounds in
        let e : sub64 valid.begin ofs ≡ valid.begin - ofs = omega arith in
        rw (bytes-stream, e)
          (pwrite-outside buf _ (valid.begin - ofs) i (
            omega (
              arith,
              length-stream_read disp h.ring.ring_size h.memory (valid.end - valid.begin)
                  (addr n valid.begin),
            )))
