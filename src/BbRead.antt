-- ===== src/BbRead.antt =====
-- `bb_handler::pread_noflush` of projects/peanuts/include/peanuts/bb.hpp: the bytes of a range of
-- the file, first from the local ring, then from the remote rings, then from the file below. The
-- caller's buffer gives the byte at each of its positions.
pub mod Local
pub mod LocalLoop
pub mod ReadBack
pub mod RemotePart
pub mod Holes
pub mod Remote
pub mod RemoteRead
pub mod File
mod Tests
mod RemoteTests
use peanuts.Base.{ℕ, zero, suc, min, max, Bool, true, false, List, [], ◌∷◌, length, ltb, leb}
use peanuts.Base.{if◌then◌else◌, add64, sub64, Option, none, some}
use peanuts.Pmem.{Memory}
use peanuts.Extent.{Extent, overlaps, get_intersection}
use peanuts.ExtentList.{ExtentList, inverse, outer_extent}
use peanuts.NodeSet.{Node}
use peanuts.ExtentTree.{find}
use peanuts.Rpm.{Accessed, FlushCall, no_call, flush, local_pread}
use peanuts.BbHandler.{Handler, end_of}
use peanuts.Pmem
use peanuts.Extent
use peanuts.ExtentList
use peanuts.RingBuffer

-- The number of bytes and the buffer; an exception of the file below, and the buffer as it is then;
-- or undefined behaviour, an iterator moved behind the end.
pub data Outcome : Type 0 where
  done : ℕ → Memory → Outcome
  thrown : Memory → Outcome
  undefined : Outcome

-- What the first two loops have done: the extents read, the buffer, and the ranks accessed.
pub record Progress : Type 0 where
  pub el : ExtentList
  pub buf : Memory
  pub accessed : Accessed

-- Copy `bytes` to the place of the extent in the buffer, and note the extent.
unfoldable pub fill : ℕ → Extent → List ℕ → Accessed → Progress → Progress
fill ofs valid bytes accessed p = record {
  el = ExtentList.add p.el valid;
  buf = Pmem.pwrite p.buf bytes (sub64 valid.begin ofs);
  accessed = accessed;
}

-- `memset` of `n` bytes to zero.
unfoldable pub zeros : ℕ → List ℕ
zeros zero = []
zeros (suc n) = 0 ∷ zeros n

-- The loop over the holes that are left, from the file below. `file_pread` gives the bytes that the
-- file has at an offset, as many as asked for at most, or nothing where it throws: the file could
-- not be opened, or not be read.
module _ (ofs : ℕ) (file_pread : ℕ → ℕ → Option (List ℕ)) (eof : ℕ) where
  abbrev pub zero_hole : Extent → Memory → Memory
  zero_hole x buf =
      Pmem.pwrite buf (zeros (min (Extent.size x) (sub64 eof x.begin))) (sub64 x.begin ofs)

  -- A round of the inner loop, which fills holes with zeros. At a hole behind `eof` it ends, and the
  -- outer loop moves on to the next hole.
  unfoldable pub zero_round : (Bool → Memory → Outcome) → Extent → Memory → Outcome
  zero_round next x buf = elim (leb eof x.begin) [
    | true ↦ next false buf
    | false ↦ next true (zero_hole x buf)
  ]

  -- A round of the outer loop behind the read. The inner loop starts at the hole at which the outer
  -- one stands.
  unfoldable pub bytes_round : (Bool → Memory → Outcome) → Extent → Memory → List ℕ → Outcome
  unfolding zero_round
  bytes_round next x buf bytes =
      let rsize = length bytes in
      let remain = sub64 (Extent.size x) rsize in
      let buf' = Pmem.pwrite buf bytes (sub64 x.begin ofs) in
      let gap = min remain (sub64 eof (add64 x.begin rsize)) in
      let buf'' = Pmem.pwrite buf' (zeros gap) (add64 (sub64 x.begin ofs) rsize) in
      elim (ltb 0 remain) [
        | false ↦ next false buf'
        | true ↦ elim (leb eof (add64 x.begin rsize)) [
          | true ↦ done 0 buf'
          | false ↦ zero_round next x buf''
        ]
      ]

  -- A round of the outer loop.
  unfoldable pub read_round : (Bool → Memory → Outcome) → Extent → Memory → Outcome
  unfolding bytes_round
  read_round next x buf = elim (file_pread x.begin (Extent.size x)) [
    | none ↦ thrown buf
    | some bytes ↦ bytes_round next x buf bytes
  ]

  -- The flag tells that the inner loop runs. When that one reaches the end of the list, the outer
  -- loop moves its iterator behind the end.
  unfoldable pub file_loop : ExtentList → Bool → Memory → Outcome
  unfolding zeros read_round
  file_loop [] zeroing buf = if zeroing then undefined else done 0 buf
  file_loop (x ∷ xs) zeroing buf =
      if zeroing then zero_round (file_loop xs) x buf else read_round (file_loop xs) x buf

  -- What follows the loop: the number of bytes to return, as an unsigned number.
  unfoldable pub finish : ℕ → Outcome → Outcome
  finish count undefined = undefined
  finish count (thrown buf) = thrown buf
  finish count (done n buf) = done (if leb eof (add64 ofs count) then sub64 eof ofs else count) buf

module _ (disp : ℕ) (h : Handler) (ofs count : ℕ) where
  abbrev pub user_buf_extent : Extent
  user_buf_extent = record { begin = ofs; end = add64 ofs count }

  -- Bytes of the local ring.
  unfoldable pub ring_pread : ℕ → ℕ → List ℕ
  ring_pread n lsn =
      (RingBuffer.pread {S = Unit {0}} (λ s k o. (local_pread h.memory disp k o, s)) h.ring tt n
        lsn).0

  unfoldable pub local_loop : List Node → Progress → Progress
  unfolding fill ring_pread
  local_loop [] p = p
  local_loop (n ∷ ns) p = elim (overlaps n.ex user_buf_extent) [
    | false ↦ p
    | true ↦
        let valid = get_intersection n.ex user_buf_extent in
        local_loop ns (
          fill ofs valid
            (ring_pread (Extent.size valid) (add64 n.ptr (sub64 valid.begin n.ex.begin))) p.accessed
            p)
  ]

  unfoldable pub read_local : Memory → Progress
  unfolding local_loop
  read_local buf =
      local_loop (find h.local_tree ofs (add64 ofs count))
        (record { el = []; buf = buf; accessed = h.accessed })

  -- `rring(rank).pread_noflush`: a remote ring's bytes, and the ranks accessed behind the call.
  module _ (rring_pread : ℕ → Accessed → ℕ → ℕ → List ℕ × Accessed) where
    unfoldable pub global_loop : ExtentList → List Node → Progress → Progress
    unfolding fill
    global_loop [] ns p = p
    global_loop (x ∷ xs) [] p = p
    global_loop (x ∷ xs) (n ∷ ns) p = elim (leb x.end n.ex.begin) [
      | true ↦ global_loop xs (n ∷ ns) p
      | false ↦ elim (leb n.ex.end x.begin) [
        | true ↦ global_loop (x ∷ xs) ns p
        | false ↦
            let valid = get_intersection x n.ex in
            let (bytes, accessed) =
              rring_pread n.client_id p.accessed (Extent.size valid)
                (add64 n.ptr (sub64 valid.begin n.ex.begin)) in
            let p' = fill ofs valid bytes accessed p in
            elim (ltb x.end n.ex.end) [
              | true ↦ global_loop xs (n ∷ ns) p'
              | false ↦ elim (ltb n.ex.end x.end) [
                | true ↦ global_loop (x ∷ xs) ns p'
                | false ↦ global_loop xs ns p'
              ]
            ]
      ]
    ]

  module _ (rring_pread : ℕ → Accessed → ℕ → ℕ → List ℕ × Accessed)
      (file_pread : ℕ → ℕ → Option (List ℕ)) where
    unfoldable pub read_global : Progress → Progress
    unfolding global_loop
    read_global p =
        let hole_el = inverse p.el user_buf_extent in
        let outer = outer_extent hole_el in
        global_loop rring_pread hole_el (find h.global_tree outer.begin outer.end) p

    unfoldable pub read_file : Progress → Outcome
    unfolding file_loop finish
    read_file p =
        let eof = max (end_of h.local_tree) (end_of h.global_tree) in
        finish ofs file_pread eof count
          (file_loop ofs file_pread eof (inverse p.el user_buf_extent) false p.buf)

    -- The outcome, and the ranks accessed. On an empty tree the loop over it makes no round.
    unfoldable pub pread_noflush : Memory → Outcome × Accessed
    unfolding read_local read_global read_file
    pread_noflush buf =
        let p = read_local buf in
        if ExtentList.empty (inverse p.el user_buf_extent)
        then (done count p.buf, p.accessed)
        else (let q = read_global p in
            if ExtentList.empty (inverse q.el user_buf_extent)
            then (done count q.buf, q.accessed)
            else (read_file q, q.accessed))

    -- `pread`: the outcome, and what the flush behind it asks of the windows. The remote rings share
    -- the ranks accessed, so that the flush of the first one is that of all. An exception comes before
    -- the flush.
    unfoldable pub flush_behind : Outcome → Accessed → FlushCall × Accessed
    flush_behind (done n buf) accessed = flush accessed
    flush_behind (thrown buf) accessed = (no_call, accessed)
    flush_behind undefined accessed = (no_call, accessed)

    unfoldable pub pread : Memory → Outcome × FlushCall × Accessed
    unfolding pread_noflush flush_behind
    pread buf =
        let (outcome, accessed) = pread_noflush buf in
        let (call, accessed') = flush_behind outcome accessed in (outcome, call, accessed')
