-- ===== src/Cluster/Read.antt =====
-- `read`, beside what the specification lets a process see.
use peanuts.Base.{ℕ, ◌+◌, ◌≤◌, ◌<◌, ◌≡◌, ◌≢◌, ◌∙◌, ap, ap₂, sym, refl, arith, Option, some, none}
use peanuts.Base.{two64, All, List, ◌-◌, ◌^◌}
use peanuts.Pmem.{Memory}
use peanuts.NodeSet.Lookup.{Place, lookup, first}
use peanuts.NodeSet.Order.{IsNodes}
use peanuts.ExtentTree.{ExtentTree}
use peanuts.Rpm.{Accessed, RankInfo}
use peanuts.RingBuffer.Stream.{address}
use peanuts.BbHandler.{Handler}
use peanuts.BbHandler.Write.{IsReady, local_byte}
use peanuts.BbRead.{done}
use peanuts.BbRead.RemotePart.{IsPlaced, bytes_from, remote_or}
use peanuts.BbRead.RemoteRead.{byte_at, pread_noflush-known}
use peanuts.Cluster.{Cluster, handler_of, read, rring_pread}
use peanuts.Cluster.Consistent.{IsConsistent, Refines, place_byte, ring_byte}
use peanuts.Cluster.Fabric.{IsFabric, rring_pread-bytes_from}
use peanuts.Cluster.Placed.{limit, nodes-IsPlaced}
use peanuts.Cluster.Spec.{Spec, visible, or_else}
use peanuts.Cluster.Kept.{IsReady-memory}
use peanuts.BbHandler.Write

module _ (c : Cluster) (g : ExtentTree) (s : Spec) (q : ℕ) (win_get : ℕ → ℕ → ℕ → List ℕ)
    (info : ℕ → RankInfo) (consistent : IsConsistent c g) (refines : Refines c g s)
    (fabric : IsFabric c q win_get info) (rank : q < c.size) where
  abbrev reader : Handler
  reader = handler_of c q

  -- What is seen of two places, if anything is.
  at_places :
      (x y : Option Place) (old : ℕ)
      → or_else (Write.byte_at (c.disp q) reader.memory reader.ring.ring_size x) (place_byte c y)
        ≢ none
      → or_else (Write.byte_at (c.disp q) reader.memory reader.ring.ring_size x) (place_byte c y)
        ≡ some (elim x [
          | some (v, a) ↦ reader.memory (address (c.disp q) reader.ring.ring_size a)
          | none ↦ remote_or (ring_byte c) y old
        ])
  at_places none none old n = absurd (n refl)
  at_places none (some (v, a)) old n = refl
  at_places (some (v, a)) y old n = refl

  same-global : reader.global_tree ≡ g
  unfolding handler_of
  same-global = consistent.agreed q rank

  visible-places :
      (p : ℕ)
      → visible s q p
        ≡ or_else (local_byte (c.disp q) reader p) (place_byte c (lookup reader.global_tree p))
  visible-places p = ap₂ or_else (sym (refines.pending q p rank)) (
      sym (refines.committed p)
      ∙ ap (λ (t : ExtentTree). place_byte c (lookup t p)) (sym same-global))

  seen :
      (p old : ℕ)
      → visible s q p ≢ none
      → visible s q p ≡ some (byte_at (c.disp q) reader (ring_byte c) p old)
  seen p old n =
      let e = visible-places p in
      e ∙ at_places (lookup reader.local_tree p) (lookup reader.global_tree p) old (λ k. n (e ∙ k))

  -- An offset that is seen is in one of the trees.
  known :
      (p : ℕ)
      → visible s q p ≢ none
      → first (lookup reader.local_tree p) (lookup reader.global_tree p) ≢ none
  known p n k =
      n (visible-places p ∙ no_place (lookup reader.local_tree p) (lookup reader.global_tree p) k)
    where
      no_place :
          (x y : Option Place)
          → first x y ≡ none
          → or_else
              (Write.byte_at (c.disp q) reader.memory reader.ring.ring_size x)
              (place_byte c y)
            ≡ none
      no_place none none k = refl
      no_place none (some a) k = cc
      no_place (some a) y k = cc

  -- The ends of the rings.
  abbrev tail : ℕ → ℕ
  tail v = (c.local v).ring.tail_lsn

  abbrev head : ℕ → ℕ
  head v = (c.local v).ring.head_lsn

  ring-span : (v : ℕ) → v < c.size → (head v ≤ tail v + c.ring_size) × (head v < two64)
  unfolding handler_of
  ring-span v l =
      let r : IsReady (c.local v) = IsReady-memory _ _ (consistent.ready v l) in
      let z = consistent.sized v l in (omega arith, omega arith)

  ring-sized : (0 < c.ring_size) × (c.ring_size < 2 ^ 63)
  unfolding handler_of
  ring-sized =
      let r : IsReady (c.local q) = IsReady-memory _ _ (consistent.ready q rank) in
      let z = consistent.sized q rank in (omega arith, omega arith)

  abbrev ring_limit : ℕ → ℕ
  ring_limit = limit c.size c.ring_size tail head ring-span

  reads :
      (r : ℕ) (acc : Accessed) (n lsn : ℕ)
      → 0 < n
      → n ≤ ring_limit r
      → (rring_pread win_get info c q r acc n lsn).0 ≡ bytes_from (ring_byte c r) n lsn
  reads r acc n lsn pos fits =
      rring_pread-bytes_from c q win_get info fabric r acc n lsn (ground arith) ring-sized.0
        ring-sized.1 (ground arith)

  placed : All (IsPlaced ring_limit) reader.global_tree
  placed =
      rw same-global
        (nodes-IsPlaced c.size c.ring_size tail head ring-span 0 g consistent.nodes consistent.live)

  -- Where consistent processes hold what the specification says, and the process of a rank reaches
  -- the blocks of the others, a read of a non-empty range by that rank, each offset of which is
  -- visible to it, returns the whole range: the buffer then has at each position the byte that is
  -- visible there, the bytes that the process wrote itself in front of those committed, and is as
  -- it was behind the range.
  pub read-visible :
      (file_pread : ℕ → ℕ → Option (List ℕ)) (ofs count : ℕ) (buf : Memory)
      → 0 < count
      → ofs + count < two64
      → ((i : ℕ) → i < count → visible s q (ofs + i) ≢ none)
      → (buf' : Memory) × ((read win_get info file_pread c q ofs count buf).0 ≡ done count buf')
        × ((i : ℕ) → i < count → visible s q (ofs + i) ≡ some (buf' i))
        × ((i : ℕ) → count ≤ i → buf' i ≡ buf i)
  unfolding read
  read-visible file_pread ofs count buf pos fits v =
      let global : IsNodes 0 reader.global_tree = rw same-global consistent.nodes in
      let x =
        pread_noflush-known (c.disp q) reader ofs count (consistent.ready q rank) pos fits global
          ring_limit placed (rring_pread win_get info c q) (ring_byte c) reads file_pread buf
          (λ p t.
            let e : ofs + (p - ofs) ≡ p = ground arith in
            known p (rw e at (v (p - ofs) (ground arith)))) in
      (x.0, x.1, λ i l. seen (ofs + i) (buf i) (v i l) ∙ ap some (sym (x.2 i l)), x.3)
