-- ===== src/Cluster/Write.antt =====
-- `write`, beside its specification.
use peanuts.Base.{ℕ, ◌+◌, ◌≤◌, ◌<◌, ◌≡◌, ◌≢◌, ◌∙◌, sym, ap, some, List, length, arith, two64, ◌⊎◌}
use peanuts.Base.{if◌then◌else◌, refl, Option, inl, inr, none, get_elem?, leb, ltb, ◌&&◌, ◌-◌, ap₂}
use peanuts.Pmem.{Memory}
use peanuts.NodeSet.Lookup.{Place, lookup}
use peanuts.BbHandler.{Handler, ok}
use peanuts.BbHandler.Write.{IsReady, local_byte, byte_at}
use peanuts.ThreadLocal.{update}
use peanuts.ThreadLocal.Values.{update-same, update-other}
use peanuts.Cluster.{Cluster, handler_of, put_handler, write}
use peanuts.Cluster.Consistent.{IsConsistent, Refines}
use peanuts.Cluster.Written.{IsWritten, write-cases}
use peanuts.Cluster.Kept.{IsReady-memory, after, local-written, local-other, byte-kept}
use peanuts.Cluster.Kept.{place_byte-kept, ring_le}
use peanuts.Cluster.Spec.{Spec, overwrite}
use peanuts.ExtentTree.{ExtentTree}
use native.Mathlib.Decide.{ℕ_discrete}
use mathlib.Core.Path.{subst}
use peanuts.Cluster.Spec

module _ (c : Cluster) (g : ExtentTree) (consistent : IsConsistent c g) (w : ℕ) (buf : List ℕ)
    (ofs n : ℕ) (rank : w < c.size) (h : Handler) (done : IsWritten c w buf ofs n h) where
  abbrev next : Cluster
  next = after c g consistent w buf ofs n rank h done

  local-cases : (r : ℕ) → ((r ≡ w) × (next.local r ≡ h)) ⊎ ((r ≢ w) × (next.local r ≡ c.local r))
  local-cases r = elim (ℕ_discrete r w) [
    | yes e ↦ inl (e, ap next.local e ∙ local-written c g consistent w buf ofs n rank h done)
    | no d ↦ inr (d, local-other c g consistent w buf ofs n rank h done r d)
  ]

  next-IsReady : (r : ℕ) → r < c.size → IsReady (handler_of next r)
  unfolding handler_of
  next-IsReady r l = elim (local-cases r) [
    | inl (e, f) ↦ rw f (IsReady-memory h _ done.ready)
    | inr (d, f) ↦ rw f (IsReady-memory (c.local r) _ (IsReady-memory _ _ (consistent.ready r l)))
  ]

  next-IsConsistent : IsConsistent next g
  unfolding put_handler
  next-IsConsistent = record {
    ready = next-IsReady;
    sized = λ r l. elim (local-cases r) [
      | inl (e, f) ↦ ap (λ (x : Handler). x.ring.ring_size) f ∙ done.ring_size
      | inr (d, f) ↦ ap (λ (x : Handler). x.ring.ring_size) f ∙ consistent.sized r l
    ];
    own = λ r p v a l k. elim (local-cases r) [
      | inl (e, f) ↦
          done.own p v a (ap (λ (x : Handler). lookup x.local_tree p) (sym f) ∙ k) ∙ sym e
      | inr (d, f) ↦
          consistent.own r p v a l (ap (λ (x : Handler). lookup x.local_tree p) (sym f) ∙ k)
    ];
    agreed = λ r l. elim (local-cases r) [
      | inl (e, f) ↦ ap (λ (x : Handler). x.global_tree) f ∙ done.global ∙ consistent.agreed w rank
      | inr (d, f) ↦ ap (λ (x : Handler). x.global_tree) f ∙ consistent.agreed r l
    ];
    nodes = consistent.nodes;
    live = λ p v a k.
        let b = consistent.live p v a k in
        let m = ring_le c g consistent w buf ofs n rank h done v in (b.0, omega arith, omega arith);
    apart = consistent.apart;
  }

  handler-written : handler_of next w ≡ h
  unfolding handler_of put_handler
  handler-written =
      ap₂ (λ (x : Handler) (m : Memory). record x { memory = m })
        (local-written c g consistent w buf ofs n rank h done)
        (update-same c.memory (c.node w) h.memory)

  module _ (s : Spec) (refines : Refines c g s) where
    -- What another rank holds is where it was.
    pending-other :
        (r p : ℕ) → r < c.size → r ≢ w → local_byte (c.disp r) (handler_of next r) p ≡ s.pending r p
    unfolding handler_of put_handler
    pending-other r p l d = rw (local-other c g consistent w buf ofs n rank h done r d) (
        at_place (lookup (c.local r).local_tree p) (λ v a e. ((consistent.ready r l).live p v a e))
        ∙ refines.pending r p l)
      where
        at_place :
            (o : Option Place)
            → ((v a : ℕ)
                → o ≡ some (v, a)
                → ((c.local r).ring.tail_lsn ≤ a) × (a < (c.local r).ring.head_lsn))
            → byte_at (c.disp r) (next.memory (c.node r)) (c.local r).ring.ring_size o
              ≡ byte_at (c.disp r) (c.memory (c.node r)) (c.local r).ring.ring_size o
        at_place none k = refl
        at_place (some (v, a)) k =
            let b = k v a refl in
            rw (consistent.sized r l)
              (ap some (byte-kept c g consistent w buf ofs n rank h done r a l b.0 b.1))

    pending-own :
        (p : ℕ) → local_byte (c.disp w) (handler_of next w) p ≡ overwrite buf ofs (s.pending w) p
    pending-own p =
        ap (λ (x : Handler). local_byte (c.disp w) x p) handler-written
        ∙ done.bytes p
        ∙ ap
            (λ (x : Option ℕ).
              if leb ofs p && ltb p (ofs + length buf) then get_elem? buf (p - ofs) else x)
            (refines.pending w p rank)

    next-Refines : Refines next g (Spec.write w buf ofs s)
    unfolding Spec.write put_handler
    next-Refines = record {
      committed =
          λ p. place_byte-kept c g consistent w buf ofs n rank h done p ∙ refines.committed p;
      pending = λ r p l. elim (ℕ_discrete r w) [
        | yes e ↦
            subst
              (λ (k : ℕ).
                local_byte (c.disp k) (handler_of next k) p
                ≡ update s.pending w (overwrite buf ofs (s.pending w)) k p)
              (sym e)
              (pending-own p ∙ sym (ap (λ (f : ℕ → Option ℕ). f p) (update-same s.pending w _)))
        | no d ↦
            pending-other r p l d
            ∙ sym (ap (λ (f : ℕ → Option ℕ). f p) (update-other s.pending w _ r d))
      ];
    }

-- A write of at least one byte by a rank of consistent processes, if it succeeds, returns the
-- number of bytes, keeps the number of processes and keeps them consistent under the same global
-- tree, and where they hold what the specification says, does to the file what the specification of
-- a write says: the bytes are pending at the rank, and nothing else changes for any rank.
pub write-Refines :
    (c : Cluster) (g : ExtentTree) (s : Spec) (w : ℕ) (buf : List ℕ) (ofs : ℕ) {n : ℕ}
    {c' : Cluster}
    → IsConsistent c g
    → Refines c g s
    → w < c.size
    → 0 < length buf
    → ofs + length buf < two64
    → write w buf ofs c ≡ ok (n, c')
    → (n ≡ length buf)
      × (c'.size ≡ c.size)
      × IsConsistent c' g
      × Refines c' g (Spec.write w buf ofs s)
unfolding put_handler
write-Refines c g s w buf ofs {n} {c'} k r rank pos fits e =
    let x = write-cases c g k w buf ofs rank pos fits e in
    rw x.2 (
      x.1.count,
      refl,
      next-IsConsistent c g k w buf ofs n rank x.0 x.1,
      next-Refines c g k w buf ofs n rank x.0 x.1 s r,
    )
