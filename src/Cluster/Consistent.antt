-- ===== src/Cluster/Consistent.antt =====
-- What holds of the processes between their calls, and what they hold of the file.
use peanuts.Base.{ℕ, ◌+◌, ◌≤◌, ◌<◌, ◌≡◌, ◌≢◌, ◌⊎◌, Option, none, some, refl}
use peanuts.NodeSet.Lookup.{Place, lookup}
use peanuts.NodeSet.Order.{IsNodes}
use peanuts.ExtentTree.{ExtentTree}
use peanuts.RingBuffer.Stream.{address}
use peanuts.BbHandler.Write.{IsReady, local_byte}
use peanuts.Cluster.{Cluster, handler_of}
use peanuts.Cluster.Spec.{Spec}

-- Two blocks of `ring` bytes have no byte in common.
abbrev pub AreApart : ℕ → ℕ → ℕ → Type 0
AreApart ring a b = (a + ring ≤ b) ⊎ (b + ring ≤ a)

-- Every handler is ready, its tree names its own ring, all have the same global tree `g`, which is
-- in order and names bytes between tail and head of the ring of their rank, and the blocks of two
-- processes of one node are apart.
pub record IsConsistent (c : Cluster) (g : ExtentTree) : Type 0 where
  pub ready : (r : ℕ) → r < c.size → IsReady (handler_of c r)
  pub sized : (r : ℕ) → r < c.size → (c.local r).ring.ring_size ≡ c.ring_size
  pub own : (r p w a : ℕ) → r < c.size → lookup (c.local r).local_tree p ≡ some (w, a) → w ≡ r
  pub agreed : (r : ℕ) → r < c.size → (c.local r).global_tree ≡ g
  pub nodes : IsNodes 0 g
  pub live :
      (p w a : ℕ)
      → lookup g p ≡ some (w, a)
      → (w < c.size) × ((c.local w).ring.tail_lsn ≤ a) × (a < (c.local w).ring.head_lsn)
  pub apart :
      (r q : ℕ)
      → r < c.size
      → q < c.size
      → r ≢ q
      → c.node r ≡ c.node q
      → AreApart c.ring_size (c.disp r) (c.disp q)

-- The byte of a rank's ring at an address.
abbrev pub ring_byte : Cluster → ℕ → ℕ → ℕ
ring_byte c w a = c.memory (c.node w) (address (c.disp w) c.ring_size a)

-- The byte at a place.
abbrev pub place_byte : Cluster → Option Place → Option ℕ
place_byte c none = none
place_byte c (some (w, a)) = some (ring_byte c w a)

-- The bytes that a process holds in its ring, and those that the global tree names, are those of
-- the specification.
pub record Refines (c : Cluster) (g : ExtentTree) (s : Spec) : Type 0 where
  pub committed : (p : ℕ) → place_byte c (lookup g p) ≡ s.committed p
  pub pending : (r p : ℕ) → r < c.size → local_byte (c.disp r) (handler_of c r) p ≡ s.pending r p

-- What processes hold, whatever it is, as a specification.
abbrev pub spec_of : Cluster → ExtentTree → Spec
spec_of c g = record {
  committed = λ p. place_byte c (lookup g p);
  pending = λ r p. local_byte (c.disp r) (handler_of c r) p;
}

pub spec_of-Refines : (c : Cluster) (g : ExtentTree) → Refines c g (spec_of c g)
spec_of-Refines c g = record { committed = λ p. refl; pending = λ r p l. refl }
