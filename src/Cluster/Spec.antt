-- ===== src/Cluster/Spec.antt =====
-- What the processes promise of a shared file, without trees, rings or memories: each has the bytes
-- that it wrote since the last synchronisation, and all have those that were synchronised.
use peanuts.Base.{ℕ, zero, suc, ◌+◌, ◌-◌, Option, none, some, List, length, get_elem?, leb, ltb}
use peanuts.Base.{◌&&◌, if◌then◌else◌}
use peanuts.ThreadLocal.{update}

pub record Spec : Type 0 where
  pub committed : ℕ → Option ℕ
  pub pending : ℕ → ℕ → Option ℕ

-- The first byte that there is.
abbrev pub or_else : Option ℕ → Option ℕ → Option ℕ
or_else none b = b
or_else (some a) b = some a

-- The bytes of a range, in front of those of a file.
abbrev pub overwrite : List ℕ → ℕ → (ℕ → Option ℕ) → ℕ → Option ℕ
overwrite buf ofs f p =
    if leb ofs p && ltb p (ofs + length buf) then get_elem? buf (p - ofs) else f p

unfoldable pub write : ℕ → List ℕ → ℕ → Spec → Spec
unfolding update
write r buf ofs s = record s { pending = update s.pending r (overwrite buf ofs (s.pending r)) }

-- What the last of the first `n` ranks that wrote an offset wrote there.
abbrev pub latest : ℕ → Spec → ℕ → Option ℕ
latest zero s p = s.committed p
latest (suc n) s p = or_else (s.pending n p) (latest n s p)

unfoldable pub sync : ℕ → Spec → Spec
sync size s = record { committed = latest size s; pending = λ r p. none }

-- What a process sees of an offset.
abbrev pub visible : Spec → ℕ → ℕ → Option ℕ
visible s q p = or_else (s.pending q p) (s.committed p)
