-- ===== src/Rpm/Flush.antt =====
-- Which windows the flush behind a series of reads waits for.
use mathlib.Core.Path.{subst}
use peanuts.Base.{◌==◌, ◌⊎◌, ℕ, ◌≡◌, false, List, [], ◌∷◌, arith, Bool-cases, inl, inr, refl}
use peanuts.Pmem.{Memory}
use peanuts.Rpm.{RankInfo, Accessed, nobody, only, several, FlushCall, no_call, flush_rank}
use peanuts.Rpm.{flush_all, flush, note_access, pread_noflush}

-- The call waits for the reads of the window of `target`.
abbrev pub Waits : ℕ → FlushCall → Type 0
Waits target no_call = ⊥
Waits target (flush_rank r) = r ≡ target
Waits target flush_all = Unit

note_access-keeps :
    (a : Accessed) (r t : ℕ) → Waits t (flush a).0 → Waits t (flush (note_access a r)).0
unfolding note_access flush
note_access-keeps nobody r t h = absurd h
note_access-keeps (only x) r t h = elim (Bool-cases (x == r)) [ inl e ↦ rw e h | inr e ↦ rw e tt ]
note_access-keeps several r t h = tt

note_access_self : (a : Accessed) (r : ℕ) → Waits r (flush (note_access a r)).0
unfolding note_access flush
note_access_self nobody r = refl
note_access_self (only x) r = elim (Bool-cases (x == r)) [
  | inl e ↦ rw e (ground arith)
  | inr e ↦ rw e tt
]
note_access_self several r = tt

flush-emptied : (a : Accessed) → (flush a).1 ≡ nobody
unfolding flush
flush-emptied nobody = refl
flush-emptied (only x) = refl
flush-emptied several = refl

-- A read of a block: its entry, the number of bytes and the offset.
abbrev pub Read : Type 0
Read = RankInfo × ℕ × ℕ

-- The windows that a series of reads gets bytes from.
abbrev pub Targets : ℕ → List Read → Type 0
Targets t [] = ⊥
Targets t ((info, count, offset) ∷ rs) = ((info.local ≡ false) × (info.target ≡ t)) ⊎ Targets t rs

module _ (win_get : ℕ → ℕ → ℕ → List ℕ) (own : Memory) where
  unfoldable pub accessed_after : List Read → Accessed → Accessed
  accessed_after [] acc = acc
  accessed_after ((info, count, offset) ∷ rs) acc =
      accessed_after rs (pread_noflush win_get own info acc count offset).1

  read-keeps :
      (info : RankInfo) (a : Accessed) (count offset t : ℕ)
      → Waits t (flush a).0
      → Waits t (flush (pread_noflush win_get own info a count offset).1).0
  unfolding pread_noflush
  read-keeps info a count offset t h = elim (Bool-cases info.local) [
    | inl e ↦ rw e h
    | inr e ↦ rw e (note_access-keeps a info.target t h)
  ]

  keeps :
      (rs : List Read) (acc : Accessed) (t : ℕ)
      → Waits t (flush acc).0
      → Waits t (flush (accessed_after rs acc)).0
  unfolding accessed_after
  keeps [] acc t w = w
  keeps ((info, count, offset) ∷ rs) acc t w = keeps rs _ t (read-keeps info acc count offset t w)

  read-notes :
      (info : RankInfo) (a : Accessed) (count offset t : ℕ)
      → info.local ≡ false
      → info.target ≡ t
      → Waits t (flush (pread_noflush win_get own info a count offset).1).0
  unfolding pread_noflush
  read-notes info a count offset t l e = rw l (
      subst (λ x. Waits x (flush (note_access a info.target)).0) e (note_access_self a info.target))

  waits :
      (rs : List Read) (acc : Accessed) (t : ℕ)
      → Targets t rs
      → Waits t (flush (accessed_after rs acc)).0
  unfolding accessed_after
  waits [] acc t h = absurd h
  waits ((info, count, offset) ∷ rs) acc t (inl h) =
      keeps rs _ t (read-notes info acc count offset t h.0 h.1)
  waits ((info, count, offset) ∷ rs) acc t (inr h) = waits rs _ t h

  -- The flush behind a series of reads of blocks waits for every window that one of them got bytes
  -- from, and leaves none noted.
  pub flush-Waits :
      (rs : List Read) (acc : Accessed) (t : ℕ)
      → Targets t rs
      → Waits t (flush (accessed_after rs acc)).0 × ((flush (accessed_after rs acc)).1 ≡ nobody)
  flush-Waits rs acc t h = (waits rs acc t h, flush-emptied (accessed_after rs acc))
