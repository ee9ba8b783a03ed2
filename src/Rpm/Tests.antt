-- ===== src/Rpm/Tests.antt =====
-- Runs of the reads of blocks.
use peanuts.Base.{ℕ, List, [], ◌∷◌, ◌≡◌, refl, true, false, inr, inl}
use peanuts.Pmem.{Memory}
use peanuts.Rpm.{nobody, flush}
use peanuts.Rpm.Flush.{Read, Waits, accessed_after, flush-Waits}

abbrev own : Memory
own i = 0

abbrev win_get : ℕ → ℕ → ℕ → List ℕ
win_get target count disp = []

-- a read of the own node, then of the windows 4 and 8
abbrev reads : List Read
reads =
    (record { local = true; target = 0; disp = 0 }, 1, 0)
    ∷ (record { local = false; target = 4; disp = 0 }, 1, 0)
    ∷ (record { local = false; target = 8; disp = 64 }, 2, 5)
    ∷ []

flush-Waits_example :
    Waits 4 (flush (accessed_after win_get own reads nobody)).0
    × ((flush (accessed_after win_get own reads nobody)).1 ≡ nobody)
flush-Waits_example = flush-Waits win_get own reads nobody 4 (inr (inl (refl, refl)))
