-- ===== src/Handles/Tests.antt =====
-- A communicator that is split, and moved on.
use peanuts.Base.{◌≡◌, ◌⊎◌, true, arith, []}
use peanuts.Handles.{Program, create, move_assign, borrow, destroy}
use peanuts.Handles.Counts.{owners, count}
use peanuts.Handles.Ownership.{
  Reach, begins, goes, creates, borrows, moves, destroys, freed_once, nulls,
}

-- `comm a = world; comm b{a, color}; a = std::move(b);` and the end of both.
abbrev ended : Program
ended = destroy 0 (
    destroy 1 (
      move_assign 0 1
        (create true 1 (borrow 7 0 (record { vars = nulls 2; freed = []; created = 0 })))))

ended-Reach : Reach ended
unfolding nulls borrow create move_assign destroy
ended-Reach =
    goes
      (goes
        (goes (goes (goes (begins 2) (borrows 7 0 (omega arith))) (creates true 1 (omega arith)))
          (moves 0 1 (omega arith) (omega arith)))
        (destroys 1 (omega arith)))
      (destroys 0 (omega arith))

freed_once_example :
    (owners 0 ended.vars ≡ 1) × (count 0 ended.freed ≡ 0)
    ⊎ (owners 0 ended.vars ≡ 0) × (count 0 ended.freed ≡ 1)
unfolding destroy move_assign create
freed_once_example = freed_once 0 ended-Reach (omega arith)
