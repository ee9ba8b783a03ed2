-- ===== src/SenseBarrier/Tests.antt =====
-- Runs of the barrier with two threads.
use peanuts.Base.{◌≤◌, ◌≡◌, refl, arith, suc}
use peanuts.SenseBarrier.{SenseBarrier, make, step, Reach, start, later}
use peanuts.SenseBarrier.Rounds.{begun}
use peanuts.SenseBarrier.Progress.{Leads, can_return}
use peanuts.SenseBarrier.Safety.{returned-le-begun}

-- Thread 0 has arrived and waits.
abbrev waiting : SenseBarrier
waiting = step (step (make 2) 0) 0

waiting-reached : Reach 2 waiting
waiting-reached = later _ 0 (later _ 0 start (omega arith)) (omega arith)

-- Thread 1 has arrived too, has ended the round and left.
abbrev released : SenseBarrier
released = step (step (step (step waiting 1) 1) 1) 1

released-reached : Reach 2 released
released-reached =
    later _ 1
      (later _ 1 (later _ 1 (later _ 1 waiting-reached (omega arith)) (omega arith)) (omega arith))
      (omega arith)

returned-le-begun_example : released.returned 1 ≤ begun released 0
returned-le-begun_example =
    returned-le-begun 2 (omega arith) released released-reached 1 0 (omega arith) (omega arith)

released_lem : (released.returned 1 ≡ 1) × (begun released 0 ≡ 1)
unfolding make step
released_lem = (refl, refl)

can_return_example :
    (s' : SenseBarrier) × Leads 2 waiting s' × (s'.returned 0 ≡ suc (waiting.returned 0))
can_return_example = can_return 2 waiting 0 (omega arith) waiting-reached (omega arith)
