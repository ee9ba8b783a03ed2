-- ===== src/SenseBarrier.antt =====
-- projects/peanuts/include/peanuts/utils/sense_barrier.hpp, `sense_barrier`, an access to a shared
-- variable at a time.
pub mod Total
pub mod Rounds
pub mod Invariant
pub mod Steps
pub mod Reachable
pub mod Safety
pub mod Progress
mod Tests
use peanuts.Base.{ℕ, ◌+◌, ◌-◌, ◌%◌, ◌^◌, Bool, true, false, not, ◌==◌, ◌<◌, ltb, if◌then◌else◌, suc}
use peanuts.ThreadLocal.{update, ThreadLocalValue, get, set}
use peanuts.ThreadLocal

-- Where a thread stands in `wait`, with `my_sense` where it is live.
pub data Pc : Type 0 where
  outside : Pc
  entered : (my_sense : Bool) → Pc  -- before `fetch_sub`
  last : (my_sense : Bool) → Pc  -- before `waits_.store`
  publish : (my_sense : Bool) → Pc  -- before `sense_.store`
  spin : (my_sense : Bool) → Pc  -- the `while`

-- `returned` counts the calls of `wait` that a thread has finished; nothing reads it.
pub record SenseBarrier : Type 0 where
  pub nthreads : ℕ  -- int
  pub waits : ℕ  -- std::atomic<int>
  pub sense : Bool  -- std::atomic<bool>
  pub tl_sense : ThreadLocalValue Bool
  pub pc : ℕ → Pc
  pub returned : ℕ → ℕ

unfoldable pub make : ℕ → SenseBarrier
make nthreads = record {
  nthreads = nthreads % 2 ^ 32;
  waits = nthreads % 2 ^ 32;
  sense = true;
  tl_sense = ThreadLocal.make false;
  pc = λ _. outside;
  returned = λ _. 0;
}

-- `my_sense != sense_.load()`
unfoldable pub differ : Bool → Bool → Bool
differ true b = not b
differ false b = b

-- The end of a call.
unfoldable pub leave : SenseBarrier → ℕ → SenseBarrier
unfolding update
leave s t = record s {
  pc = update s.pc t outside;
  returned = update s.returned t (suc (s.returned t));
}

unfoldable pub enter : SenseBarrier → ℕ → SenseBarrier
unfolding get set update
enter s t =
    let my_sense = get s.tl_sense t in
    record s { tl_sense = set s.tl_sense t (not my_sense); pc = update s.pc t (entered my_sense) }

unfoldable pub arrive : SenseBarrier → ℕ → Bool → SenseBarrier
unfolding update
arrive s t my_sense = record s {
  waits = (s.waits + 2 ^ 32 - 1) % 2 ^ 32;
  pc = update s.pc t (if s.waits == 1 then last my_sense else spin my_sense);
}

-- What a thread does from where it stands.
unfoldable pub act : SenseBarrier → ℕ → Pc → SenseBarrier
unfolding enter arrive update leave differ
act s t outside = enter s t
act s t (entered my_sense) = arrive s t my_sense
act s t (last my_sense) = record s { waits = s.nthreads; pc = update s.pc t (publish my_sense) }
act s t (publish my_sense) = leave (record s { sense = my_sense }) t
act s t (spin my_sense) = if differ my_sense s.sense then s else leave s t

unfoldable pub step : SenseBarrier → ℕ → SenseBarrier
unfolding act
step s t = act s t (s.pc t)

-- The states that `n` threads come to, in any order of their steps.
pub data Reach (n : ℕ) : SenseBarrier → Type 0 where
  start : Reach n (make n)
  later : (s : SenseBarrier) (t : ℕ) → Reach n s → t < n → Reach n (step s t)
