-- ===== src/SenseBarrier/Invariant.antt =====
-- The rounds of the barrier as a predicate on its states.
use peanuts.Base.{ℕ, ◌^◌, ◌<◌, ◌≡◌, ◌≢◌, refl, Bool, true, false, not, suc}
use peanuts.ThreadLocal.{update, get}
use peanuts.ThreadLocal.Values.{update-same, update-other, get-set_other}
use peanuts.SenseBarrier.{Pc, outside, entered, last, publish, spin, SenseBarrier, leave, enter}
use peanuts.SenseBarrier.{act, differ}
use peanuts.SenseBarrier.Total.{total}
use peanuts.SenseBarrier.Rounds.{odd, weights, releasing, InRound, IsStuck, IsMoved}

-- What a round is at: the threads arrive, or thread `l` ends it.
pub data Phase (n g : ℕ) (s : SenseBarrier) : Type 0 where
  collecting :
      s.waits ≡ total n (weights g s)
      → 0 < s.waits
      → s.waits < 2 ^ 32
      → ((t : ℕ) → t < n → releasing (s.pc t) ≡ false)
      → Phase n g s
  closing :
      (l : ℕ)
      → l < n
      → s.pc l ≡ last (odd g)
      → ((t : ℕ) → t < n → t ≢ l → IsStuck g s t)
      → Phase n g s
  publishing :
      (l : ℕ)
      → l < n
      → s.pc l ≡ publish (odd g)
      → s.waits ≡ n
      → ((t : ℕ) → t < n → t ≢ l → IsStuck g s t)
      → Phase n g s

pub record Inv (n : ℕ) (s : SenseBarrier) : Type 0 where
  pub round : ℕ
  pub nthreads : s.nthreads ≡ n
  pub sense : s.sense ≡ not (odd round)
  pub threads : (t : ℕ) → t < n → InRound round s t
  pub phase : Phase n round s

differ-not : (b : Bool) → differ b (not b) ≡ true
unfolding differ
differ-not true = refl
differ-not false = refl

differ-same : (b : Bool) → differ b b ≡ false
unfolding differ
differ-same true = refl
differ-same false = refl

pub not-not : (b : Bool) → not (not b) ≡ b
not-not true = refl
not-not false = refl

pub enter-IsMoved :
    (s : SenseBarrier) (t : ℕ) → IsMoved s (enter s t) t (entered (get s.tl_sense t)) (s.returned t)
unfolding enter
enter-IsMoved s t = record {
  pc-at = update-same s.pc t _;
  returned-at = refl;
  nthreads = refl;
  pc-else = λ u d. update-other s.pc t _ u d;
  returned-else = λ u d. refl;
  local-else = λ u d. get-set_other s.tl_sense t _ u d;
}

-- A step that leaves the sense of the thread.
pub stays-IsMoved :
    (s : SenseBarrier) (t : ℕ) (p : Pc) (w : ℕ)
    → IsMoved s (record s { waits = w; pc = update s.pc t p }) t p (s.returned t)
stays-IsMoved s t p w = record {
  pc-at = update-same s.pc t p;
  returned-at = refl;
  nthreads = refl;
  pc-else = λ u d. update-other s.pc t p u d;
  returned-else = λ u d. refl;
  local-else = λ u d. refl;
}

pub leave-IsMoved :
    (s : SenseBarrier) (t : ℕ) (b : Bool)
    → IsMoved s (leave (record s { sense = b }) t) t outside (suc (s.returned t))
unfolding leave
leave-IsMoved s t b = record {
  pc-at = update-same s.pc t outside;
  returned-at = update-same s.returned t _;
  nthreads = refl;
  pc-else = λ u d. update-other s.pc t outside u d;
  returned-else = λ u d. update-other s.returned t _ u d;
  local-else = λ u d. refl;
}

-- A thread that reads another sense than its own changes nothing.
pub spin-stuck : (g t : ℕ) (s : SenseBarrier) → s.sense ≡ not (odd g) → act s t (spin (odd g)) ≡ s
unfolding act
spin-stuck g t s e = rw e (rw (differ-not (odd g)) refl)

pub spin-leave :
    (t : ℕ) (b : Bool) (s : SenseBarrier)
    → s.sense ≡ b
    → act s t (spin b) ≡ leave (record s { sense = b }) t
unfolding act
spin-leave t b s e = rw e (rw (differ-same b) (rw (← e) refl))
