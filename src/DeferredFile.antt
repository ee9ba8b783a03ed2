-- ===== src/DeferredFile.antt =====
-- projects/peanuts/include/peanuts/deferred_file.hpp, a file that is opened when it is first used.
-- The system and the file of zpp are a parameter, with a state of their own.
pub mod Eager
mod Tests
use peanuts.Base.{ℕ, Bool, true, false, Option, some, none, List, [], ◌∷◌, if◌then◌else◌}

pub data Error : Type 0 where
  open_failed : Error  -- system_error of `open`
  ino_failed : Error  -- system_error of `ino`
  file_error : Error  -- what the file of zpp throws
  undefined : Error  -- undefined behaviour, no exception

pub data Outcome {ℓ} (A : Type ℓ) : Type ℓ where
  failed : Error → Outcome A
  done : A → Outcome A

-- `::open`, `fstat`, and the file of zpp on a descriptor. `read` gives the bytes read.
pub record Files (S : Type 0) : Type 0 where
  pub open_path : List ℕ → ℕ → ℕ → S → Option ℕ × S
  pub stat_ino : ℕ → S → Option ℕ
  pub close_fd : ℕ → S → S
  pub file_size : ℕ → S → Outcome ℕ × S
  pub resize : ℕ → ℕ → S → Outcome (Unit {0}) × S
  pub seek : ℕ → ℕ → S → Outcome (Unit {0}) × S
  pub read : ℕ → ℕ → S → Outcome (List ℕ) × S
  pub write : ℕ → List ℕ → S → Outcome ℕ × S

pub record DeferredFile : Type 0 where
  pub file : Option ℕ
  pub pathname : List ℕ
  pub flags : ℕ
  pub mode : ℕ

unfoldable pub make : List ℕ → ℕ → ℕ → DeferredFile
make pathname flags mode = record { file = none; pathname = pathname; flags = flags; mode = mode }

unfoldable pub is_open : DeferredFile → Bool
is_open f = elim f.file [ some _ ↦ true | none ↦ false ]

module _ {S : Type 0} (files : Files S) where
  -- `emplace` closes the file that was there.
  unfoldable pub emplace : DeferredFile → ℕ → S → S
  emplace f fd s = elim f.file [ none ↦ s | some old ↦ files.close_fd old s ]

  -- What `open` makes of the answer of the system.
  unfoldable pub opened_as : DeferredFile → Option ℕ × S → Outcome (Unit {0}) × DeferredFile × S
  unfolding emplace
  opened_as f (none, s) = (failed open_failed, f, s)
  opened_as f (some fd, s) = (done tt, record f { file = some fd }, emplace f fd s)

  unfoldable pub open_now : DeferredFile → S → Outcome (Unit {0}) × DeferredFile × S
  unfolding opened_as
  open_now f s = opened_as f (files.open_path f.pathname f.flags f.mode s)

  unfoldable pub close : DeferredFile → S → Outcome (Unit {0}) × DeferredFile × S
  close f s = elim f.file [
    | none ↦ (failed undefined, f, s)
    | some fd ↦ (done tt, record f { file = none }, files.close_fd fd s)
  ]

  -- What an operation does with the open file.
  unfoldable pub use_file {ℓ} :
      {A : Type ℓ} → (ℕ → S → Outcome A × S) → DeferredFile → S → Outcome A × DeferredFile × S
  use_file body f s = elim f.file [
    | none ↦ (failed undefined, f, s)
    | some fd ↦ (let (r, s') = body fd s in (r, f, s'))
  ]

  -- An exception of `open` ends the operation.
  unfoldable pub go_on {ℓ} :
      {A : Type ℓ}
      → (ℕ → S → Outcome A × S)
      → Outcome (Unit {0}) × DeferredFile × S
      → Outcome A × DeferredFile × S
  unfolding use_file
  go_on body (failed e, f, s) = (failed e, f, s)
  go_on body (done _, f, s) = use_file body f s

  -- `if (!is_open()) open();` and the rest.
  unfoldable pub when_open {ℓ} :
      {A : Type ℓ} → (ℕ → S → Outcome A × S) → DeferredFile → S → Outcome A × DeferredFile × S
  unfolding is_open open_now use_file go_on
  when_open body f s = if is_open f then use_file body f s else go_on body (open_now f s)

  unfoldable pub ino_at : ℕ → S → Outcome ℕ × S
  ino_at fd s = elim (files.stat_ino fd s) [ some i ↦ (done i, s) | none ↦ (failed ino_failed, s) ]

  -- `seek`, and what follows it.
  unfoldable pub seek_to {ℓ} : {A : Type ℓ} → ℕ → (ℕ → S → Outcome A × S) → ℕ → S → Outcome A × S
  seek_to offset body fd s =
      let (r, s') = files.seek fd offset s in
      elim r [ failed e ↦ (failed e, s') | done _ ↦ body fd s' ]

  unfoldable pub fd : DeferredFile → S → Outcome ℕ × DeferredFile × S
  unfolding when_open
  fd = when_open (λ d s. (done d, s))

  unfoldable pub ino : DeferredFile → S → Outcome ℕ × DeferredFile × S
  unfolding when_open ino_at
  ino = when_open ino_at

  unfoldable pub size : DeferredFile → S → Outcome ℕ × DeferredFile × S
  unfolding when_open
  size = when_open files.file_size

  unfoldable pub truncate : ℕ → DeferredFile → S → Outcome (Unit {0}) × DeferredFile × S
  unfolding when_open
  truncate n = when_open (λ d. files.resize d n)

  unfoldable pub pread : ℕ → ℕ → DeferredFile → S → Outcome (List ℕ) × DeferredFile × S
  unfolding when_open seek_to
  pread count offset = when_open (seek_to offset (λ d. files.read d count))

  unfoldable pub pwrite : List ℕ → ℕ → DeferredFile → S → Outcome ℕ × DeferredFile × S
  unfolding when_open seek_to
  pwrite buf offset = when_open (seek_to offset (λ d. files.write d buf))
