-- ===== src/DeferredFile/Eager.antt =====
-- A deferred file beside a file that is opened at once.
use peanuts.Base.{ℕ, ◌≡◌, refl, some, none, List, [], ◌∷◌, false, ap, ◌∙◌}
use peanuts.DeferredFile.{Outcome, Files, DeferredFile, done, open_now, use_file, when_open}
use peanuts.DeferredFile.{is_open, ino_at, seek_to, fd, ino, size, truncate, pread, pwrite, go_on}
use peanuts.DeferredFile.{opened_as, emplace}

-- The operations, and what they give.
pub data Operation : Type 0 where
  get_fd : Operation
  get_ino : Operation
  get_size : Operation
  cut : ℕ → Operation
  read_at : (count offset : ℕ) → Operation
  write_at : List ℕ → (offset : ℕ) → Operation

pub data Answer : Type 0 where
  number : Outcome ℕ → Answer
  nothing : Outcome (Unit {0}) → Answer
  bytes : Outcome (List ℕ) → Answer

abbrev tag : {A B T : Type 0} → (A → B) → A × T → B × T
tag f (x, t) = (f x, t)

abbrev tag_file : {A B F T : Type 0} → (A → B) → A × F × T → B × F × T
tag_file f (x, g, t) = (f x, g, t)

module _ {S : Type 0} (files : Files S) where
  -- On a deferred file.
  pub perform : Operation → DeferredFile → S → Answer × DeferredFile × S
  perform get_fd f s = tag_file number (fd files f s)
  perform get_ino f s = tag_file number (ino files f s)
  perform get_size f s = tag_file number (size files f s)
  perform (cut n) f s = tag_file nothing (truncate files n f s)
  perform (read_at c o) f s = tag_file bytes (pread files c o f s)
  perform (write_at b o) f s = tag_file number (pwrite files b o f s)

  -- On the descriptor of an open file.
  pub perform_on : Operation → ℕ → S → Answer × S
  unfolding ino_at seek_to
  perform_on get_fd d s = (number (done d), s)
  perform_on get_ino d s = tag number (ino_at files d s)
  perform_on get_size d s = tag number (files.file_size d s)
  perform_on (cut n) d s = tag nothing (files.resize d n s)
  perform_on (read_at c o) d s = tag bytes (seek_to files o (λ x. files.read x c) d s)
  perform_on (write_at b o) d s = tag number (seek_to files o (λ x. files.write x b) d s)

  -- One operation after the other, exceptions caught.
  pub perform_all : List Operation → DeferredFile → S → List Answer × DeferredFile × S
  unfolding perform
  perform_all [] f s = ([], f, s)
  perform_all (o ∷ os) f s =
      let (a, f', s') = perform o f s in tag_file (λ answers. a ∷ answers) (perform_all os f' s')

  pub perform_all_on : List Operation → ℕ → S → List Answer × S
  unfolding perform_on
  perform_all_on [] d s = ([], s)
  perform_all_on (o ∷ os) d s =
      let (a, s') = perform_on o d s in tag (λ answers. a ∷ answers) (perform_all_on os d s')

  when_open-opened {ℓ} :
      {A : Type ℓ} (body : ℕ → S → Outcome A × S) (f : DeferredFile) (d : ℕ) (s : S)
      → when_open files body (record f { file = some d }) s
        ≡ ((body d s).0, record f { file = some d }, (body d s).1)
  unfolding when_open use_file is_open
  when_open-opened body f d s = refl

  perform-opened :
      (o : Operation) (f : DeferredFile) (d : ℕ) (s : S)
      → perform o (record f { file = some d }) s
        ≡ ((perform_on o d s).0, record f { file = some d }, (perform_on o d s).1)
  unfolding perform perform_on fd ino size truncate pread pwrite when_open use_file is_open
  perform-opened get_fd f d s = refl
  perform-opened get_ino f d s = refl
  perform-opened get_size f d s = refl
  perform-opened (cut n) f d s = refl
  perform-opened (read_at c o) f d s = refl
  perform-opened (write_at b o) f d s = refl

  module _ (f : DeferredFile) (s : S) (d : ℕ) (s' : S) (closed : f.file ≡ none)
      (opens : files.open_path f.pathname f.flags f.mode s ≡ (some d, s')) where
    opened : open_now files f s ≡ (done tt, record f { file = some d }, s')
    unfolding open_now opened_as emplace
    opened = ap (opened_as files f) opens ∙ unfold emplace in rw closed refl

    when_open-first {ℓ} :
        {A : Type ℓ} (body : ℕ → S → Outcome A × S)
        → when_open files body f s ≡ when_open files body (record f { file = some d }) s'
    unfolding when_open use_file is_open go_on
    when_open-first body =
        let c : is_open f ≡ false = rw (closed, is_open) refl in
        rw (c, when_open) (ap (go_on files body) opened)

    perform-first : (o : Operation) → perform o f s ≡ perform o (record f { file = some d }) s'
    unfolding perform fd ino size truncate pread pwrite
    perform-first get_fd = rw (when_open-first (λ x t. (done x, t))) refl
    perform-first get_ino = rw (when_open-first (ino_at files)) refl
    perform-first get_size = rw (when_open-first files.file_size) refl
    perform-first (cut n) = rw (when_open-first (λ x. files.resize x n)) refl
    perform-first (read_at c o) = rw (when_open-first (seek_to files o (λ x. files.read x c))) refl
    perform-first (write_at b o) =
        rw (when_open-first (seek_to files o (λ x. files.write x b))) refl

  perform_all-opened :
      (os : List Operation) (f : DeferredFile) (d : ℕ) (s : S)
      → perform_all os (record f { file = some d }) s
        ≡ ((perform_all_on os d s).0, record f { file = some d }, (perform_all_on os d s).1)
  unfolding perform_all perform_all_on
  perform_all-opened [] f d s = refl
  perform_all-opened (o ∷ os) f d s =
      rw (perform-opened o f d s) (rw (perform_all-opened os f d (perform_on o d s).1) refl)

  -- For a deferred file that is not open and that the system opens, any series of at least one
  -- operation, exceptions caught, gives the answers and the state of the system that the same
  -- series gives on the descriptor of the file opened at once, and leaves the file open with that
  -- descriptor.
  pub perform_all-perform_all_on :
      (f : DeferredFile) (s : S) (d : ℕ) (s' : S)
      → f.file ≡ none
      → files.open_path f.pathname f.flags f.mode s ≡ (some d, s')
      → (o : Operation) (os : List Operation)
      → perform_all (o ∷ os) f s ≡ (
        (perform_all_on (o ∷ os) d s').0,
        record f { file = some d },
        (perform_all_on (o ∷ os) d s').1,
      )
  unfolding perform_all
  perform_all-perform_all_on f s d s' closed opens o os =
      rw (perform-first f s d s' closed opens o) (perform_all-opened (o ∷ os) f d s')
