-- ===== src/DeferredFile/Tests.antt =====
-- Runs of a deferred file.
use peanuts.Base.{ℕ, ◌≡◌, refl, ◌+◌, ◌++◌, length, take, drop, some, List, [], ◌∷◌}
use peanuts.DeferredFile.{Files, DeferredFile, done, make}
use peanuts.DeferredFile.Eager.{
  Operation, get_size, read_at, write_at, perform_all, perform_all_on, perform_all-perform_all_on,
}

-- One file, with its bytes, the place of its cursor, and how often it was opened.
record Disk : Type 0 where
  content : List ℕ
  cursor : ℕ
  opens : ℕ

abbrev disk_files : Files Disk
disk_files = record {
  open_path = λ path flags mode s. (some 3, record s { opens = s.opens + 1 });
  stat_ino = λ fd s. some 17;
  close_fd = λ fd s. s;
  file_size = λ fd s. (done (length s.content), s);
  resize = λ fd n s. (done tt, record s { content = take n s.content });
  seek = λ fd offset s. (done tt, record s { cursor = offset });
  read = λ fd count s. (done (take count (drop s.cursor s.content)), s);
  write = λ fd buf s. (
    done (length buf),
    record s { content = take s.cursor s.content ++ buf ++ drop (s.cursor + length buf) s.content },
  );
}

abbrev disk : ℕ → Disk
disk opens = record { content = 1 ∷ 2 ∷ 3 ∷ []; cursor = 0; opens = opens }

abbrev deferred : DeferredFile
unfolding make
deferred = make (47 ∷ []) 2 0

abbrev rest : List Operation
rest = read_at 2 0 ∷ get_size ∷ []

perform_all-perform_all_on_example :
    perform_all disk_files (write_at (9 ∷ []) 1 ∷ rest) deferred (disk 0) ≡ (
      (perform_all_on disk_files (write_at (9 ∷ []) 1 ∷ rest) 3 (disk 1)).0,
      record deferred { file = some 3 },
      (perform_all_on disk_files (write_at (9 ∷ []) 1 ∷ rest) 3 (disk 1)).1,
    )
unfolding deferred
perform_all-perform_all_on_example =
    perform_all-perform_all_on disk_files deferred (disk 0) 3 (disk 1) refl refl
      (write_at (9 ∷ []) 1) rest
