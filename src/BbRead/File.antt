-- ===== src/BbRead/File.antt =====
-- The loop of `pread_noflush` over the holes that are left to the file, and the number that it
-- returns.
use peanuts.Base.{ℕ, ◌+◌, ◌-◌, ◌<◌, ◌≡◌, refl, true, false, List, [], ◌∷◌, length, arith, two64}
use peanuts.Base.{All, sub64, lt→leb, lt→ltb, add64, Bool-cases, ltb, inl, le→leb, inr, Option}
use peanuts.Base.{some, ap, ◌∙◌}
use peanuts.Pmem.{Memory}
use peanuts.Rpm.{Accessed}
use peanuts.Extent.{Extent}
use peanuts.ExtentList.{ExtentList, inverse, inverse_rest}
use peanuts.ExtentTree.{find, back}
use peanuts.NodeSet.{lower_bound}
use peanuts.BbHandler.{Handler, end_of}
use peanuts.BbRead.{done, undefined, Progress, file_loop, read_local, read_global, zero_round}
use peanuts.BbRead.{zero_hole, read_round, pread_noflush, read_file, finish, bytes_round}
use peanuts.Pmem
use peanuts.Extent
use peanuts.ExtentList

module _ (ofs : ℕ) (file_pread : ℕ → ℕ → Option (List ℕ)) (eof : ℕ) where
  zeroing-undefined :
      (xs : ExtentList) (buf : Memory)
      → All (λ (x : Extent). x.begin < eof) xs
      → file_loop ofs file_pread eof xs true buf ≡ undefined
  unfolding file_loop
  zeroing-undefined [] buf b = refl
  zeroing-undefined (x ∷ xs) buf b =
      rw (lt→leb x.begin eof b.0, zero_round)
        (zeroing-undefined xs (zero_hole ofs file_pread eof x buf) b.1)

  -- Where the file could be read and ends within a hole, both trees together go on behind that, and
  -- every later hole starts before their end, the loop over the holes moves its iterator behind the
  -- end of the list.
  pub file_loop-undefined :
      (x : Extent) (xs : ExtentList) (buf : Memory) (bytes : List ℕ)
      → file_pread x.begin (Extent.size x) ≡ some bytes
      → x.begin < x.end
      → x.end < two64
      → eof < two64
      → length bytes < x.end - x.begin
      → x.begin + length bytes < eof
      → All (λ (y : Extent). y.begin < eof) xs
      → file_loop ofs file_pread eof (x ∷ xs) false buf ≡ undefined
  unfolding file_loop
  file_loop-undefined x xs buf bytes r b l e s t a =
      let more : 0 < sub64 (Extent.size x) (length bytes) = unfold Extent.size in omega arith in
      rw (r, read_round)
        (rw (lt→ltb 0 _ more, bytes_round)
          (rw (lt→leb (add64 x.begin (length bytes)) eof (omega arith), bytes_round)
            (rw (lt→leb x.begin eof (omega arith), zero_round) (zeroing-undefined xs _ a))))

-- The one hole of a file without extents is the whole range.
module _ (disp : ℕ) (h0 : Handler) (ofs count : ℕ) (pos : 0 < count) (fits : ofs + count < two64)
    (rring_pread : ℕ → Accessed → ℕ → ℕ → List ℕ × Accessed)
    (file_pread : ℕ → ℕ → Option (List ℕ)) where
  abbrev h : Handler
  h = record h0 { local_tree = []; global_tree = [] }

  abbrev hole : Extent
  hole = record { begin = ofs; end = add64 ofs count }

  abbrev start : Memory → Progress
  start buf = record { el = []; buf = buf; accessed = h0.accessed }

  find-nil : (b e : ℕ) → find [] b e ≡ []
  unfolding find lower_bound
  find-nil b e = refl

  inverse-nil : inverse [] hole ≡ hole ∷ []
  unfolding inverse inverse_rest
  inverse-nil = ground arith

  read_local-nil : (buf : Memory) → read_local disp h ofs count buf ≡ start buf
  unfolding read_local
  read_local-nil buf = rw (find-nil ofs (add64 ofs count))

  read_global-nil :
      (buf : Memory) → read_global disp h ofs count rring_pread file_pread (start buf) ≡ start buf
  unfolding read_global
  read_global-nil buf = rw (inverse-nil, find-nil)

  hole-size : Extent.size hole ≡ count
  unfolding Extent.size
  hole-size = omega arith

  end-nil : end_of [] ≡ 0
  unfolding end_of back
  end-nil = refl

  one_hole :
      (buf : Memory) (bytes : List ℕ)
      → file_pread ofs (Extent.size hole) ≡ some bytes
      → file_loop ofs file_pread 0 (hole ∷ []) false buf
        ≡ done 0 (Pmem.pwrite buf bytes (sub64 ofs ofs))
  unfolding file_loop read_round
  one_hole buf bytes r =
      rw (r, read_round)
        (elim (Bool-cases (ltb 0 (sub64 (Extent.size hole) (length bytes)))) [
          | inl e ↦
              rw (e, bytes_round)
                (rw (le→leb 0 (add64 ofs (length bytes)) (omega arith), bytes_round) refl)
          | inr e ↦ rw (e, bytes_round) refl
        ])

  same : (n : ℕ) → n < two64 → sub64 n n ≡ 0
  same n l = ground arith

  -- On a file without extents, a read of a non-empty range puts the bytes of the file below, where
  -- that could be read, at the start of the buffer, and returns the offset subtracted from 0,
  -- whatever number of bytes that was.
  pub pread_noflush-no_trees :
      (buf : Memory) (bytes : List ℕ)
      → file_pread ofs count ≡ some bytes
      → (pread_noflush disp h ofs count rring_pread file_pread buf).0
        ≡ done (sub64 0 ofs) (Pmem.pwrite buf bytes 0)
  unfolding pread_noflush read_file finish ExtentList.empty
  pread_noflush-no_trees buf bytes r =
      let r' : file_pread ofs (Extent.size hole) ≡ some bytes = ap (file_pread ofs) hole-size ∙ r in
      rw
        (
          read_local-nil buf,
          inverse-nil,
          find-nil,
          inverse-nil,
          end-nil,
          one_hole buf bytes r',
          le→leb 0 (add64 ofs count) (omega arith),
          same ofs (omega arith),
        )
        refl
