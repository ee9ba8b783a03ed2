-- ===== src/CInterface/Calls.antt =====
-- Calls of the C functions in a row.
use peanuts.Base.{
  ℕ, ◌+◌, ◌<◌, ◌≡◌, ◌∙◌, refl, sym, ap, two64, Option, some, none, List, length, get_elem?,
}
use peanuts.Pmem.{Memory}
use peanuts.Rpm.{Accessed}
use peanuts.BbHandler
use peanuts.BbHandler.{write_at, no_space, Handler, Result, ok, err}
use peanuts.BbHandler.Write.{IsReady, pwrite_lem}
use peanuts.BbRead
use peanuts.RingTracker.{RingTracker}
use peanuts.RingBuffer.{reserve_nb}
use peanuts.BbRead.{Outcome, done}
use peanuts.BbRead.ReadBack.{pread_noflush-pwrite}
use peanuts.Store.{Bb, Store, OpenFile, find_bb, handler_of, put_handler}
use peanuts.Store
use peanuts.Store.Files.{IsWritten, AreReady, pwrite-IsWritten, writer-IsReady, find_bb-replace_bb}
use peanuts.CInterface.{minus_one, value, peanuts_bb_pwrite, peanuts_bb_pread, handler}

pwrite-deferred_file_size :
    (rank disp : ℕ) (h h' : Handler) (buf : List ℕ) (ofs n : ℕ)
    → BbHandler.pwrite rank disp h buf ofs ≡ ok (n, h')
    → h'.deferred_file_size ≡ h.deferred_file_size
unfolding BbHandler.pwrite write_at
pwrite-deferred_file_size rank disp h h' buf ofs n e = of_lsn (reserve_nb h.ring (length buf)) refl
  where
    of_lsn :
        (r : Option (ℕ × RingTracker))
        → reserve_nb h.ring (length buf) ≡ r
        → h'.deferred_file_size ≡ h.deferred_file_size
    of_lsn none q = absurd (let c : err no_space ≡ ok (n, h') = rw (q, BbHandler.pwrite) at e in cc)
    of_lsn (some (lsn, ring)) q =
        let c : ok (length buf, write_at rank disp h buf ofs lsn ring) ≡ ok (n, h') =
          rw (q, BbHandler.pwrite) at e in
        let d : write_at rank disp h buf ofs lsn ring ≡ h' = cc in rw (← d) refl

pub peanuts_bb_pwrite-value :
    (s s' : Store) (f : OpenFile) (buf : List ℕ) (ofs n : ℕ)
    → Store.pwrite s f buf ofs ≡ ok (n, s')
    → peanuts_bb_pwrite s f buf ofs ≡ (value n, s')
unfolding peanuts_bb_pwrite
peanuts_bb_pwrite-value s s' f buf ofs n e = rw (e, peanuts_bb_pwrite) refl

peanuts_bb_pwrite-ok :
    (s s' : Store) (f : OpenFile) (buf : List ℕ) (ofs n : ℕ)
    → peanuts_bb_pwrite s f buf ofs ≡ (value n, s')
    → Store.pwrite s f buf ofs ≡ ok (n, s')
unfolding peanuts_bb_pwrite
peanuts_bb_pwrite-ok s s' f buf ofs n e = of_result (Store.pwrite s f buf ofs) refl
  where
    of_result : (r : Result (ℕ × Store)) → Store.pwrite s f buf ofs ≡ r → r ≡ ok (n, s')
    of_result (err x) q =
        absurd (let c : (minus_one, s) ≡ (value n, s') = rw (q, peanuts_bb_pwrite) at e in cc)
    of_result (ok (k, t)) q =
        (let c : (value k, t) ≡ (value n, s') = rw (q, peanuts_bb_pwrite) at e in cc)

-- The handler that a write leaves is the one that the store then gives.
handler-put_handler :
    (s : Store) (f : OpenFile) (b : Bb) (h : Handler) (buf : List ℕ) (ofs n : ℕ)
    → BbHandler.pwrite s.rank s.disp (handler_of s b f.deferred_file_size) buf ofs ≡ ok (n, h)
    → handler
        (put_handler s f.ino h)
        f
        (record { ino = f.ino; global_tree = h.global_tree; local_tree = h.local_tree })
      ≡ h
unfolding handler_of put_handler
handler-put_handler s f b h buf ofs n e =
    ap (λ (x : ℕ). record h { deferred_file_size = x })
      (sym (
        pwrite-deferred_file_size s.rank s.disp (handler_of s b f.deferred_file_size) h buf ofs n
          e))

-- A read that is done gives its number of bytes and its buffer.
pread-done :
    (rring_pread : ℕ → Accessed → ℕ → ℕ → List ℕ × Accessed) (file_pread : ℕ → ℕ → Option (List ℕ))
    (s : Store) (f : OpenFile) (b : Bb) (old : Memory) (count ofs : ℕ) (new : Memory) (n : ℕ)
    → (BbRead.pread_noflush s.disp (handler s f b) ofs count rring_pread file_pread old).0
      ≡ done n new
    → (peanuts_bb_pread rring_pread file_pread s f b old count ofs).0 ≡ some (value n, new)
unfolding peanuts_bb_pread BbRead.pread
pread-done rring_pread file_pread s f b old count ofs new n e = rw e refl

module _ (rring_pread : ℕ → Accessed → ℕ → ℕ → List ℕ × Accessed)
    (file_pread : ℕ → ℕ → Option (List ℕ)) (s s' : Store) (f : OpenFile) (buf : List ℕ) (ofs n : ℕ)
    (old : Memory) (pos : 0 < length buf) (fits : ofs + length buf < two64) where
  read-IsWritten :
      (w : IsWritten s f buf ofs n s')
      → IsReady (handler_of s w.b f.deferred_file_size)
      → (b : Bb) × (find_bb f.ino s'.bbs ≡ some b)
        × (new : Memory) × ((peanuts_bb_pread rring_pread file_pread s' f b old n ofs).0
            ≡ some (value n, new))
        × ((i : ℕ) → i < length buf → get_elem? buf i ≡ some (new i))
  unfolding put_handler
  read-IsWritten w ready =
      let b : Bb = record {
        ino = f.ino;
        global_tree = w.h.global_tree;
        local_tree = w.h.local_tree;
      } in
      let l =
        (pwrite_lem s.disp s.rank (handler_of s w.b f.deferred_file_size) buf ofs ready pos fits
          w.done).0 in
      let (new, r, holds) =
        pread_noflush-pwrite s.rank s.disp ofs n (handler_of s w.b f.deferred_file_size) w.h buf old
          rring_pread file_pread ready pos fits w.done in
      let same = handler-put_handler s f w.b w.h buf ofs n w.done in
      let r' =
        ap (λ (h : Handler). (BbRead.pread_noflush s.disp h ofs n rring_pread file_pread old).0)
          same
        ∙ r
        ∙ ap (λ (k : ℕ). done k new) (sym l) in
      rw w.same (
        b,
        find_bb-replace_bb b s.bbs w.b w.found,
        new,
        pread-done rring_pread file_pread (put_handler s f.ino w.h) f b old n ofs new n r',
        holds,
      )

  -- Where the trees of all files of the store are in order and the ring holds what they say, behind
  -- a call of `peanuts_bb_pwrite` with at least one byte that returns a number, a call of
  -- `peanuts_bb_pread` for as many bytes at the same offset returns that number, and the buffer
  -- holds the bytes written.
  pub peanuts_bb_pread-peanuts_bb_pwrite :
      AreReady s
      → peanuts_bb_pwrite s f buf ofs ≡ (value n, s')
      → (b : Bb) × (find_bb f.ino s'.bbs ≡ some b)
        × (new : Memory) × ((peanuts_bb_pread rring_pread file_pread s' f b old n ofs).0
            ≡ some (value n, new))
        × ((i : ℕ) → i < length buf → get_elem? buf i ≡ some (new i))
  peanuts_bb_pread-peanuts_bb_pwrite ready e =
      let ok' = peanuts_bb_pwrite-ok s s' f buf ofs n e in
      read-IsWritten (pwrite-IsWritten s f buf ofs n s' ok')
        (writer-IsReady s s' f buf ofs n ready pos fits ok')
