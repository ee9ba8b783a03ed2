-- ===== src/Store/Image.antt =====
-- What `save` writes to the ring, as one range of the stream.
use peanuts.Base.{ℕ, ◌+◌, ◌≤◌, ◌<◌, ◌≡◌, refl, ap, ◌∙◌, sym, true, false, some, none, List, [], ◌∷◌}
use peanuts.Base.{◌++◌, length, arith, two64, ◌^◌, add64, Bool-cases, length-append, inr, inl}
use peanuts.Pmem.{Memory}
use peanuts.RingTracker.{RingTracker, allocate, can_allocate, free_capacity, used_capacity}
use peanuts.RingBuffer.{reserve_nb}
use peanuts.RingBuffer.Stream.{stream_write, stream_write-append}
use peanuts.RingBuffer.Transfer.{pwrite-stream_write}
use peanuts.Rpm.{local_pwrite}
use peanuts.Store.{Bb}
use peanuts.Store.Persistence.{entry, save_loop}
use peanuts.RingBuffer

-- The ring is sized and not near the end of the LSNs.
pub record IsSized (t : RingTracker) : Type 0 where
  pub pos : 0 < t.ring_size
  pub small : t.ring_size < 2 ^ 63
  pub room : t.tail_lsn + t.ring_size < two64
  pub tail-le : t.tail_lsn ≤ t.head_lsn
  pub head-le : t.head_lsn ≤ t.tail_lsn + t.ring_size

abbrev pub moved : RingTracker → ℕ → RingTracker
moved t n = record t { head_lsn = t.head_lsn + n }

-- A reservation that succeeds, in numbers that do not wrap around.
pub reserve_nb-moved :
    (t : RingTracker) (n : ℕ)
    → IsSized t
    → can_allocate t n ≡ true
    → (reserve_nb t n ≡ some (t.head_lsn, moved t n)) × IsSized (moved t n)
unfolding reserve_nb allocate can_allocate free_capacity used_capacity
reserve_nb-moved t n s h =
    let l : t.head_lsn + n ≤ t.tail_lsn + t.ring_size = ground arith in
    let w : add64 t.head_lsn n ≡ t.head_lsn + n = omega arith in
    (
      rw (h, reserve_nb) (ap (λ (x : ℕ). some (t.head_lsn, record t { head_lsn = x })) w),
      record { pos = s.pos; small = s.small; room = s.room; tail-le = omega arith; head-le = l },
    )

pub reserve_nb-none : (t : RingTracker) (n : ℕ) → can_allocate t n ≡ false → reserve_nb t n ≡ none
unfolding reserve_nb
reserve_nb-none t n h = rw h

module _ (serialize : Bb → List ℕ) where
  -- The entries of all files, one behind the other.
  abbrev pub image : List Bb → List ℕ
  image [] = []
  image (b ∷ bs) = entry serialize b ++ image bs

  -- What a loop of `save` that comes to its end leaves.
  pub record IsSaved (disp : ℕ) (bs : List Bb) (t : RingTracker) (m : Memory) (t' : RingTracker)
      (m' : Memory) : Type 0 where
    pub tracker : t' ≡ moved t (length (image bs))
    pub sized : IsSized t'
    pub memory : m' ≡ stream_write disp t.ring_size m (image bs) t.head_lsn

  written : ℕ → Bb → RingTracker → Memory → Memory
  written disp b t m =
      RingBuffer.pwrite (local_pwrite disp) (moved t (length (entry serialize b))) m
        (entry serialize b) t.head_lsn

  with-entry :
      (disp : ℕ) (b : Bb) (bs : List Bb) (t : RingTracker) (m : Memory) {t' : RingTracker}
      {m' : Memory}
      → IsSized t
      → IsSized (moved t (length (entry serialize b)))
      → IsSaved disp bs (moved t (length (entry serialize b))) (written disp b t m) t' m'
      → IsSaved disp (b ∷ bs) t m t' m'
  unfolding written
  with-entry disp b bs t m s s' i = record {
    tracker =
        i.tracker
        ∙ ap (λ (x : ℕ). record t { head_lsn = x })
            (omega (arith, length-append {0} (entry serialize b) (image bs)));
    sized = i.sized;
    memory =
        i.memory
        ∙ ap
            (λ (x : Memory).
              stream_write disp t.ring_size x (image bs) (t.head_lsn + length (entry serialize b)))
            (pwrite-stream_write (local_pwrite disp) (λ m. m) disp
              (λ s b o. unfold local_pwrite in refl) (moved t (length (entry serialize b))) m
              (entry serialize b) t.head_lsn
              (record { pos = s.pos; small = s.small; fits = omega arith }))
        ∙ sym (stream_write-append disp t.ring_size m (entry serialize b) (image bs) t.head_lsn);
  }

  pub save_loop-IsSaved :
      (disp : ℕ) (bs : List Bb) (t : RingTracker) (m : Memory)
      → IsSized t
      → (save_loop serialize disp bs t m).0 ≡ true
      → IsSaved disp bs t m (save_loop serialize disp bs t m).1 (save_loop serialize disp bs t m).2
  unfolding save_loop written
  save_loop-IsSaved disp [] t m s e = record {
    tracker = ap (λ (x : ℕ). record t { head_lsn = x }) (omega arith);
    sized = s;
    memory = unfold stream_write in refl;
  }
  save_loop-IsSaved disp (b ∷ bs) t m s e =
      let n = length (entry serialize b) in
      elim (Bool-cases (can_allocate t n)) [
        | inr h ↦ (let f : false ≡ true = rw (reserve_nb-none t n h, save_loop) at e in cc)
        | inl h ↦
            let r = reserve_nb-moved t n s h in
            rw (r.0, save_loop)
              (with-entry disp b bs t m s r.1 (
                save_loop-IsSaved disp bs (moved t n) (written disp b t m) r.1
                  (rw (r.0, save_loop) at e)))
      ]
