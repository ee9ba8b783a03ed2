-- ===== src/Store/Files.antt =====
-- Files of one store: a write to one of them and the others.
use peanuts.Base.{ℕ, ◌+◌, ◌-◌, ◌<◌, ◌≡◌, ◌≢◌, ◌∙◌, refl, sym, ap, Option, some, none, List, [], ◌∷◌}
use peanuts.Base.{length, arith, two64, All, leb, ltb, ◌&&◌, get_elem?, if◌then◌else◌, Bool-cases}
use peanuts.Base.{inl, inr, ◌==◌}
use peanuts.BbHandler.{Handler, Result, ok, err}
use peanuts.BbHandler.Write.{IsReady, local_byte, pwrite_lem}
use peanuts.BbHandler.Isolation.{pwrite-other}
use peanuts.Store.{Bb, Store, OpenFile, same_file, find_bb, replace_bb, handler_of, put_handler}
use peanuts.Store.{put_result, pwrite_found, pwrite}
use peanuts.BbHandler

find_bb-replace_bb_other :
    (i : ℕ) (b : Bb) (bbs : List Bb) → i ≢ b.ino → find_bb i (replace_bb b bbs) ≡ find_bb i bbs
unfolding find_bb replace_bb
find_bb-replace_bb_other i b [] h = refl
find_bb-replace_bb_other i b (c ∷ cs) h = ground (arith, find_bb-replace_bb_other i b cs h)

pub find_bb-replace_bb :
    (b : Bb) (bbs : List Bb) (c : Bb)
    → find_bb b.ino bbs ≡ some c
    → find_bb b.ino (replace_bb b bbs) ≡ some b
unfolding find_bb replace_bb
find_bb-replace_bb b [] c h = cc
find_bb-replace_bb b (d ∷ ds) c h = ground (arith, find_bb-replace_bb b ds c)

pub option-some : {a b : Bb} → some a ≡ some b → a ≡ b
option-some e = cc

All-map : (P Q : Bb → Type 0) (bbs : List Bb) → All P bbs → ((c : Bb) → P c → Q c) → All Q bbs
All-map P Q [] a k = tt
All-map P Q (c ∷ cs) a k = (k c a.0, All-map P Q cs a.1 k)

find_bb-All :
    (P : Bb → Type 0) (i : ℕ) (bbs : List Bb) (c : Bb) → All P bbs → find_bb i bbs ≡ some c → P c
unfolding find_bb
find_bb-All P i [] c a e = cc
find_bb-All P i (d ∷ ds) c a e = elim (Bool-cases (d.ino == i)) [
  | inl h ↦ (let q : d ≡ c = option-some (rw (h, find_bb) at e) in rw (← q) a.0)
  | inr h ↦ find_bb-All P i ds c a.1 (rw (h, find_bb) at e)
]

All-replace_bb :
    (P Q : Bb → Type 0) (b : Bb) (bbs : List Bb)
    → All P bbs
    → ((c : Bb) → P c → Q c)
    → Q b
    → All Q (replace_bb b bbs)
unfolding replace_bb
All-replace_bb P Q b [] a k q = tt
All-replace_bb P Q b (c ∷ cs) a k q = elim (Bool-cases (same_file c b)) [
  | inl h ↦ rw (h, replace_bb) (q, All-map P Q cs a.1 k)
  | inr h ↦ rw (h, replace_bb) (k c a.0, All-replace_bb P Q b cs a.1 k q)
]

-- What the store says to lie in the ring of the process lies there, for every file.
abbrev pub AreReady : Store → Type 0
AreReady s = All (λ (b : Bb). IsReady (handler_of s b 0)) s.bbs

IsReady-same :
    (h g : Handler) → g.local_tree ≡ h.local_tree → g.ring ≡ h.ring → IsReady h → IsReady g
IsReady-same h g t r i = record {
  nodes = rw t i.nodes;
  pos = rw r i.pos;
  small = rw r i.small;
  room = rw r i.room;
  tail-le = rw r i.tail-le;
  head-le = rw r i.head-le;
  live = λ p c a e. rw r (i.live p c a (rw t at e));
}

-- What a write that succeeds has found and done.
pub record IsWritten (s : Store) (f : OpenFile) (buf : List ℕ) (ofs n : ℕ) (s' : Store)
    : Type 0 where
  pub b : Bb
  pub h : Handler
  pub found : find_bb f.ino s.bbs ≡ some b
  pub done :
      BbHandler.pwrite s.rank s.disp (handler_of s b f.deferred_file_size) buf ofs ≡ ok (n, h)
  pub same : s' ≡ put_handler s f.ino h

ok-pair : {a b : ℕ × Store} → ok a ≡ ok b → a ≡ b
ok-pair e = cc

pwrite_found-IsWritten :
    (s : Store) (f : OpenFile) (buf : List ℕ) (ofs n : ℕ) (s' : Store) (o : Option Bb)
    → find_bb f.ino s.bbs ≡ o
    → pwrite_found s f buf ofs o ≡ ok (n, s')
    → IsWritten s f buf ofs n s'
unfolding pwrite_found
pwrite_found-IsWritten s f buf ofs n s' none q e = cc
pwrite_found-IsWritten s f buf ofs n s' (some b) q e =
    result (BbHandler.pwrite s.rank s.disp (handler_of s b f.deferred_file_size) buf ofs) refl e
  where
    result :
        (r : Result (ℕ × Handler))
        → BbHandler.pwrite s.rank s.disp (handler_of s b f.deferred_file_size) buf ofs ≡ r
        → put_result s f r ≡ ok (n, s')
        → IsWritten s f buf ofs n s'
    result (err x) d p = cc
    result (ok (k, h)) d p =
        let w : (k, put_handler s f.ino h) ≡ (n, s') = ok-pair p in
        record {
          b = b;
          h = h;
          found = q;
          done = d ∙ ap (λ (x : ℕ × Store). ok (x.0, h)) w;
          same = sym (ap (λ (x : ℕ × Store). x.1) w);
        }

pub pwrite-IsWritten :
    (s : Store) (f : OpenFile) (buf : List ℕ) (ofs n : ℕ) (s' : Store)
    → pwrite s f buf ofs ≡ ok (n, s')
    → IsWritten s f buf ofs n s'
unfolding pwrite
pwrite-IsWritten s f buf ofs n s' e =
    pwrite_found-IsWritten s f buf ofs n s' (find_bb f.ino s.bbs) refl e

module _ (s s' : Store) (f : OpenFile) (buf : List ℕ) (ofs n : ℕ) (ready : AreReady s)
    (pos : 0 < length buf) (fits : ofs + length buf < two64)
    (done : pwrite s f buf ofs ≡ ok (n, s')) where
  abbrev pub written : IsWritten s f buf ofs n s'
  written = pwrite-IsWritten s f buf ofs n s' done

  -- The bytes that the store holds for a file.
  abbrev pub byte_of : Store → Bb → ℕ → Option ℕ
  byte_of u b p = local_byte u.disp (handler_of u b 0) p

  file-IsReady : (b : Bb) (size : ℕ) → IsReady (handler_of s b 0) → IsReady (handler_of s b size)
  unfolding handler_of
  file-IsReady b size r = IsReady-same _ _ refl refl r

  pub writer-IsReady : IsReady (handler_of s written.b f.deferred_file_size)
  writer-IsReady =
      let w = written in
      file-IsReady w.b f.deferred_file_size
        (find_bb-All (λ (b : Bb). IsReady (handler_of s b 0)) f.ino s.bbs w.b ready w.found)

  -- A file of the store once the writer is done.
  others :
      (c : Bb)
      → IsReady (handler_of s c 0)
      → IsReady (handler_of s' c 0) × ((p : ℕ) → byte_of s' c p ≡ byte_of s c p)
  unfolding handler_of put_handler
  others c r =
      let w = written in
      let o =
        pwrite-other s.disp s.rank (handler_of s w.b f.deferred_file_size) buf ofs c.local_tree
          writer-IsReady (IsReady-same _ _ refl refl r) pos fits w.done in
      rw w.same (IsReady-same _ _ refl refl o.0, o.1)

  -- Where the trees of all files are in order and the ring holds what they say, a write of at least
  -- one byte to one file that succeeds leaves every other file of the store, and each byte that the
  -- process holds of it, as it was.
  pub pwrite-isolated :
      (c : Bb)
      → c.ino ≢ f.ino
      → find_bb c.ino s.bbs ≡ some c
      → (find_bb c.ino s'.bbs ≡ some c) × ((p : ℕ) → byte_of s' c p ≡ byte_of s c p)
  unfolding put_handler
  pwrite-isolated c ne found =
      let w = written in
      let o =
        others c (find_bb-All (λ (b : Bb). IsReady (handler_of s b 0)) c.ino s.bbs c ready found) in
      (rw w.same (find_bb-replace_bb_other c.ino _ s.bbs ne ∙ found), o.1)

  -- A write of at least one byte that succeeds keeps the trees of all files of the store in order,
  -- and the ring holding what they say.
  pwrite-AreReady : AreReady s'
  unfolding handler_of put_handler
  pwrite-AreReady =
      let w = written in
      let q =
        pwrite_lem s.disp s.rank (handler_of s w.b f.deferred_file_size) buf ofs writer-IsReady pos
          fits w.done in
      let all =
        All-replace_bb (λ (b : Bb). IsReady (handler_of s b 0))
          (λ (b : Bb). IsReady (handler_of s' b 0))
          (record { ino = f.ino; global_tree = w.h.global_tree; local_tree = w.h.local_tree }) s.bbs
          ready (λ c r. (others c r).0) (rw w.same (IsReady-same _ _ refl refl q.1)) in
      let e : s'.bbs
          ≡ replace_bb
              (record { ino = f.ino; global_tree = w.h.global_tree; local_tree = w.h.local_tree })
              s.bbs =
        ap (λ (x : Store). x.bbs) w.same in
      rw e all

  -- Where the trees of all files are in order and the ring holds what they say, a write of at least
  -- one byte that succeeds returns the number of bytes, and the file in the store then has those at
  -- their offsets and else the bytes that it had.
  pub pwrite-own :
      (c : Bb)
      → find_bb f.ino s.bbs ≡ some c
      → (n ≡ length buf)
        × (b : Bb) × (find_bb f.ino s'.bbs ≡ some b)
        × ((p : ℕ)
            → byte_of s' b p ≡ (
                if leb ofs p && ltb p (ofs + length buf)
                then get_elem? buf (p - ofs)
                else byte_of s c p))
  unfolding handler_of put_handler
  pwrite-own c found =
      let w = written in
      let b : Bb = record {
        ino = f.ino;
        global_tree = w.h.global_tree;
        local_tree = w.h.local_tree;
      } in
      let q =
        pwrite_lem s.disp s.rank (handler_of s w.b f.deferred_file_size) buf ofs writer-IsReady pos
          fits w.done in
      let e : c ≡ w.b = option-some (sym found ∙ w.found) in
      (q.0, b, rw w.same (find_bb-replace_bb b s.bbs w.b w.found), λ p. rw (w.same, e) (q.2 p))
