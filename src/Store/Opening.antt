-- ===== src/Store/Opening.antt =====
-- Opening and unlinking the files of a store.
use peanuts.Base.{
  ℕ, ◌≡◌, ◌≢◌, ◌∙◌, refl, sym, ap, arith, some, none, List, [], ◌∷◌, ◌==◌, Bool-cases, inl, inr,
}
use peanuts.ExtentTree.{ExtentTree}
use peanuts.Store.Files.{option-some}
use peanuts.BbHandler.{Handler, ok, sync_extent}
use peanuts.Store.{
  Bb, Store, OpenFile, find_bb, insert_bb, replace_bb, unlink, handler_of, put_handler, open_file,
}

find_bb-unlink : (ino : ℕ) (bbs : List Bb) → find_bb ino (unlink ino bbs) ≡ none
unfolding find_bb unlink
find_bb-unlink ino [] = refl
find_bb-unlink ino (b ∷ bs) = ground (arith, find_bb-unlink ino bs)

find_bb-unlink_other :
    (i ino : ℕ) (bbs : List Bb) → i ≢ ino → find_bb i (unlink ino bbs) ≡ find_bb i bbs
unfolding find_bb unlink
find_bb-unlink_other i ino [] d = refl
find_bb-unlink_other i ino (b ∷ bs) d = ground (arith, find_bb-unlink_other i ino bs d)

find_bb-insert_bb :
    (b : Bb) (bbs : List Bb) → find_bb b.ino bbs ≡ none → find_bb b.ino (insert_bb b bbs) ≡ some b
unfolding find_bb insert_bb
find_bb-insert_bb b [] e = ground arith
find_bb-insert_bb b (c ∷ cs) e = ground (arith, find_bb-insert_bb b cs)

insert_bb-known : (b c : Bb) (bbs : List Bb) → find_bb b.ino bbs ≡ some c → insert_bb b bbs ≡ bbs
unfolding find_bb insert_bb
insert_bb-known b c [] e = cc
insert_bb-known b c (d ∷ ds) e = ground (arith, insert_bb-known b c ds)

find_bb-insert_bb_other :
    (i : ℕ) (b : Bb) (bbs : List Bb) → i ≢ b.ino → find_bb i (insert_bb b bbs) ≡ find_bb i bbs
unfolding find_bb insert_bb
find_bb-insert_bb_other i b [] d = ground arith
find_bb-insert_bb_other i b (c ∷ cs) d = ground (arith, find_bb-insert_bb_other i b cs d)

-- A file put back as it was found changes nothing.
replace_bb-found : (b : Bb) (bbs : List Bb) → find_bb b.ino bbs ≡ some b → replace_bb b bbs ≡ bbs
unfolding find_bb replace_bb
replace_bb-found b [] e = cc
replace_bb-found b (c ∷ cs) e = elim (Bool-cases (c.ino == b.ino)) [
  | inl h ↦
      (let q : c ≡ b = option-some (rw (h, find_bb) at e) in
        rw (h, replace_bb) (ap (λ (x : Bb). x ∷ cs) (sym q)))
  | inr h ↦
      rw (h, replace_bb)
        (ap (λ (x : List Bb). c ∷ x) (replace_bb-found b cs (rw (h, find_bb) at e)))
]

-- Alone, a process merges nothing when it opens a file.
sync_extent-alone :
    (topo_size : ℕ) (gathered : List ExtentTree) (h : Handler)
    → sync_extent 1 topo_size gathered h ≡ h
unfolding sync_extent
sync_extent-alone topo_size [] h = refl
sync_extent-alone topo_size (t ∷ ts) h = refl

find_bb-ino : (i : ℕ) (bbs : List Bb) (b : Bb) → find_bb i bbs ≡ some b → b.ino ≡ i
unfolding find_bb
find_bb-ino i [] b e = cc
find_bb-ino i (c ∷ cs) b e = elim (Bool-cases (c.ino == i)) [
  | inl h ↦ (let q : c ≡ b = option-some (rw (h, find_bb) at e) in rw (← q) (ground arith))
  | inr h ↦ find_bb-ino i cs b (rw (h, find_bb) at e)
]

abbrev pub new_bb : ℕ → Bb
new_bb ino = record { ino = ino; global_tree = []; local_tree = [] }

module _ (topo_size : ℕ) (gathered : List ExtentTree) (ino size : ℕ) (s : Store) where
  abbrev pub opened : OpenFile
  opened = record { ino = ino; deferred_file_size = size }

  abbrev inserted : Store
  inserted = record s { bbs = insert_bb (new_bb ino) s.bbs }

  open_file-alone :
      (b : Bb)
      → find_bb ino inserted.bbs ≡ some b
      → open_file 1 topo_size gathered (some (ino, size)) s ≡ ok (opened, inserted)
  unfolding open_file put_handler handler_of
  open_file-alone b f =
      let n = find_bb-ino ino inserted.bbs b f in
      let same =
        ap
          (λ (k : ℕ).
            replace_bb (record { ino = k; global_tree = b.global_tree; local_tree = b.local_tree })
              inserted.bbs)
          (sym n)
        ∙ replace_bb-found b inserted.bbs (ap (λ (k : ℕ). find_bb k inserted.bbs) n ∙ f) in
      rw (f, open_file)
        (ap (λ (h : Handler). ok (opened, put_handler inserted ino h))
            (sync_extent-alone topo_size gathered (handler_of inserted b size))
          ∙ ap (λ (x : List Bb). ok (opened, record s { bbs = x })) same)

  -- For a process alone, opening a file whose inode the store knows succeeds and leaves the store
  -- as it was.
  open_file-known :
      (b : Bb)
      → find_bb ino s.bbs ≡ some b
      → open_file 1 topo_size gathered (some (ino, size)) s ≡ ok (opened, s)
  open_file-known b f =
      let i = insert_bb-known (new_bb ino) b s.bbs f in
      open_file-alone b (rw i f) ∙ ap (λ (x : List Bb). ok (opened, record s { bbs = x })) i

module _ (topo_size : ℕ) (gathered : List ExtentTree) (ino size : ℕ) (s : Store) where
  -- For a process alone, opening a file whose inode was unlinked just before succeeds, finds the
  -- file without extents, and leaves every other file of the store as it was.
  pub open_file-unlink :
      (s' : Store) × (open_file 1 topo_size gathered
          (some (ino, size))
          (record s { bbs = unlink ino s.bbs })
        ≡ ok (record { ino = ino; deferred_file_size = size }, s'))
      × (find_bb ino s'.bbs ≡ some (new_bb ino))
      × ((j : ℕ) → j ≢ ino → find_bb j s'.bbs ≡ find_bb j s.bbs)
  open_file-unlink =
      let u : Store = record s { bbs = unlink ino s.bbs } in
      let f = find_bb-insert_bb (new_bb ino) u.bbs (find_bb-unlink ino s.bbs) in
      (
        inserted topo_size gathered ino size u,
        open_file-alone topo_size gathered ino size u (new_bb ino) f,
        f,
        λ j d. find_bb-insert_bb_other j (new_bb ino) u.bbs d ∙ find_bb-unlink_other j ino s.bbs d,
      )
