-- ===== src/CInterface.antt =====
-- projects/peanuts_c/src/peanuts_c.cpp, the C functions over a store and its open files: exceptions
-- become -1 or a null pointer. What a pointer to a C object leads to stands for the pointer.
pub mod Calls
mod Tests
use peanuts.Base.{ℕ, Bool, Option, some, none, List, if◌then◌else◌}
use peanuts.Pmem.{Memory}
use peanuts.ExtentTree.{ExtentTree}
use peanuts.Rpm.{Accessed, FlushCall, flush}
use peanuts.BbHandler.{Handler, Result, ok, err, sync_extent, sync_file_size}
use peanuts.BbRead.{Outcome, done, undefined, thrown}
use peanuts.Store.{Bb, Store, OpenFile, find_bb, handler_of, put_handler, open_file}
use peanuts.Store.Persistence.{Loaded, loaded, bad_snapshot, bad_read, no_fuel}
use peanuts.BbHandler
use peanuts.BbRead
use peanuts.Store
use peanuts.Store.Persistence

-- An `int` or `ssize_t` that a function returns.
pub data Return : Type 0 where
  minus_one : Return
  value : ℕ → Return

-- A pointer that a function returns. Where `malloc` gives none, the write through it is undefined.
pub data Pointer {ℓ} (A : Type ℓ) : Type ℓ where
  null : Pointer A
  pointer : A → Pointer A
  wild : Pointer A

-- `created` is what the constructors of `topology` and `rpm` make, or nothing where one throws: the
-- size of the block, where it starts, the rank, and the memory.
unfoldable pub peanuts_store_create : Option (ℕ × ℕ × ℕ × Memory) → (malloc : Bool) → Pointer Store
peanuts_store_create none malloc = null
peanuts_store_create (some (block_size, disp, rank, memory)) malloc =
    elim (Store.make block_size disp rank memory) [
      | err _ ↦ null
      | ok s ↦ if malloc then pointer s else wild
    ]

unfoldable pub peanuts_store_save : (Bb → List ℕ) → Store → Return × Store
peanuts_store_save serialize s =
    let (finished, s') = Persistence.save serialize s in
    (if finished then value 0 else minus_one, s')

-- Nothing is returned where a read of the loop is undefined, or the loop does not end.
unfoldable pub peanuts_store_load : (List ℕ → Option Bb) → Store → Option Return × Store
peanuts_store_load deserialize s =
    let (result, s') = Persistence.load deserialize s in
    (
      elim result [
        | loaded _ ↦ some (value 0)
        | bad_snapshot _ ↦ some minus_one
        | bad_read ↦ none
        | no_fuel ↦ none
      ],
      s',
    )

unfoldable pub peanuts_store_open :
    ℕ → ℕ → List ExtentTree → Option (ℕ × ℕ) → (malloc : Bool) → Store → Pointer OpenFile × Store
peanuts_store_open comm_size topo_size gathered meta malloc s =
    elim (open_file comm_size topo_size gathered meta s) [
      | err _ ↦ (null, s)
      | ok (f, s') ↦ (if malloc then pointer f else wild, s')
    ]

-- `ino` is what `get_ino` gives for the path, or nothing where it throws.
unfoldable pub peanuts_store_unlink : Option ℕ → Store → Return × Store
peanuts_store_unlink none s = (minus_one, s)
peanuts_store_unlink (some ino) s = (value 0, record s { bbs = Store.unlink ino s.bbs })

unfoldable pub peanuts_bb_pwrite : Store → OpenFile → List ℕ → ℕ → Return × Store
peanuts_bb_pwrite s f buf ofs = elim (Store.pwrite s f buf ofs) [
  | err _ ↦ (minus_one, s)
  | ok (n, s') ↦ (value n, s')
]

-- The handler of an open file, which shares the file `b` of the store, and what a change of it
-- leaves.
abbrev pub handler : Store → OpenFile → Bb → Handler
handler s f b = handler_of s b f.deferred_file_size

unfoldable pub store_handler : Return → Store → OpenFile → Handler → Return × OpenFile × Store
store_handler r s f h =
    (r, record f { deferred_file_size = h.deferred_file_size }, put_handler s f.ino h)

-- A read, with the caller's buffer behind it; nothing, where it is undefined.
module _ (rring_pread : ℕ → Accessed → ℕ → ℕ → List ℕ × Accessed)
    (file_pread : ℕ → ℕ → Option (List ℕ)) where
  unfoldable pub read_return : Outcome → Option (Return × Memory)
  read_return (done n buf) = some (value n, buf)
  read_return (thrown buf) = some (minus_one, buf)
  read_return undefined = none

  unfoldable pub peanuts_bb_pread_aggregate :
      Store → OpenFile → Bb → Memory → ℕ → ℕ → Option (Return × Memory) × Store
  unfolding read_return
  peanuts_bb_pread_aggregate s f b buf count offset =
      let (outcome, accessed) =
        BbRead.pread_noflush s.disp (handler s f b) offset count rring_pread file_pread buf in
      (read_return outcome, record s { accessed = accessed })

  unfoldable pub peanuts_bb_pread :
      Store → OpenFile → Bb → Memory → ℕ → ℕ → Option (Return × Memory) × Store
  unfolding read_return
  peanuts_bb_pread s f b buf count offset =
      let (outcome, call, accessed) =
        BbRead.pread s.disp (handler s f b) offset count rring_pread file_pread buf in
      (read_return outcome, record s { accessed = accessed })

-- The flush, and what it asks of the windows.
unfoldable pub peanuts_bb_wait : Store → Return × FlushCall × Store
peanuts_bb_wait s =
    let (call, accessed) = flush s.accessed in (value 0, call, record s { accessed = accessed })

-- Where the size of the file is not to be had, the trees have been merged all the same.
unfoldable pub peanuts_bb_sync :
    ℕ → ℕ → List ExtentTree → Option ℕ → Store → OpenFile → Bb → Return × OpenFile × Store
unfolding store_handler
peanuts_bb_sync comm_size topo_size gathered file_size s f b =
    let merged = sync_extent comm_size topo_size gathered (handler s f b) in
    elim (sync_file_size file_size merged) [
      | err _ ↦ store_handler minus_one s f merged
      | ok h' ↦ store_handler (value 0) s f h'
    ]

unfoldable pub peanuts_bb_size : Store → OpenFile → Bb → Return × ℕ
peanuts_bb_size s f b = (value 0, BbHandler.size (handler s f b))

unfoldable pub peanuts_bb_truncate : Bool → Store → OpenFile → Bb → ℕ → Return × OpenFile × Store
unfolding store_handler
peanuts_bb_truncate truncated s f b n = elim (BbHandler.truncate truncated (handler s f b) n) [
  | err _ ↦ (minus_one, f, s)
  | ok h' ↦ store_handler (value 0) s f h'
]
