-- ===== src/Handles.antt =====
-- Owners of resources: projects/peanuts/include/peanuts/utils/cond_deleter.hpp, and the handles of
-- mpi/raii.hpp, raii/fd.hpp and raii/pmem2.hpp beside it, as the classes of mpi/comm.hpp,
-- mpi/group.hpp, mpi/dtype.hpp, mpi/win.hpp, mpi/info.hpp and pmem2.hpp use them. A resource is a
-- number; whether a call of MPI, libpmem2 or the system gives one is an argument.
pub mod Counts
pub mod Ownership
mod Tests
use peanuts.Base.{ℕ, zero, suc, ◌+◌, Bool, true, false, Option, none, some, List, [], ◌∷◌}
use peanuts.Base.{if◌then◌else◌}

-- `cond_deleter`; a deleter without a condition is one that always deletes.
pub record CondDeleter : Type 0 where
  pub should_delete : Bool

-- `std::unique_ptr` with such a deleter; `none` is the null handle.
pub record Unique : Type 0 where
  pub pointer : Option ℕ
  pub deleter : CondDeleter

-- `operator()`: what has been freed behind the call.
unfoldable pub call : CondDeleter → Option ℕ → List ℕ → List ℕ
call d none freed = freed
call d (some p) freed = if d.should_delete then p ∷ freed else freed

abbrev pub null : Unique
null = record { pointer = none; deleter = record { should_delete = true } }

abbrev pub get : List Unique → ℕ → Unique
get [] i = null
get (u ∷ us) zero = u
get (u ∷ us) (suc i) = get us i

abbrev pub set : List Unique → ℕ → Unique → List Unique
set [] i v = []
set (u ∷ us) zero v = v ∷ us
set (u ∷ us) (suc i) v = u ∷ set us i v

-- The variables of a program, what has been freed, and how many resources there have been.
pub record Program : Type 0 where
  pub vars : List Unique
  pub freed : List ℕ
  pub created : ℕ

-- `reset`: the pointer is replaced, and the old one deleted.
unfoldable pub reset : ℕ → Option ℕ → Program → Program
unfolding call
reset v p h = record h {
  vars = set h.vars v (record (get h.vars v) { pointer = p });
  freed = call (get h.vars v).deleter (get h.vars v).pointer h.freed;
}

-- `release`: the pointer is handed out, and not deleted.
unfoldable pub release : ℕ → Program → Option ℕ × Program
release v h = (
  (get h.vars v).pointer,
  record h { vars = set h.vars v (record (get h.vars v) { pointer = none }) },
)

unfoldable pub set_should_delete : ℕ → Bool → Program → Program
set_should_delete v b h = record h {
  vars = set h.vars v (record (get h.vars v) { deleter = record { should_delete = b } });
}

-- A constructor that makes a resource, such as that of `comm` from a split: where the call fails it
-- throws, and the variable is as it was.
unfoldable pub create : Bool → ℕ → Program → Program
unfolding reset set_should_delete
create false v h = h
create true v h =
    set_should_delete v true (reset v (some h.created) (record h { created = suc h.created }))

-- The constructor from a handle that is there, which is not managed.
unfoldable pub borrow : ℕ → ℕ → Program → Program
unfolding reset set_should_delete
borrow p v h = set_should_delete v false (reset v (some p) h)

-- Move assignment of `w` to `v`, which is defaulted: the pointer first, then the deleter.
unfoldable pub move_assign : ℕ → ℕ → Program → Program
unfolding release reset set_should_delete
move_assign v w h =
    let d = (get h.vars w).deleter.should_delete in
    let (p, h') = release w h in set_should_delete v d (reset v p h')

-- The end of a variable's life.
unfoldable pub destroy : ℕ → Program → Program
unfolding reset
destroy v h = reset v none h

-- `pmem2::device::close` closes what it releases, whether or not the call of the system fails.
unfoldable pub close : ℕ → Program → Program
unfolding release call
close v h =
    let (p, h') = release v h in
    record h' { freed = call (record { should_delete = true }) p h'.freed }
