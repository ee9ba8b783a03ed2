-- ===== src/Lib.antt =====
-- peanuts is a burst buffer on node-local persistent memory: every process of an MPI job appends
-- what it writes to a ring of its own, an extent tree says which range of a file lies where in
-- which ring, and a synchronisation merges the trees, so that a read finds its bytes in the local
-- ring, in a remote ring or in the file below. Each part names its source.
--
-- The parts, from the bottom up:
-- Pmem - projects/peanuts/include/peanuts/pmem2.hpp, `file_operations::pread` and `pwrite`. A
--   memory is a function from offsets to bytes; flags of a write, drain and persist do not change
--   what is stored.
-- Power - projects/peanuts/include/peanuts/utils/power.hpp. Bitwise operations on 64-bit words;
--   `power` recurses on half the exponent, for which a fuel of 64 is more than the bits of an
--   `unsigned int`.
-- Topology - projects/peanuts/include/peanuts/topology.hpp, the maps between global ranks and pairs
--   of ranks. `pairs` stands for the result of the `all_gather`; reading a vector out of range, or
--   a missing key, is `none`.
-- Rpm - projects/peanuts/include/peanuts/rpm.hpp, where the block of a process starts, what a read
--   of a block notes, and what the flush then waits for. `win_get` is the MPI window. The vector of
--   `initialize_rank_info` has room and no elements, so that its assignments are undefined, `none`;
--   what a read finds there is an argument of it.
-- RingTracker, RingBuffer - projects/peanuts/include/peanuts/ring_tracker.hpp and
--   projects/peanuts/include/peanuts/ring_buffer.hpp. The log sequence numbers are 64-bit words
--   that wrap around; the block under a ring is a parameter, as it is a template argument.
--   RingBuffer/Stream is the stream of bytes that a ring stands for.
-- Extent, ExtentList - `extent` of projects/peanuts/include/peanuts/extent_tree.hpp, and
--   projects/peanuts/include/peanuts/extent_list.hpp.
-- NodeSet - `node` and `comparator` of projects/peanuts/include/peanuts/extent_tree.hpp, and what
--   the tree uses of `std::set`. A cursor is a set with an iterator in it: the nodes before it,
--   nearest first, and the nodes from it on. Insertion with a hint gives an equivalent node the
--   right to keep the new one out.
-- ExtentTree - `find`, `add`, `remove`, `merge` and `do_insert`. The loop that carves overlapped
--   nodes out takes the node at the iterator away in each round, and a part that it puts back ends
--   it, so its fuel is the number of nodes from the iterator on and two; that of `remove` is the
--   number of nodes and one. NodeSet/Lookup gives the answer of a tree for one offset.
-- BbHandler, BbRead - `bb_handler` of projects/peanuts/include/peanuts/bb.hpp as one process sees
--   it. What a broadcast or a gather gives, what the remote rings return and what the file below
--   has are parameters. BbHandler has `size`, `truncate`, `sync` and `pwrite`; BbRead has `pread`
--   and `pread_noflush`, a loop over the local tree, a loop over the holes and the global tree, and
--   a loop over the holes left to the file. Its result tells a number of bytes from an exception of
--   the file below, and from undefined behaviour, an iterator moved behind the end.
-- Store - `bb` and `bb_store` of projects/peanuts/include/peanuts/bb.hpp: the set of known files, a
--   list with one entry for an inode, the ring and the block of the process; `open`, `unlink`,
--   `save` and `load` in Store/Persistence, and the writes of the open files, which share the trees
--   of the store. Words are stored in 8 bytes, the lowest first. A round of the loop of `load`
--   passes at least the 8 bytes of a size, so one more than the bytes of the snapshot is fuel
--   enough; a size of 2^63 or more is refused by `std::vector`, and a read of a ring without bytes,
--   or behind the end of the block, is undefined. The serialiser, and what `fstat` and the
--   broadcast give, are parameters. A handler of a file that was unlinked, which keeps a tree that
--   the store has no more, is not modelled.
-- Cluster - the processes of a run, as `bb_handler` and `rpm` join them: a handler of one shared
--   file on each rank, one memory for each node, the writes into it, the gather of all local trees,
--   and the reads of remote rings through the own mapping or the window. Cluster/Spec is the file
--   without trees, rings or memories: what each rank wrote since the last synchronisation, and what
--   was synchronised. Cluster/Layout has a topology and a mapping for each process, and makes the
--   entries for the ranks from them. All rings have one size. A run of Cluster/Runs is a sequence
--   of whole calls; calls of two processes at one time are not modelled.
-- Handles - projects/peanuts/include/peanuts/utils/cond_deleter.hpp, and how the classes of
--   projects/peanuts/include/peanuts/mpi/comm.hpp, projects/peanuts/include/peanuts/mpi/dtype.hpp
--   and projects/peanuts/include/peanuts/pmem2.hpp own their resources. A resource is a number;
--   whether a call makes one is an argument.
-- ThreadLocal, SenseBarrier - projects/peanuts/include/peanuts/utils/tls.hpp and
--   projects/peanuts/include/peanuts/utils/sense_barrier.hpp. The barrier goes by steps, one access
--   to a shared variable each, which its threads take in any order; a thread that waits takes a
--   step for each look at the sense. The count of returned calls is for the theorems.
-- Statistics - projects/peanuts/include/peanuts/utils/welford.hpp. The type `double` and its
--   operations are a parameter, of which nothing is assumed; an exception is an error.
-- Encoding - projects/peanuts/include/peanuts/utils/delta_encoding.hpp and
--   projects/peanuts/include/peanuts/utils/varint_encoding.hpp, for 64-bit numbers, whose bytes ten
--   rounds write.
-- SparseExtent - projects/peanuts/include/peanuts/sparse_extent.hpp, extents with holes between
--   them, and in SparseExtent/Iterator their iterator, whose loop makes a round for each extent and
--   one more.
-- SparseExtentTree - projects/peanuts/include/peanuts/sparse_extent_tree.hpp, whose operations are
--   stubs.
-- DeferredFile - projects/peanuts/include/peanuts/deferred_file.hpp, over the system calls and the
--   file of zpp as parameters.
-- CInterface - projects/peanuts_c/src/peanuts_c.cpp, the functions over a store and its open files,
--   with -1 or a null pointer for an exception. A `malloc` that gives nothing is undefined
--   behaviour.
-- Options - projects/peanuts/include/peanuts/options.hpp, with
--   projects/peanuts/include/peanuts/utils/singleton.hpp and `getenv_with_default` of
--   projects/peanuts/include/peanuts/utils/env.hpp. The path is initialised first and destroyed
--   last.
-- HumanReadable - `from_human` of projects/peanuts/include/peanuts/utils/human_readable.hpp, for
--   64-bit numbers; what `from_chars` reads is a parameter.
-- Base - the shared names, Boolean tests on numbers, lists and 64-bit words.
--
-- Not modelled: the other utilities, the calls that the wrappers of MPI and libpmem2 pass on, and the
-- inspectors, which only call libraries, and the copies of zpp. Assertions are hypotheses.
pub mod Base
pub mod Extent
pub mod ExtentList
pub mod NodeSet
pub mod ExtentTree
pub mod Pmem
pub mod RingBuffer
pub mod RingTracker
pub mod Topology
pub mod Power
pub mod Rpm
pub mod BbHandler
pub mod BbRead
pub mod Encoding
pub mod SparseExtent
pub mod SparseExtentTree
pub mod Store
pub mod ThreadLocal
pub mod SenseBarrier
pub mod DeferredFile
pub mod Cluster
pub mod CInterface
pub mod Options
pub mod Handles
pub mod Statistics
pub mod HumanReadable
