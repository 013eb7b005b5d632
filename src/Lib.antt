-- ===== src/Lib.antt =====
-- Models of cereggii, thread-safe integers and dictionaries for free-threaded CPython, and proofs of
-- what their C code guarantees.
--
-- The program's parts. `AtomicInt64` (src/cereggii/atomic_int.c) is a 64-bit word that every
-- operation changes by a load and a compare-and-swap, in a loop. `AtomicDict`
-- (src/cereggii/atomic_dict) is a hash table: an index of 64-bit nodes, probed linearly, whose
-- nodes point to entries in pages. An insertion reserves an entry, fills it and links it by a
-- swap of a node; a deletion clears the entry's value and leaves a tombstone; when the index is
-- full its nodes migrate to one of twice the size, and the pages are shared.
--
-- The files.
--   Common: operations on words (Bits), integers (Int), and the compare-and-swap loop (Retry).
--   AtomicInt: src/cereggii/atomic_int.c. The checked arithmetic, then Operations (the loops on
--     the word), Inplace (the in-place operators), Callables (the methods of Python). Overflow
--     and Linear have the proofs. Threads runs many calls of `IncrementAndGet`, access by access.
--   AtomicDict/Runtime: the records of src/include/cereggii/internal/atomic_dict.h, and CPython.
--   AtomicDict/Node: src/cereggii/atomic_dict/node_ops.c; Encoding and Hashing have its proofs.
--   AtomicDict/Pages: addressing in src/cereggii/atomic_dict/pages.c.
--   AtomicDict/Index: the invariant of an index and what a write does to its contents.
--   AtomicDict/Lookup, Insert, Delete, Resize: the probes of lookup.c, insert.c, delete.c and
--     resize.c in src/cereggii/atomic_dict, and `unsafe_insert` of atomic_dict.c.
--     Resize.antt has the functions of resize.c up to `block_wise_migrate`, Resize/Workers the threads that
--     run `migrate_nodes`; Segment, Slots, Ranges and Block follow one block, Cover, Progress and
--     Correct the whole index, Alone a single thread; Leader has the choice of a leader and the events.
--   AtomicDict/Growth: `leader_resize` of one thread with `meta_copy_pages` of meta.c, and a
--     compare-and-set that goes on after it; Table has the larger table's invariant, Room the empty
--     slots that a store leaves, Calls the whole call.
--   AtomicDict/Contents: the operations seen through later lookups.
--   AtomicDict/Reservation: the hand-out of entries in pages.c; Invariant says which entries are still
--     available. Init: the constructor in atomic_dict.c.
--   AtomicDict/CompareAndSet: `AtomicDict_CompareAndSet` and `AtomicDict_SetItem` of insert.c, from the
--     reservation to the counters. Length: `len(d)` over the accessors' counters.
--   AtomicDict/Iter: src/cereggii/atomic_dict/iter.c. Flush: the flush of a reduction in insert.c.
--     Batch: `AtomicDict_BatchGetItem` of lookup.c; Ring has its arrays.
--   AtomicDict/Sequence: whole sequences of calls against a map.
--   AtomicDict/Accessor: counters and reservation buffer of accessor_storage.c; Items: the item
--     methods of lookup.c and delete.c on top of the probes.
--   AtomicRef: src/cereggii/atomic_ref.c, access by access, with the counts of the objects.
--   ReduceTable: src/include/cereggii/internal/reduce_table.h; Round, Search and Roundtrip prove it.
--   Tests: runs at concrete inputs.
--
-- Conventions. A C function keeps its name, without the type's prefix and in lower case. The word
-- of an `AtomicInt64` is an exact integer, and each operation that C computes in 64 bits tests or
-- wraps it; a node, a hash and a position are natural numbers, wrapped at 2 ^ 64 where the source
-- can overflow. An object is its address, and NULL is `none`. What CPython and the processor do is a
-- parameter: `Runtime` has the crc32 instruction, hashing and comparison, `IsLawful` says that
-- equality is an equivalence that agrees with hashes and raises nothing; `Interpreter` has the
-- conversions and calls that `AtomicInt64` uses.
--
-- Bounds. A loop over the index runs on the number of its slots, which is the source's own bound. A
-- compare-and-swap loop runs on the list of the other threads' writes, any list of any values, and
-- ends because a swap fails only if one of them came in between. An index has at most 2 ^ 30 slots
-- in the theorems on probing, where the source shifts a 32-bit 1. The probes of the local table run
-- on the number of its slots; where a slot is empty that is enough.
--
-- A call of an iterator runs on the number of entries in the allocated pages, and a flush of a key on
-- two rounds, which are enough without other writers.
-- A loop without a bound of a resize runs on the number of slots, which is enough where one is empty.
-- A block of slots is migrated in one step of its thread; the words of the new index that two
-- blocks write are disjoint, but for cleared ones that stay empty.
-- An iteration's theorem has fewer than 2 ^ 24 partitions, where C's `int` does not overflow.
-- The search for a group of entries in a page runs on the number of its entries, and the halvings of
-- a size on its 64 digits.
--
-- Not modelled. The operations on a dictionary run without other writers, and all but
-- `set_growing` on one generation of the index: a call that asks for a larger table ends there,
-- before the store or after its insertion. The locks of the accessors, the constructor's
-- `initial`, `Reduce` around its flush, `AtomicRef_Set`, `AtomicDict_ApproxLen`, which takes no
-- lock, `AtomicEvent` and the handles are left out. So are reference counts elsewhere, memory
-- management, builds without assertions where one fails, the shifts of `AtomicInt64`, for which C
-- leaves cases undefined, and what only forwards to CPython.
pub mod Common
pub mod AtomicInt
pub mod AtomicRef
pub mod AtomicDict
pub mod ReduceTable
mod Tests
