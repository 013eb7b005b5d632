-- ===== src/AtomicDict.antt =====
-- The concurrent hash table of src/cereggii/atomic_dict.
pub mod Runtime
pub mod Node
pub mod Pages
pub mod Index
pub mod Insert
pub mod Delete
pub mod Lookup
pub mod Resize
pub mod Growth
pub mod Contents
pub mod Accessor
pub mod Items
pub mod Reservation
pub mod Init
pub mod CompareAndSet
pub mod Length
pub mod Sequence
pub mod Iter
pub mod Flush
pub mod Batch
