-- ===== src/AtomicDict/Growth.antt =====
-- Growing the table, and the stores that go on in the larger one: `grow` and `leader_resize` of
-- src/cereggii/atomic_dict/resize.c, `meta_copy_pages` of meta.c and the calls of `grow` in insert.c. One
-- thread runs: it is the leader, and nobody waits for its events. Allocations succeed.
pub mod Table
pub mod Correct
pub mod Room
pub mod Calls
use cereggii.Common.{
  ℕ, zero, suc, ◌+◌, ◌/◌, Bool, true, false, Option, none, some, ltb, if◌then◌else◌,
}
use cereggii.Common.Int.{ℤ, pos, negsuc, leb_ℤ}
use cereggii.AtomicDict.Runtime.{Object, Runtime, Entry, Meta, size_of}
use cereggii.AtomicDict.Accessor.{Storage, Dictionary}
use cereggii.AtomicDict.Resize.{max_log_size, blockwise_migrate_size}
use cereggii.AtomicDict.Resize.Workers.{migrate_nodes}
use cereggii.AtomicDict.Insert.{Expected}
use cereggii.AtomicDict.CompareAndSet.{Setting, set_expected}

-- What allocated memory holds before it is written.
pub record Memory : Type 0 where
  pub words : ℕ → ℕ
  pub page_at : ℕ → ℕ → Entry

-- `AtomicDictMeta_New`: the index is not cleared.
abbrev pub meta_new : Memory → ℕ → Meta
meta_new memory log_size = record {
  log_size = log_size;
  index = memory.words;
  pages = memory.page_at;
  greatest_allocated_page = negsuc 0;
}

-- The pages up to the greatest one are shared.
unfoldable pub meta_copy_pages : Meta → Meta → Meta
meta_copy_pages from_meta to_meta =
    let gap = from_meta.greatest_allocated_page in
    record to_meta {
      pages =
          λ page_i. if leb_ℤ (pos page_i) gap then from_meta.pages page_i else to_meta.pages page_i;
      greatest_allocated_page = gap;
    }

-- -1 with a ValueError, a migration that does not end, or 1.
pub data Growth : Type 0 where
  failed endless : Growth
  grown : Dictionary → Growth

-- The new table replaces the old one, and the thread counts the nodes that it migrated.
abbrev pub swap_metadata : Dictionary → Option (ℕ × Meta × ℕ) → Growth
swap_metadata self none = Growth.endless
swap_metadata self (some (_, new_meta, migrated_count)) = Growth.grown (record self {
  metadata = new_meta;
  storage = record (self.storage) { local_inserted = pos migrated_count };
})

-- A round of fuel for each block, and one for the test that ends the loop.
abbrev pub rounds_for : Meta → ℕ
rounds_for m = size_of m / blockwise_migrate_size + 2

module _ (py : Runtime) (memory : Memory) where
  unfoldable pub leader_resize : Dictionary → Growth
  leader_resize self =
      let current_meta = self.metadata in
      let to_log_size = current_meta.log_size + 1 in
      let new_meta = meta_copy_pages current_meta (meta_new memory to_log_size) in
      if ltb max_log_size to_log_size
      then Growth.failed
      else swap_metadata self (migrate_nodes py current_meta (rounds_for current_meta) 0 new_meta 0)

-- How a store ends that grows the table where it must: with an exception of the store or of a
-- resize, after which an insertion may have been made, or with what the store gives.
pub data Outcome : Type 0 where
  value_error resize_failed endless contended : Outcome
  raised expectation_failed not_found : Dictionary → Outcome
  current : Object → Dictionary → Outcome

-- The growth that an insertion asks for once it is made.
abbrev pub inserted_outcome : Growth → Outcome
inserted_outcome Growth.failed = Outcome.resize_failed
inserted_outcome Growth.endless = Outcome.endless
inserted_outcome (Growth.grown self) = Outcome.not_found self

module _ (py : Runtime) (memory : Memory) (key : Object) (hash : ℕ) (desired : Object)
    (expected : Expected) where
  -- A growth before the insertion goes back to the beginning.
  after_growth : (Dictionary → Outcome) → Growth → Outcome
  after_growth again Growth.failed = Outcome.resize_failed
  after_growth again Growth.endless = Outcome.endless
  after_growth again (Growth.grown self) = again self

  finish : (Dictionary → Outcome) → Setting → Outcome
  finish again Setting.value_error = Outcome.value_error
  finish again (Setting.raised self) = Outcome.raised self
  finish again (Setting.contended self) = Outcome.contended
  finish again (Setting.must_grow self) = after_growth again (leader_resize py memory self)
  finish again (Setting.expectation_failed self) = Outcome.expectation_failed self
  finish again (Setting.not_found false self) = Outcome.not_found self
  finish again (Setting.not_found true self) = inserted_outcome (leader_resize py memory self)
  finish again (Setting.current old self) = Outcome.current old self

  -- From the label `beginning` on, at most as many times as there are rounds.
  unfoldable pub set_growing : ℕ → Dictionary → Outcome
  unfolding finish after_growth
  set_growing zero self = Outcome.endless
  set_growing (suc rounds) self =
      finish (λ s. set_growing rounds s) (set_expected py self key hash desired expected)
