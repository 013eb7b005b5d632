-- ===== src/AtomicDict/Flush.antt =====
-- The flush of a reduction into the dictionary (src/cereggii/atomic_dict/insert.c), where no other
-- thread writes meanwhile. The aggregate is a function of the key, the current value and the new one:
-- NOT_FOUND stands for no current value, and NULL is an exception that it raised.
pub mod Single
pub mod Correct
use cereggii.Common.{
  ℕ, zero, suc, ◌+◌, ◌%◌, Bool, true, false, Option, none, some, List, [], ◌∷◌, if◌then◌else◌, ◌==◌,
}
use cereggii.AtomicDict.Runtime.{Object, Runtime}
use cereggii.AtomicDict.Accessor.{Dictionary}
use cereggii.AtomicDict.Items.{Reply, get_item_or_default}
use cereggii.AtomicDict.CompareAndSet.{Argument, Setting, compare_and_set}

abbrev pub Aggregate : Type 0
Aggregate = Object → Option Object → Object → Argument

-- How a flush ends: 0, -1, at a request for a larger table, before a key is flushed or after its
-- insertion, or in rounds that were not enough.
pub data Flushed : Type 0 where
  flushed raised must_grow inserted_must_grow : Dictionary → Flushed
  unfinished : Flushed

-- A pointer comparison with `expected`; `none` is NOT_FOUND.
abbrev pub same_object : Option Object → Option Object → Bool
same_object none none = true
same_object none (some b) = false
same_object (some a) none = false
same_object (some a) (some b) = a == b

abbrev pub expected_argument : Option Object → Argument
expected_argument none = Argument.not_found
expected_argument (some o) = Argument.object o

-- After the compare-and-set: `retry` where it ended with EXPECTATION_FAILED.
abbrev pub settled : Setting → (Dictionary → Flushed) → Dictionary → Flushed
settled Setting.value_error retry self = Flushed.raised self
settled (Setting.raised self') retry self = Flushed.raised self'
settled (Setting.contended self') retry self = Flushed.unfinished
settled (Setting.must_grow self') retry self = Flushed.must_grow self'
settled (Setting.expectation_failed self') retry self = retry self'
settled (Setting.not_found false self') retry self = Flushed.flushed self'
settled (Setting.not_found true self') retry self = Flushed.inserted_must_grow self'
settled (Setting.current old self') retry self = Flushed.flushed self'

-- The current value, `none` for NOT_FOUND, unless the lookup raised.
abbrev pub current_of : Reply → Option (Option Object)
current_of (Reply.object value) = some (some value)
current_of Reply.null = some none
current_of Reply.key_error = none
current_of Reply.raised = none

module _ (py : Runtime) (aggregate : Aggregate) (key new : Object) where
  -- What follows the aggregate: the next round, unless it raised.
  abbrev pub aggregated : Argument → (Argument → Dictionary → Flushed) → Dictionary → Flushed
  aggregated Argument.null again self = Flushed.raised self
  aggregated Argument.not_found again self = again Argument.not_found self
  aggregated Argument.any again self = again Argument.any self
  aggregated Argument.expectation_failed again self = again Argument.expectation_failed self
  aggregated (Argument.object o) again self = again (Argument.object o) self

  -- A round, by the current value.
  abbrev pub flush_round :
      (Option Object → Dictionary → Flushed)
      → Option Object
      → Argument
      → Dictionary
      → Option (Option Object)
      → Flushed
  flush_round retry expected desired self none = Flushed.raised self
  flush_round retry expected desired self (some current) =
      if same_object current expected
      then settled
          (compare_and_set py self (Argument.object key) (expected_argument expected) desired)
          (retry current) self
      else retry current self

  unfoldable pub flush_loop : ℕ → Option Object → Argument → Dictionary → Flushed
  flush_loop zero expected desired self = Flushed.unfinished
  flush_loop (suc rounds) expected desired self =
      flush_round
        (λ current self'. aggregated (aggregate key current new) (flush_loop rounds current) self')
        expected desired self (current_of (get_item_or_default py self key none))

  -- `expected` is NOT_FOUND at first, and `new` is stored as it is where the key is missing. Without
  -- other writers two rounds are enough.
  unfoldable pub flush_one : Dictionary → Flushed
  unfolding flush_loop
  flush_one self = flush_loop 2 none (Argument.object new) self

-- An entry of the local table: a key and its aggregated value.
module _ (py : Runtime) (aggregate : Aggregate) (entries : ℕ → Object × Object)
    (used start : ℕ) where
  -- The entries from a pseudo random one on, around the table.
  unfoldable pub flush_entries : ℕ → ℕ → Dictionary → Flushed
  flush_entries zero i self = Flushed.flushed self
  flush_entries (suc left) i self =
      let (key, desired) = entries ((start + i) % used) in
      elim (flush_one py aggregate key desired self) [
        | flushed self' ↦ flush_entries left (i + 1) self'
        | raised self' ↦ Flushed.raised self'
        | must_grow self' ↦ Flushed.must_grow self'
        | inserted_must_grow self' ↦ Flushed.inserted_must_grow self'
        | unfinished ↦ Flushed.unfinished
      ]

  unfoldable pub reduce_flush : Dictionary → Flushed
  unfolding flush_entries
  reduce_flush self = if used == 0 then Flushed.flushed self else flush_entries used 0 self
