-- ===== src/AtomicDict/Items.antt =====
-- The item methods of an `AtomicDict` that one thread calls while no resize runs
-- (src/cereggii/atomic_dict/lookup.c, delete.c). A reference that was just read is alive, so
-- `_Py_TryIncref` succeeds at once, and the accessor's storage and lock are there.
pub mod Correct
use cereggii.Common.{ℕ, suc, zero, ◌+◌, ◌-◌, ◌^◌, bit_and, Option, none, some, if◌then◌else◌, ◌==◌}
use cereggii.Common.Int.{ℤ, pos, negsuc}
use cereggii.AtomicDict.Runtime.{Object, Runtime, Entry, Meta, size_of}
use cereggii.AtomicDict.Node.{is_empty, distance0_of, read_node_at}
use cereggii.AtomicDict.Lookup.{SearchResult, lookup}
use cereggii.AtomicDict.Delete.{Deletion, delete_}
use cereggii.AtomicDict.Accessor.{Dictionary, accessor_len_inc, accessor_tombstones_inc}

-- How a method that returns an object ends: with the object, with NULL and no exception, or with an
-- exception.
pub data Reply : Type 0 where
  object : Object → Reply
  null key_error raised : Reply

-- The probe for the slot that points to a known entry, without a look at the entries.
pub data Position : Type 0 where
  found : ℕ → Position
  not_found : Position

module _ (py : Runtime) (m : Meta) (entry_ix hash : ℕ) where
  unfoldable pub lookup_entry_loop : ℕ → ℕ → Position
  lookup_entry_loop zero distance = Position.not_found
  lookup_entry_loop (suc rounds) distance =
      let d0 = distance0_of py hash m in
      let node = read_node_at (d0 + distance) m in
      let rest = lookup_entry_loop rounds (distance + 1) in
      if is_empty node
      then Position.not_found
      else if node.index == entry_ix
      then Position.found (bit_and (d0 + distance) (2 ^ m.log_size - 1))
      else rest

  unfoldable pub lookup_entry : Position
  unfolding lookup_entry_loop
  lookup_entry = lookup_entry_loop (size_of m) 0

abbrev pub reply_of : Option Object → Reply
reply_of (some value) = Reply.object value
reply_of none = Reply.null

unfoldable pub get_item_or_default : Runtime → Dictionary → Object → Option Object → Reply
get_item_or_default py self key default_value = elim (py.hash_of key) [
  | none ↦ Reply.raised
  | some hash ↦ elim (lookup py (self.metadata) key hash) [
    | SearchResult.error ↦ Reply.raised
    | SearchResult.not_found ↦ reply_of default_value
    | SearchResult.found position node entry_p entry ↦ reply_of entry.value
  ]
]

abbrev pub or_key_error : Reply → Reply
or_key_error (Reply.object value) = Reply.object value
or_key_error Reply.null = Reply.key_error
or_key_error Reply.key_error = Reply.key_error
or_key_error Reply.raised = Reply.raised

unfoldable pub get_item : Runtime → Dictionary → Object → Reply
get_item py self key = or_key_error (get_item_or_default py self key none)

-- `py_none` is `None`, the default of the Python method.
unfoldable pub get_item_or_default_varargs :
    Runtime → Object → Dictionary → Object → Option Object → Reply
get_item_or_default_varargs py py_none self key none =
    get_item_or_default py self key (some py_none)
get_item_or_default_varargs py py_none self key (some default_value) =
    get_item_or_default py self key (some default_value)

-- How a deletion ends, with the dictionary that it leaves.
pub data Removal : Type 0 where
  removed : Dictionary → Removal
  missing failed : Removal

unfoldable pub del_item : Runtime → Dictionary → Object → Removal
del_item py self key = elim (py.hash_of key) [
  | none ↦ Removal.failed
  | some hash ↦ elim (delete_ py (self.metadata) key hash) [
    | Deletion.error ↦ Removal.failed
    | Deletion.not_found ↦ Removal.missing
    | Deletion.deleted entry m ↦ Removal.removed (
        accessor_tombstones_inc (pos 1)
          (accessor_len_inc (negsuc 0) (record self { metadata = m })))
  ]
]
