-- ===== src/AtomicDict/Delete.antt =====
-- Removing a key from the index: src/cereggii/atomic_dict/delete.c. One thread's steps, with no
-- write by another between them.
pub mod Correct
use cereggii.Common.{ℕ, none}
use cereggii.AtomicDict.Runtime.{Object, Runtime, Entry, Node, Meta}
use cereggii.AtomicDict.Node.{tombstone_tag, atomic_write_node_at}
use cereggii.AtomicDict.Pages.{set_value}
use cereggii.AtomicDict.Lookup.{SearchResult, lookup}

-- The fields `error` and `found` of the result, and the entry as it was read before.
pub data Deletion : Type 0 where
  error not_found : Deletion
  deleted : Entry → Meta → Deletion

-- The value becomes NULL first, then the node becomes a tombstone.
unfoldable pub delete_found : Meta → ℕ → Node → ℕ → Meta
delete_found m position node entry_p =
    let cleared = set_value entry_p none m in
    let tombstone : Node = record { node = 0; index = 0; tag = tombstone_tag m; distance = 0 } in
    (atomic_write_node_at position node tombstone cleared).1

unfoldable pub delete_ : Runtime → Meta → Object → ℕ → Deletion
unfolding delete_found
delete_ py m key hash = elim (lookup py m key hash) [
  | SearchResult.error ↦ Deletion.error
  | SearchResult.not_found ↦ Deletion.not_found
  | SearchResult.found position node entry_p entry ↦
      Deletion.deleted entry (delete_found m position node entry_p)
]
