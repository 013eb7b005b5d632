-- ===== src/AtomicDict/Lookup.antt =====
-- Searching the index: src/cereggii/atomic_dict/lookup.c. One thread's reads, with no write by
-- another thread between them.
pub mod Correct
use cereggii.Common.{
  ℕ, zero, suc, ◌+◌, ◌-◌, ◌^◌, true, false, none, some, ◌==◌, if◌then◌else◌, bit_and,
}
use cereggii.AtomicDict.Runtime.{Object, Runtime, Entry, Node, Meta, size_of}
use cereggii.AtomicDict.Node.{read_node_at, is_empty, is_tombstone, check_tag, distance0_of}
use cereggii.AtomicDict.Pages.{get_entry_at, read_entry}

-- `AtomicDictSearchResult`: an exception in a comparison, no entry, or the slot, its node, and the
-- entry with the copy of it that was read.
pub data SearchResult : Type 0 where
  error not_found : SearchResult
  found : (position : ℕ) → Node → (entry_p : ℕ) → Entry → SearchResult

-- What one round of the loop does with a slot.
pub data Verdict : Type 0 where
  stop next raise : Verdict
  hit : Entry → Verdict

-- The tests on an entry whose tag matches.
unfoldable pub compare_entry : Runtime → Object → ℕ → Entry → Verdict
compare_entry py key hash entry = elim entry.value [
  | none ↦ Verdict.next
  | some _ ↦ elim entry.key [
    | none ↦ Verdict.raise
    | some k ↦
        if k == key
        then Verdict.hit entry
        else if entry.hash == hash
        then elim (py.rich_eq k key) [
          | none ↦ Verdict.raise
          | some true ↦ Verdict.hit entry
          | some false ↦ Verdict.next
        ]
        else Verdict.next
  ]
]

unfoldable pub examine : Runtime → Meta → Object → ℕ → Node → Verdict
unfolding compare_entry
examine py m key hash node =
    if is_empty node
    then Verdict.stop
    else if is_tombstone node
    then Verdict.next
    else if check_tag py hash node m
    then compare_entry py key hash (read_entry (get_entry_at node.index m))
    else Verdict.next

module _ (py : Runtime) (m : Meta) (key : Object) (hash : ℕ) where
  -- The loop of `lookup` from `distance` on, with the rounds that are left.
  unfoldable pub lookup_loop : ℕ → ℕ → SearchResult
  lookup_loop zero distance = SearchResult.not_found
  lookup_loop (suc rounds) distance =
      let d0 = distance0_of py hash m in
      let node = read_node_at (d0 + distance) m in
      elim (examine py m key hash node) [
        | stop ↦ SearchResult.not_found
        | next ↦ lookup_loop rounds (distance + 1)
        | raise ↦ SearchResult.error
        | hit entry ↦
            SearchResult.found (bit_and (d0 + distance) (2 ^ m.log_size - 1)) node node.index entry
      ]

  unfoldable pub lookup : SearchResult
  unfolding lookup_loop
  lookup = lookup_loop (size_of m) 0
