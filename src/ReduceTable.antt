-- ===== src/ReduceTable.antt =====
-- The local table of a reduction (src/include/cereggii/internal/reduce_table.h): an index of
-- positions in an array of entries, probed linearly. Allocations succeed.
pub mod Round
pub mod Search
pub mod Roundtrip
use cereggii.Common.{
  ℕ, zero, suc, ◌+◌, ◌-◌, ◌*◌, ◌/◌, ◌^◌, bit_and, Option, none, some, true, false, if◌then◌else◌,
  ◌==◌, ltb, update,
}
use cereggii.AtomicDict.Runtime.{Object, Runtime}

pub record ReduceTableEntry : Type 0 where
  pub hash : ℕ
  pub key : Object
  pub expected : Object
  pub desired : Object

pub record ReduceTable : Type 0 where
  pub log_size : ℕ
  pub used : ℕ
  pub index : ℕ → ℕ
  pub entries : ℕ → ReduceTableEntry

abbrev pub reduce_table_size : ReduceTable → ℕ
reduce_table_size table = 2 ^ table.log_size

abbrev pub reduce_table_mask : ReduceTable → ℕ
reduce_table_mask table = reduce_table_size table - 1

-- `UINT64_MAX`.
abbrev pub empty_entry : ℕ
empty_entry = 2 ^ 64 - 1

unfoldable pub reduce_table_hash_to_index : ℕ → ReduceTable → ℕ
reduce_table_hash_to_index hash table = bit_and hash (reduce_table_mask table)

-- The array of entries is not initialized: its contents are a parameter.
unfoldable pub reduce_table_new : (ℕ → ReduceTableEntry) → ℕ → ReduceTable
reduce_table_new memory log_size = record {
  log_size = if ltb log_size 7 then 7 else log_size;
  used = 0;
  index = λ _. empty_entry;
  entries = memory;
}

-- The loops that look for an empty slot. Without one, where the source would not end, there is none.
unfoldable pub probe : (ℕ → ℕ) → ℕ → ℕ → ℕ → Option ℕ
probe index mask zero ix = none
probe index mask (suc rounds) ix =
    let rest = probe index mask rounds (bit_and (ix + 1) mask) in
    if index ix == empty_entry then some ix else rest

-- An entry goes after the others, and its position into an empty slot.
abbrev pub append : ReduceTable → ReduceTableEntry → ℕ → ReduceTable
append table entry ix = record table {
  used = table.used + 1;
  index = update table.index ix table.used;
  entries = update table.entries table.used entry;
}

unfoldable pub appended : ReduceTable → ReduceTableEntry → Option ReduceTable
appended table entry =
    elim (probe table.index (reduce_table_mask table) (reduce_table_size table)
      (reduce_table_hash_to_index entry.hash table)) [
        | none ↦ none
        | some ix ↦ some (append table entry ix)
      ]

-- The loop over the old entries from `i` on, into the new table.
pub rehash_entries : (ℕ → ReduceTableEntry) → ℕ → ℕ → ReduceTable → Option ReduceTable
rehash_entries old zero i table = some table
rehash_entries old (suc left) i table = elim (appended table (old i)) [
  | none ↦ none
  | some table' ↦ rehash_entries old left (i + 1) table'
]

unfoldable pub reduce_table_resize : ReduceTable → Option ReduceTable
unfolding rehash_entries
reduce_table_resize table = rehash_entries table.entries table.used 0 (record {
  log_size = table.log_size + 1;
  used = 0;
  index = λ _. empty_entry;
  entries = table.entries;
})

-- How an entry compares to a key.
pub data Match : Type 0 where
  hit differs raised : Match

unfoldable pub match_entry : Runtime → Object → ℕ → ReduceTableEntry → Match
match_entry py key hash entry =
    if entry.hash == hash
    then if entry.key == key then Match.hit else elim (py.rich_eq entry.key key) [
      | none ↦ Match.raised
      | some true ↦ Match.hit
      | some false ↦ Match.differs
    ]
    else Match.differs

-- NULL for a missing key and NULL with an exception are told apart.
pub data Position : Type 0 where
  entry_at : ℕ → Position
  missing failed : Position

module _ (py : Runtime) (table : ReduceTable) (key hash start_ix : ℕ) where
  unfoldable pub lookup_loop : ℕ → ℕ → Position
  lookup_loop zero ix = Position.missing
  lookup_loop (suc rounds) ix =
      let next_ix = bit_and (ix + 1) (reduce_table_mask table) in
      let rest = lookup_loop rounds next_ix in
      if table.index ix == empty_entry
      then Position.missing
      else elim (match_entry py key hash (table.entries (table.index ix))) [
        | hit ↦ Position.entry_at (table.index ix)
        | raised ↦ Position.failed
        | differs ↦ if next_ix == start_ix then Position.missing else rest
      ]

unfoldable pub reduce_table_lookup : Runtime → ReduceTable → Object → ℕ → Position
reduce_table_lookup py table key hash =
    let start_ix = reduce_table_hash_to_index hash table in
    lookup_loop py table key hash start_ix (reduce_table_size table) start_ix

-- The entry keeps its hash and its key.
abbrev pub with_values : ReduceTable → ℕ → Object → Object → ReduceTable
with_values table entry_ix expected desired = record table {
  entries =
      update table.entries entry_ix
        (record (table.entries entry_ix) { expected = expected; desired = desired });
}

-- After the resize. A lookup that failed counts as a missing key.
unfoldable pub set_resized :
    Runtime → Object → ℕ → Object → Object → ReduceTable → Option ReduceTable
set_resized py key hash expected desired table =
    let new_entry : ReduceTableEntry = record {
      hash = hash;
      key = key;
      expected = expected;
      desired = desired;
    } in
    elim (reduce_table_lookup py table key hash) [
      | entry_at entry_ix ↦ some (with_values table entry_ix expected desired)
      | missing ↦ appended table new_entry
      | failed ↦ appended table new_entry
    ]

unfoldable pub reduce_table_set :
    Runtime → ReduceTable → Object → ℕ → Object → Object → Option ReduceTable
reduce_table_set py table key hash expected desired =
    if ltb (reduce_table_size table * 2 / 3) table.used
    then elim (reduce_table_resize table) [
      | none ↦ none
      | some table' ↦ set_resized py key hash expected desired table'
    ]
    else set_resized py key hash expected desired table

-- The values of a key, nothing, or an exception.
pub data Values : Type 0 where
  values : (expected desired : Object) → Values
  no_values failed : Values

unfoldable pub reduce_table_get : Runtime → ReduceTable → Object → ℕ → Values
reduce_table_get py table key hash = elim (reduce_table_lookup py table key hash) [
  | entry_at entry_ix ↦
      Values.values ((table.entries entry_ix).expected) ((table.entries entry_ix).desired)
  | missing ↦ Values.no_values
  | failed ↦ Values.failed
]
