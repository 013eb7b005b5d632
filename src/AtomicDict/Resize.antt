-- ===== src/AtomicDict/Resize.antt =====
-- Moving nodes into the index of the next generation: src/cereggii/atomic_dict/resize.c.
pub mod Distance
pub mod Target
pub mod Clear
pub mod Probe
pub mod Segment
pub mod Slots
pub mod Ranges
pub mod Block
pub mod Cover
pub mod Workers
pub mod Leader
pub mod Progress
pub mod Slot
pub mod Correct
pub mod Alone
use cereggii.Common.{
  ℕ, zero, suc, ◌+◌, ◌-◌, ◌*◌, ◌/◌, ◌%◌, ◌^◌, true, false, ◌&&◌, ◌||◌, Option, none, some, ltb, leb,
  ◌==◌, if◌then◌else◌, bit_and,
}
use cereggii.AtomicDict.Runtime.{Runtime, Node, Meta, size_of}
use cereggii.AtomicDict.Node.{
  node_size, distance0_of, read_raw_node_at, write_node_at, write_raw_node_at, read_node_at,
  is_empty, is_tombstone,
}
use cereggii.AtomicDict.Pages.{get_entry_at}

-- `ATOMIC_DICT_MAX_LOG_SIZE`.
abbrev pub max_log_size : ℕ
max_log_size = 56

-- The first slot in the new index, from the node alone where its distance is exact.
unfoldable pub migrate_node_d0 : Runtime → Node → ℕ → Meta → Meta → ℕ
migrate_node_d0 py node current_pos current_meta new_meta =
    if ltb node.distance 255
    then ((current_pos + 2 ^ 64 - node.distance) * 2 % 2 ^ 64
        + node.tag / 2 ^ (node_size - current_meta.log_size - 1))
      % 2 ^ 64
    else distance0_of py (get_entry_at node.index new_meta).hash new_meta

-- The loop of `migrate_node` from `distance` on: the node goes into the first empty slot.
module _ (node : Node) (d0 : ℕ) (new_meta : Meta) where
  unfoldable pub migrate_loop : ℕ → ℕ → Meta
  migrate_loop zero distance = new_meta
  migrate_loop (suc rounds) distance =
      let position = bit_and (d0 + distance) (size_of new_meta - 1) in
      let rest = migrate_loop rounds (distance + 1) in
      if read_raw_node_at position new_meta == 0
      then write_node_at position (record node { distance = distance }) new_meta
      else rest

unfoldable pub migrate_node : Runtime → Node → ℕ → Meta → Meta → Meta
unfolding migrate_loop
migrate_node py node current_pos current_meta new_meta =
    migrate_loop node (migrate_node_d0 py node current_pos current_meta new_meta) new_meta
      (size_of new_meta) 0

-- The loop of `initialize_in_new_meta` from `j` on, over the slots that are left.
clear_loop : ℕ → ℕ → Meta → Meta
clear_loop zero j m = m
clear_loop (suc rounds) j m =
    clear_loop rounds (j + 1) (write_raw_node_at (bit_and j (size_of m - 1)) 0 m)

-- `memset` of words of the index.
memset_index : ℕ → ℕ → Meta → Meta
memset_index start count m = record m {
  index = λ q. if leb start q && ltb q (start + count) then 0 else m.index q;
}

unfoldable pub initialize_in_new_meta : Meta → ℕ → ℕ → Meta
unfolding clear_loop memset_index
initialize_in_new_meta new_meta start end =
    let mapped_start = 2 * start in
    let mapped_end = 2 * (end + 1) in
    let mask = size_of new_meta - 1 in
    if (mapped_start == bit_and mapped_start mask) && (mapped_end == bit_and mapped_end mask)
    then memset_index mapped_start (mapped_end - mapped_start) new_meta
    else clear_loop (mapped_end - mapped_start) mapped_start new_meta

-- `ATOMIC_DICT_BLOCKWISE_MIGRATE_SIZE`.
abbrev pub blockwise_migrate_size : ℕ
blockwise_migrate_size = 4096

abbrev pub block_end : Meta → ℕ → ℕ
block_end m start_of_block =
    if ltb (size_of m) (start_of_block + blockwise_migrate_size)
    then size_of m
    else start_of_block + blockwise_migrate_size

-- The first empty slot from `i` on, or the end of the rounds.
unfoldable pub first_empty : Meta → ℕ → ℕ → ℕ
first_empty m zero i = i
first_empty m (suc rounds) i = if read_raw_node_at i m == 0 then i else first_empty m rounds (i + 1)

-- The loop without a bound that looks for an empty slot from `j` on; `none` if there is none.
unfoldable pub end_of_cluster : Meta → ℕ → ℕ → Option ℕ
end_of_cluster m zero j = none
end_of_cluster m (suc fuel) j =
    if is_empty (read_node_at j m) then some j else end_of_cluster m fuel (j + 1)

-- The loops work on the new table and the count of migrated nodes. The bounds of the cluster, which
-- only an assertion of a debug build reads, are left out.
module _ (py : Runtime) (m : Meta) where
  unfoldable pub migrate_slot : ℕ → Meta × ℕ → Meta × ℕ
  migrate_slot i (new_meta, migrated_count) =
      let node = read_node_at i m in
      if is_empty node || is_tombstone node
      then (new_meta, migrated_count)
      else (migrate_node py node i m new_meta, migrated_count + 1)

  unfoldable pub migrate_range : ℕ → ℕ → Meta × ℕ → Meta × ℕ
  migrate_range zero i s = s
  migrate_range (suc rounds) i s = migrate_range rounds (i + 1) (migrate_slot i s)

  unfoldable pub migrate_tail : ℕ → ℕ → Meta × ℕ → Option (Meta × ℕ)
  migrate_tail zero i s = none
  migrate_tail (suc fuel) i s =
      let rest = migrate_tail fuel (i + 1) (migrate_slot i s) in
      if is_empty (read_node_at i m) then some s else rest

  -- What follows the first loop, with the end of the cluster that crosses the end of the block.
  unfoldable pub migrate_last_cluster : ℕ → Option ℕ → Meta × ℕ → Option (Meta × ℕ)
  migrate_last_cluster end none s = none
  migrate_last_cluster end (some j) (new_meta, migrated_count) =
      if ltb end j
      then migrate_tail (size_of m) end
          (initialize_in_new_meta new_meta end (j - 1), migrated_count)
      else some (new_meta, migrated_count)

  -- `none` if a loop without a bound does not end.
  unfoldable pub block_wise_migrate : Meta → ℕ → Option (Meta × ℕ)
  unfolding first_empty end_of_cluster migrate_range migrate_tail migrate_last_cluster
  block_wise_migrate new_meta start_of_block =
      let end = block_end m start_of_block in
      let i = first_empty m (end - start_of_block) start_of_block in
      if leb end i
      then some (new_meta, 0)
      else migrate_last_cluster end (end_of_cluster m (size_of m) end)
          (migrate_range (end - i) i (initialize_in_new_meta new_meta i end, 0))
