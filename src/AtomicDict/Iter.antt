-- ===== src/AtomicDict/Iter.antt =====
-- Iteration over the entries (src/cereggii/atomic_dict/iter.c), with no writer meanwhile. A reference
-- that was just read is alive.
pub mod Pages
pub mod Positions
pub mod Items
pub mod Correct
use cereggii.Common.{
  ℕ, zero, suc, ◌+◌, ◌-◌, ◌*◌, ◌%◌, ◌^◌, bit_and, Option, none, some, true, false, List, [], ◌∷◌,
  if◌then◌else◌, ◌==◌, ltb,
}
use cereggii.Common.Int.{ℤ, pos, negsuc, pos_part, leb_ℤ, ltb_ℤ}
use cereggii.AtomicDict.Runtime.{Object, Entry, Meta}
use cereggii.AtomicDict.Pages.{entries_in_page, page_of, get_entry_at, read_entry}

-- `n * ATOMIC_DICT_ENTRIES_IN_PAGE` in C's `int`, made a 64-bit position. An overflow is undefined in C; here it
-- wraps, as processors do.
unfoldable pub entries_of : ℕ → ℕ
entries_of n =
    let product = n * entries_in_page % 2 ^ 32 in
    if ltb product (2 ^ 31) then product else product + (2 ^ 64 - 2 ^ 32)

-- `AtomicDictFastIterator`, on the table of its creation.
pub record FastIterator : Type 0 where
  pub position : ℕ
  pub partitions : ℕ

-- The two ValueErrors, or an iterator.
pub data Iteration : Type 0 where
  partitions_not_positive not_in_range : Iteration
  iterator : FastIterator → Iteration

unfoldable pub fast_iter : ℤ → ℤ → Iteration
fast_iter partitions this_partition =
    if leb_ℤ partitions (pos 0)
    then Iteration.partitions_not_positive
    else if ltb_ℤ this_partition (pos 0)
    then Iteration.not_in_range
    else if leb_ℤ partitions this_partition
    then Iteration.not_in_range
    else Iteration.iterator (record {
      position = entries_of (pos_part this_partition);
      partitions = pos_part partitions;
    })

-- How `next` ends: StopIteration, an item, or ConcurrentUsageDetected; with the new position.
pub data Next : Type 0 where
  stop : Next
  item : (key value : Object) → ℕ → Next
  concurrent_usage_detected : ℕ → Next

-- After the last entry of a page comes the next page of the partition.
unfoldable pub next_position : ℕ → ℕ → ℕ
next_position partitions position =
    if bit_and (position + 1) (entries_in_page - 1) == 0
    then (bit_and position (2 ^ 64 - entries_in_page) + entries_of partitions) % 2 ^ 64
    else position + 1

module _ (m : Meta) (partitions : ℕ) where
  abbrev pub item_at : Option Object → Option Object → ℕ → Next → Next
  item_at none key position rest = rest
  item_at (some value) none position rest = Next.concurrent_usage_detected position
  item_at (some value) (some key) position rest = Next.item key value position

  unfoldable pub next_loop : ℕ → ℕ → ℕ → Next
  next_loop gap zero position = Next.stop
  next_loop gap (suc rounds) position =
      let rest = next_loop gap rounds (next_position partitions position) in
      let entry = read_entry (get_entry_at position m) in
      if ltb gap (page_of position)
      then Next.stop
      else item_at entry.value entry.key (next_position partitions position) rest

  -- An entry of the allocated pages is looked at in each round, at increasing positions.
  unfoldable pub next : ℕ → Next
  next position = elim m.greatest_allocated_page [
    | negsuc _ ↦ Next.stop
    | pos gap ↦ next_loop gap ((gap + 1) * entries_in_page) position
  ]

  -- `for key, value in d.fast_iter(...)`: the items up to StopIteration, or none where a
  -- ConcurrentUsageDetected ends the loop.
  unfoldable pub drain : ℕ → ℕ → Option (List (Object × Object))
  drain zero position = none
  drain (suc calls) position = elim (next position) [
    | stop ↦ some []
    | concurrent_usage_detected _ ↦ none
    | item key value position' ↦ elim (drain calls position') [
      | none ↦ none
      | some rest ↦ some ((key, value) ∷ rest)
    ]
  ]
