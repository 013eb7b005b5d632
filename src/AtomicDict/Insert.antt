-- ===== src/AtomicDict/Insert.antt =====
-- Inserting into the index and updating entries: src/cereggii/atomic_dict/insert.c and
-- `unsafe_insert` of atomic_dict.c. One thread's steps, with no write by another between them.
pub mod Store
pub mod NewNode
pub mod Visit
pub mod Rounds
pub mod Correct
pub mod Unsafe
use cereggii.Common.{
  ℕ, zero, suc, ◌+◌, ◌-◌, ◌^◌, Bool, true, false, not, Option, none, some, ◌==◌, if◌then◌else◌,
  bit_and,
}
use cereggii.AtomicDict.Runtime.{Object, Runtime, Node, Meta, size_of}
use cereggii.AtomicDict.Node.{
  read_node_at, write_node_at, atomic_write_node_at, is_empty, is_tombstone, check_tag,
  distance0_of, rehash,
}
use cereggii.AtomicDict.Pages.{get_entry_at, read_entry, set_value}

-- `expected`: the constants NOT_FOUND and ANY, or an object.
pub data Expected : Type 0 where
  not_found any : Expected
  object : Object → Expected

-- How `expected_update_entry` ends: -1 on an exception, 0 where the entry has another key or no
-- value, and 1 with `expectation` 0, or with the value that it replaced.
pub data Update : Type 0 where
  raised skipped unexpected : Update
  replaced : (current : Object) → Meta → Update

-- The loop on an entry that has the key, in its one round.
unfoldable pub update_value : Meta → ℕ → Object → Expected → Object → Update
update_value m entry_ix value Expected.not_found desired = Update.unexpected
update_value m entry_ix value Expected.any desired =
    Update.replaced value (set_value entry_ix (some desired) m)
update_value m entry_ix value (Expected.object x) desired =
    if value == x
    then Update.replaced value (set_value entry_ix (some desired) m)
    else Update.unexpected

unfoldable pub expected_update_entry : Runtime → Meta → ℕ → Object → ℕ → Expected → Object → Update
expected_update_entry py m entry_ix key hash expected desired =
    let entry = read_entry (get_entry_at entry_ix m) in
    elim entry.value [
      | none ↦ Update.skipped
      | some value ↦ if not (hash == entry.hash) then Update.skipped else elim entry.key [
        | none ↦ Update.raised
        | some k ↦
            if k == key
            then update_value m entry_ix value expected desired
            else elim (py.rich_eq k key) [
              | none ↦ Update.raised
              | some false ↦ Update.skipped
              | some true ↦ update_value m entry_ix value expected desired
            ]
      ]
    ]

-- What `expected_insert_or_update` returns: NULL on an exception, NULL with `must_grow`,
-- EXPECTATION_FAILED, NOT_FOUND after an insertion, or the value that it replaced. `contended`
-- stands for a lost compare-and-swap of a node, after which the source reads the slot again.
pub data Insertion : Type 0 where
  raised must_grow unexpected contended : Insertion
  inserted : Meta → Insertion
  replaced : (current : Object) → Meta → Insertion

-- One round: it ends the loop, or goes on at the next distance.
pub data Round : Type 0 where
  next : Round
  done : Insertion → Round

module _ (py : Runtime) (key : Object) (hash : ℕ) (expected : Expected) (desired : Object) where
  -- An empty slot takes the new node, unless the call expects a value.
  unfoldable pub insert_node : ℕ → Meta → ℕ → ℕ → Node → Round
  insert_node location m ix distance node =
      let to_insert : Node = record {
        node = 0;
        index = location;
        tag = rehash py hash;
        distance = distance;
      } in
      let (ok, m') = atomic_write_node_at ix node to_insert m in
      let attempt =
        if ok then Round.done (Insertion.inserted m') else Round.done Insertion.contended in
      elim expected [
        | object _ ↦ Round.done Insertion.unexpected
        | not_found ↦ attempt
        | any ↦ attempt
      ]

  unfoldable pub visit : ℕ → Bool → Meta → ℕ → ℕ → Node → Round
  unfolding insert_node
  visit location skip_entry_check m ix distance node =
      if is_empty node
      then insert_node location m ix distance node
      else if is_tombstone node
      then Round.next
      else if not (check_tag py hash node m)
      then Round.next
      else if skip_entry_check
      then Round.next
      else elim (expected_update_entry py m node.index key hash expected desired) [
        | raised ↦ Round.done Insertion.raised
        | skipped ↦ Round.next
        | unexpected ↦ Round.done Insertion.unexpected
        | replaced current m' ↦ Round.done (Insertion.replaced current m')
      ]

  module _ (location : ℕ) (skip_entry_check : Bool) (m : Meta) where
    -- The loop from `distance` on, with the rounds that are left before it must grow.
    unfoldable pub insert_loop : ℕ → ℕ → Insertion
    insert_loop zero distance = Insertion.must_grow
    insert_loop (suc rounds) distance =
        let ix = bit_and (distance0_of py hash m + distance) (2 ^ m.log_size - 1) in
        elim (visit location skip_entry_check m ix distance (read_node_at ix m)) [
          | next ↦ insert_loop rounds (distance + 1)
          | done result ↦ result
        ]

    unfoldable pub expected_insert_or_update : Insertion
    unfolding insert_loop
    expected_insert_or_update = insert_loop (size_of m) 0

-- The loop of `unsafe_insert` (atomic_dict.c) from `distance` on; `none` is -1, a full index.
module _ (py : Runtime) (m : Meta) (hash pos : ℕ) where
  unfoldable pub unsafe_insert_loop : ℕ → ℕ → Option Meta
  unsafe_insert_loop zero distance = none
  unsafe_insert_loop (suc rounds) distance =
      let ix = distance0_of py hash m + distance in
      let node : Node = record {
        node = 0;
        index = pos;
        tag = rehash py hash;
        distance = distance;
      } in
      let rest = unsafe_insert_loop rounds (distance + 1) in
      if (read_node_at ix m).node == 0
      then some (write_node_at (bit_and ix (size_of m - 1)) node m)
      else rest

  unfoldable pub unsafe_insert : Option Meta
  unfolding unsafe_insert_loop
  unsafe_insert = unsafe_insert_loop (size_of m) 0
