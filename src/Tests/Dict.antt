-- ===== src/Tests/Dict.antt =====
-- A small index: one key is linked, found, replaced and deleted.
use cereggii.Common.{
  ℕ, ◌+◌, ◌*◌, ◌%◌, ◌^◌, ◌<◌, ◌==◌, Option, none, some, true, false, ◌≡◌, ◌⊎◌, refl, arith, min,
  bit_and, ◌↔◌,
}
use cereggii.Common.Int.{pos}
use mathlib.Core.Path.{subst}
use native.Mathlib.Nat.{mod-lt}
use cereggii.AtomicDict.Runtime.{Runtime, IsLawful, Entry, Node, Meta}
use cereggii.AtomicDict.Node.{
  tag_mask, rehash, distance0_of, check_tag, write_node_at, read_node_at, read_raw_node_at,
  parse_node_from_raw, compute_raw_node, is_empty, is_tombstone,
}
use cereggii.AtomicDict.Pages.{
  read_entry, set_value, get_entry_at, fill_entry, page_of, position_in_page_of,
}
use cereggii.AtomicDict.Index.{IsIndexed, IsLive, Holds, node_at, entry_at}
use cereggii.AtomicDict.Lookup.{SearchResult, lookup, lookup_loop, examine}
use cereggii.AtomicDict.Lookup.Correct.{lookup_correct}
use cereggii.AtomicDict.Insert.{
  insert_loop, visit, insert_node, update_value, expected_update_entry, Expected,
  expected_insert_or_update, unsafe_insert, unsafe_insert_loop,
}
use cereggii.AtomicDict.Insert.Rounds.{IsReserved, Contract, Succeeds}
use cereggii.AtomicDict.Insert.Correct.{expected_insert_or_update-Contract}
use cereggii.AtomicDict.Insert.Unsafe.{Links, unsafe_insert-Links}
use cereggii.AtomicDict.Delete.{Deletion, delete_}
use cereggii.AtomicDict.Delete.Correct.{Removes, delete_-Removes}
use cereggii.AtomicDict.Contents.{Reads, Wrote, table_after, insert-lookup, delete-lookup}
use cereggii.AtomicDict.Node.Encoding.{parse-compute, compute-parse}
use cereggii.AtomicDict.Node.Hashing.{tombstone, tombstone_iff}

abbrev pub toy : Runtime
toy = record {
  crc32 = λ acc word. (acc + word * 31) % 2 ^ 32;
  hash_of = λ x. some (x * 40503);
  rich_eq = λ a b. some (a == b);
  crc32_width = λ acc word. mod-lt _ (omega arith);
}

pub toy-IsLawful : IsLawful toy
toy-IsLawful = record {
  eq_decides = λ a b. ground arith;
  eq_refl = λ a. ground arith;
  eq_symm = λ a b h. ground arith;
  eq_trans = λ a b c h h'. ground arith;
  eq_hash = λ a b h. ground arith;
}

abbrev blank : Entry
blank = record { flags = 0; hash = 0; key = none; value = none }

abbrev empty_table : Meta
empty_table = record {
  log_size = 7;
  index = λ _. 0;
  pages = λ _ _. blank;
  greatest_allocated_page = pos 0;
}

-- The key 5 with the value 50 is in the reserved entry 1.
abbrev table : Meta
table = fill_entry 1 5 202515 50 empty_table

no_live : (p : ℕ) → IsLive table p → ⊥
unfolding is_empty parse_node_from_raw fill_entry
no_live p live = cc (live.filled)

zero_fits : 0 < 2 ^ 64
zero_fits = omega arith

table-IsIndexed : IsIndexed toy table
unfolding fill_entry
table-IsIndexed = record {
  small = omega arith;
  words = λ p lt. zero_fits;
  placed = λ p live. absurd (no_live p live);
  unique = λ p q k v v' h h'. absurd (no_live p h.live);
}

table-IsReserved : IsReserved toy table 5 50 202515 1
unfolding fill_entry get_entry_at page_of position_in_page_of
table-IsReserved = record {
  has_key = refl;
  has_hash = refl;
  has_value = refl;
  nonzero = λ e. omega arith;
  fits = omega arith;
  fresh = λ q live. absurd (no_live q live);
}

nothing_held : (v p : ℕ) → ¬ Holds toy table 5 v p
nothing_held v p h = no_live p h.live

-- The table after the key 5 is linked.
abbrev grown : Option Meta → Meta
grown none = table
grown (some m) = m

abbrev pub linked : Meta
linked = grown (unsafe_insert toy table 202515 1)

links : unsafe_insert toy table 202515 1 ≡ some linked
unfolding unsafe_insert unsafe_insert_loop fill_entry read_node_at parse_node_from_raw
    read_raw_node_at
links = refl

unsafe_insert-Links_example : Links toy table 5 50 202515 (unsafe_insert toy table 202515 1)
unsafe_insert-Links_example =
    unsafe_insert-Links toy toy-IsLawful table table-IsIndexed 5 202515 50 1 refl table-IsReserved
      nothing_held

expected_insert_or_update-Contract_example :
    Contract toy table 5 202515 Expected.not_found 50
      (expected_insert_or_update toy 5 202515 Expected.not_found 50 1 false table)
expected_insert_or_update-Contract_example =
    expected_insert_or_update-Contract toy toy-IsLawful table table-IsIndexed 5 202515 refl 50 1
      Expected.not_found (λ may. table-IsReserved)

pub linked_well : Succeeds toy table linked 5 50
linked_well = subst (Links toy table 5 50 202515) links (
    unsafe_insert-Links toy toy-IsLawful table table-IsIndexed 5 202515 50 1 refl table-IsReserved
      nothing_held)

lookup_correct_example :
    ((p : ℕ) × (value : ℕ) × Holds toy linked 5 value p
      × (lookup toy linked 5 202515
          ≡ SearchResult.found p (node_at linked p) (node_at linked p).index (entry_at linked p)))
    ⊎ (((value p : ℕ) → ¬ Holds toy linked 5 value p)
        × (lookup toy linked 5 202515 ≡ SearchResult.not_found))
lookup_correct_example = lookup_correct toy toy-IsLawful linked (linked_well.0) 5 202515 refl

delete_-Removes_example : Removes toy linked 5 (delete_ toy linked 5 202515)
delete_-Removes_example = delete_-Removes toy toy-IsLawful linked (linked_well.0) 5 202515 refl

abbrev left : Deletion → Meta
left (Deletion.deleted entry m) = m
left Deletion.error = table
left Deletion.not_found = table

deletes :
    delete_ toy linked 5 202515
    ≡ Deletion.deleted (get_entry_at 1 linked) (left (delete_ toy linked 5 202515))
unfolding delete_ lookup lookup_loop examine unsafe_insert unsafe_insert_loop fill_entry
    read_node_at parse_node_from_raw read_raw_node_at write_node_at distance0_of rehash
    compute_raw_node check_tag read_entry get_entry_at page_of position_in_page_of
deletes = refl

delete-lookup_example : Reads toy linked (left (delete_ toy linked 5 202515)) 5 none
delete-lookup_example =
    delete-lookup toy toy-IsLawful linked (linked_well.0) 5 202515 refl (get_entry_at 1 linked)
      (left (delete_ toy linked 5 202515)) deletes

replaces : Wrote (expected_insert_or_update toy 5 202515 (Expected.object 50) 51 1 false linked)
unfolding expected_insert_or_update insert_loop visit insert_node update_value expected_update_entry
    set_value unsafe_insert unsafe_insert_loop fill_entry read_node_at parse_node_from_raw
    read_raw_node_at write_node_at distance0_of rehash compute_raw_node check_tag read_entry
    get_entry_at page_of position_in_page_of
replaces = tt

insert-lookup_example :
    Reads toy linked
      (table_after linked
        (expected_insert_or_update toy 5 202515 (Expected.object 50) 51 1 false linked))
      5
      (some 51)
insert-lookup_example =
    insert-lookup toy toy-IsLawful linked (linked_well.0) 5 202515 refl (Expected.object 50) 51 1
      (λ may. absurd may) replaces

live : IsLive linked 27
unfolding fill_entry unsafe_insert unsafe_insert_loop read_node_at parse_node_from_raw
    read_raw_node_at write_node_at distance0_of rehash compute_raw_node
live = record { within = omega arith; filled = refl; kept = refl }

tombstone_iff_example :
    (is_tombstone (
        parse_node_from_raw (compute_raw_node (tombstone empty_table) empty_table).node empty_table)
      ≡ true)
    ↔ (empty_table.log_size < 56)
tombstone_iff_example = tombstone_iff empty_table (omega arith)

abbrev some_node : Node
some_node = record { node = 0; index = 77; tag = 512; distance = 300 }

parse-compute_example :
    let back = parse_node_from_raw (compute_raw_node some_node empty_table).node empty_table in
    (back.index ≡ 77)
    × (back.tag ≡ bit_and 512 (tag_mask empty_table))
    × (back.distance ≡ min 300 255)
parse-compute_example = parse-compute empty_table (omega arith) some_node (omega arith)

compute-parse_example :
    (compute_raw_node (parse_node_from_raw 987654321 empty_table) empty_table).node ≡ 987654321
compute-parse_example = compute-parse empty_table (omega arith) 987654321 (omega arith)
