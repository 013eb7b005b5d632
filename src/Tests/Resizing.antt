-- ===== src/Tests/Resizing.antt =====
-- The index of one key moves to one of twice the size, whose memory was not cleared.
use cereggii.Common.{
  ℕ, ◌+◌, ◌≡◌, refl, sym, ap, ◌∙◌, arith, some, none, Option, ◌==◌, update, false, ◌≢◌, ◌⊎◌, inl,
  inr, ◌^◌,
}
use native.Mathlib.Decide.{ℕ_discrete}
use cereggii.AtomicDict.Runtime.{Meta, size_of}
use cereggii.AtomicDict.Node.{
  parse_node_from_raw, read_node_at, read_raw_node_at, write_node_at, distance0_of, rehash,
  check_tag, compute_raw_node,
}
use cereggii.AtomicDict.Insert.{unsafe_insert}
use cereggii.AtomicDict.Pages.{get_entry_at, fill_entry, page_of, position_in_page_of, read_entry}
use cereggii.AtomicDict.Index.Writes.{value_of}
use cereggii.AtomicDict.Lookup.{lookup, lookup_loop, examine}
use cereggii.AtomicDict.Resize.{
  block_wise_migrate, migrate_slot, initialize_in_new_meta, migrate_node, migrate_node_d0,
  migrate_loop,
}
use cereggii.AtomicDict.Resize.Segment.{IsMigration}
use cereggii.AtomicDict.Resize.Block.{IsFreeAt}
use cereggii.AtomicDict.Resize.Workers.{
  Worker, Migration, Step, Reaches, IsDone, start, taken, migrate_nodes,
}
use cereggii.AtomicDict.Resize.Correct.{IsMoved, Reaches-Moved}
use cereggii.AtomicDict.Resize.Alone.{block_wise_migrate-Returns, migrate_nodes-Moves}
use cereggii.Tests.Dict.{toy, toy-IsLawful, linked, linked_well}

abbrev larger : Meta
larger = record linked { log_size = 8; index = λ _. 77 }

linked_size : linked.log_size ≡ 7
unfolding unsafe_insert fill_entry read_node_at parse_node_from_raw read_raw_node_at write_node_at
linked_size = refl

slots : size_of linked ≡ 128
slots = ap (λ (k : ℕ). 2 ^ k) linked_size

linked-IsMigration : IsMigration toy linked larger
unfolding get_entry_at
linked-IsMigration = record {
  good = linked_well.0;
  grown = omega (arith, linked_size);
  small = omega (arith, linked_size);
  entries = λ q live. refl;
}

first_free : IsFreeAt linked 0
unfolding unsafe_insert fill_entry read_node_at parse_node_from_raw read_raw_node_at write_node_at
    distance0_of rehash
first_free = refl

migrate_nodes-Moves_example :
    (n : ℕ) × (new : Meta) × (count : ℕ) × (migrate_nodes toy linked 2 0 larger 0
      ≡ some (n, new, count))
    × IsMoved toy linked larger new
migrate_nodes-Moves_example =
    migrate_nodes-Moves toy linked larger 0 2 toy-IsLawful linked-IsMigration (omega (arith, slots))
      first_free (omega (arith, slots))

abbrev table_of : Option (Meta × ℕ) → Meta
table_of none = larger
table_of (some (m, n)) = m

abbrev count_of : Option (Meta × ℕ) → ℕ
count_of none = 0
count_of (some (m, n)) = n

abbrev moved : Option (Meta × ℕ)
moved = block_wise_migrate toy linked larger 0

moved_lem : moved ≡ some (table_of moved, count_of moved)
moved_lem =
    let (new, n, e) =
      block_wise_migrate-Returns toy toy-IsLawful linked larger linked-IsMigration larger.index 0
        (omega (arith, slots)) in
    rw e refl

-- Two threads: one takes the one block and the other finds none left.
abbrev two_entered : ℕ → Worker
two_entered = update (update (λ _. Worker.waiting) 0 (Worker.ready 0)) 1 (Worker.ready 0)

abbrev moved_by_two : Migration
moved_by_two = record {
  new_meta = table_of moved;
  node_to_migrate = 12288;
  workers =
      update
        (update (update (update two_entered 0 (taken linked 0 0)) 1 (taken linked 4096 0)) 0
          (Worker.ready (0 + count_of moved)))
        0 (taken linked 8192 (0 + count_of moved));
}

by_two : Reaches toy linked (start larger) moved_by_two
unfolding unsafe_insert fill_entry read_node_at parse_node_from_raw read_raw_node_at write_node_at
by_two =
    Reaches.next
      (Reaches.next
        (Reaches.next
          (Reaches.next
            (Reaches.next (Reaches.next Reaches.here (Step.enter _ 0 refl)) (Step.enter _ 1 refl))
            (Step.fetch_add _ 0 0 refl))
          (Step.fetch_add _ 1 0 refl))
        (Step.migrate _ 0 0 0 (count_of moved) (table_of moved) refl moved_lem))
      (Step.fetch_add _ 0 (0 + count_of moved) refl)

taken_first : taken linked 0 0 ≡ Worker.holding 0 0
unfolding unsafe_insert fill_entry read_node_at parse_node_from_raw read_raw_node_at write_node_at
taken_first = refl

worker_0 : moved_by_two.workers 0 ≡ Worker.returned (0 + count_of moved)
unfolding unsafe_insert fill_entry read_node_at parse_node_from_raw read_raw_node_at write_node_at
worker_0 = refl

worker_1 : moved_by_two.workers 1 ≡ Worker.returned 0
unfolding unsafe_insert fill_entry read_node_at parse_node_from_raw read_raw_node_at write_node_at
worker_1 = refl

no_other : (t : ℕ) → t ≢ 0 → t ≢ 1 → moved_by_two.workers t ≡ Worker.waiting
no_other t ne ne' =
    let a : (0 == t) ≡ false = ground arith in
    let b : (1 == t) ≡ false = ground arith in rw (a, b) refl

idle :
    (t : ℕ) (worker : Worker)
    → moved_by_two.workers t ≡ worker
    → (worker ≡ Worker.waiting) ⊎ ((n : ℕ) × (worker ≡ Worker.returned n))
idle t worker is = elim (ℕ_discrete t 0) [
  | yes e ↦ inr (0 + count_of moved, sym is ∙ ap moved_by_two.workers e ∙ worker_0)
  | no ne ↦ elim (ℕ_discrete t 1) [
    | yes e ↦ inr (0, sym is ∙ ap moved_by_two.workers e ∙ worker_1)
    | no ne' ↦ inl (sym is ∙ no_other t ne ne')
  ]
]

two-IsDone : IsDone moved_by_two
two-IsDone = record {
  asker = 1;
  its_count = 0;
  has_returned = worker_1;
  no_reader = λ t count e. elim (idle t _ e) [ inl w ↦ cc w | inr (n, r) ↦ cc r ];
  no_holder = λ t block count e. elim (idle t _ e) [ inl w ↦ cc w | inr (n, r) ↦ cc r ];
}

Reaches-Moved_example : IsMoved toy linked larger (moved_by_two.new_meta)
Reaches-Moved_example =
    Reaches-Moved toy linked larger 0 moved_by_two toy-IsLawful linked-IsMigration
      (omega (arith, slots)) first_free by_two two-IsDone

-- The key is read from the new table.
read_after : value_of (lookup toy (table_of moved) 5 202515) ≡ some 50
unfolding lookup lookup_loop examine block_wise_migrate migrate_slot initialize_in_new_meta
    migrate_node migrate_node_d0 unsafe_insert fill_entry read_node_at parse_node_from_raw
    read_raw_node_at write_node_at distance0_of rehash check_tag compute_raw_node get_entry_at
    page_of position_in_page_of read_entry migrate_loop
read_after = refl
