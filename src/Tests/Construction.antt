-- ===== src/Tests/Construction.antt =====
-- A new dictionary of 256 slots and groups of 4 entries.
use cereggii.Common.{
  ℕ, ◌+◌, ◌*◌, ◌%◌, ◌<◌, arith, true, List, [], ◌∷◌, ◌≡◌, refl, none, some, ◌==◌, ◌&&◌,
  if◌then◌else◌, Bool-cases, inl, inr,
}
use cereggii.Common.Int.{pos, negsuc}
use cereggii.AtomicDict.Accessor.{Dictionary}
use cereggii.AtomicDict.Reservation.{get_empty_entry}
use cereggii.AtomicDict.Reservation.Invariant.{IsSound}
use cereggii.AtomicDict.Reservation.Grant.{Granted}
use cereggii.AtomicDict.Reservation.Correct.{get_empty_entry-Granted}
use cereggii.AtomicDict.Init.{init_empty, init}
use cereggii.AtomicDict.Init.Empty.{init_empty-IsSound}
use cereggii.AtomicDict.Init.Correct.{Starts, init-Starts}
use cereggii.AtomicDict.Insert.{Expected}
use cereggii.AtomicDict.CompareAndSet.{set_expected}
use cereggii.AtomicDict.CompareAndSet.Contract.{Compares}
use cereggii.AtomicDict.CompareAndSet.Correct.{set_expected-Compares}
use cereggii.AtomicDict.Length.{Lengths, total}
use cereggii.AtomicDict.Length.Correct.{Event, new_storage, answers, counted, answers-counted}
use cereggii.AtomicDict.Sequence.{Command, run}
use cereggii.AtomicDict.Sequence.Expectations.{AllHashed}
use cereggii.AtomicDict.Sequence.Runs.{
  Agrees, AsksAlong, empty_map, run-Agrees, init_empty-IsRelated,
}
use cereggii.AtomicDict.Runtime.{Meta}
use cereggii.AtomicDict.Pages.{fill_entry, get_entry_at, page_of, position_in_page_of, read_entry}
use cereggii.AtomicDict.Iter.{fast_iter}
use cereggii.AtomicDict.Iter.Correct.{IsKeyed, Iterates, fast_iter-Iterates}
use cereggii.AtomicDict.Flush.{flush_one, reduce_flush}
use cereggii.AtomicDict.Flush.Single.{Combines, combined, aggregate_of, flush_one-Combines}
use cereggii.AtomicDict.Flush.Correct.{CombinesAll, reduce_flush-CombinesAll}
use cereggii.Tests.Dict.{toy, toy-IsLawful, linked}
use cereggii.AtomicDict.Lookup.{lookup, lookup_loop, examine, compare_entry}
use cereggii.AtomicDict.Insert.{unsafe_insert, unsafe_insert_loop}
use cereggii.AtomicDict.Node.{
  parse_node_from_raw, read_node_at, read_raw_node_at, write_node_at, distance0_of, rehash,
  check_tag, compute_raw_node,
}
use cereggii.AtomicDict.Batch.{
  Item, Chunk, Batch, length, next_chunk, look_up_chunk, chunks, batch_get_item,
}

abbrev pub created : Dictionary
created = init_empty 8 4

pub created-IsSound : IsSound toy created
created-IsSound = (init_empty-IsSound toy 8 (omega arith) (omega arith) 2 (omega arith)).0

get_empty_entry-Granted_example : Granted toy created (get_empty_entry 77 created)
get_empty_entry-Granted_example = get_empty_entry-Granted toy created created-IsSound 77

init-Starts_example : Starts toy (pos 200) (pos 4) (init (pos 200) (pos 4))
init-Starts_example = init-Starts toy (pos 200) (pos 4) (omega arith)

set_expected-Compares_example :
    Compares toy created 5 Expected.any 50 (set_expected toy created 5 202515 50 Expected.any)
set_expected-Compares_example =
    set_expected-Compares toy toy-IsLawful created created-IsSound 5 202515 refl 50 Expected.any

abbrev calls : List Command
calls =
    Command.set 5 50
    ∷ Command.get 5
    ∷ Command.compare 5 (Expected.object 50) 51
    ∷ Command.compare 7 Expected.not_found 70
    ∷ Command.delete 5
    ∷ Command.get_or 5 9
    ∷ Command.len
    ∷ []

hashed_calls : AllHashed toy calls
hashed_calls =
    ((_, refl), ((_, refl), ((_, refl), ((_, refl), ((_, refl), ((_, refl), (tt, tt)))))))

run-Agrees_example :
    Agrees toy calls empty_map (run toy 99 calls created) × AsksAlong toy 99 calls created
run-Agrees_example =
    run-Agrees toy 99 toy-IsLawful calls created empty_map hashed_calls
      (init_empty-IsRelated toy 8 (omega arith) (omega arith) 2 (omega arith))

abbrev two_accessors : Lengths
two_accessors = record {
  len = pos 3;
  len_dirty = true;
  accessors =
      record new_storage { local_len = pos 2 } ∷ record new_storage { local_len = negsuc 0 } ∷ [];
}

abbrev changes_and_questions : List Event
changes_and_questions =
    Event.ask ∷ Event.join ∷ Event.inc 2 (pos 1) ∷ Event.inc 0 (negsuc 0) ∷ Event.ask ∷ []

answers-counted_example :
    answers changes_and_questions two_accessors
    ≡ counted changes_and_questions (total two_accessors)
answers-counted_example =
    answers-counted changes_and_questions two_accessors (λ clean. absurd (cc clean))
      (omega arith, (omega arith, tt))

-- A page with one item, and an empty one.
abbrev two_pages : Meta
two_pages = record {
  log_size = 8;
  index = λ _. 0;
  pages = λ page position.
      if page == 0 && position == 3
      then record { flags = 0; hash = 202515; key = some 5; value = some 50 }
      else record { flags = 0; hash = 0; key = none; value = none };
  greatest_allocated_page = pos 1;
}

two_pages-IsKeyed : IsKeyed two_pages 1
unfolding get_entry_at
two_pages-IsKeyed l value page has =
    elim (Bool-cases (page_of l == 0 && position_in_page_of l == 3)) [
      | inl there ↦ (5, rw there refl)
      | inr elsewhere ↦ absurd (cc (rw elsewhere at has))
    ]

fast_iter-Iterates_example : Iterates two_pages 1 (pos 2) (pos 0) (fast_iter (pos 2) (pos 0))
fast_iter-Iterates_example =
    fast_iter-Iterates two_pages 1 refl (omega arith) two_pages-IsKeyed (pos 2) (pos 0) refl

-- A reduction by sums of the keys 5, 7 and 9.
abbrev sums : ℕ → ℕ → ℕ → ℕ
sums key current new = current + new

abbrev totals : ℕ → ℕ × ℕ
totals i = (2 * i + 5, 10 * i)

flush_one-Combines_example :
    Combines toy empty_map
      (combined toy sums 5 11 empty_map)
      (flush_one toy (aggregate_of sums) 5 11 created)
flush_one-Combines_example =
    flush_one-Combines toy toy-IsLawful sums 99 created empty_map
      (init_empty-IsRelated toy 8 (omega arith) (omega arith) 2 (omega arith)) 5 202515 refl 11

reduce_flush-CombinesAll_example :
    CombinesAll toy sums totals 3 1 3 0 empty_map
      (reduce_flush toy (aggregate_of sums) totals 3 1 created)
    × ((i j : ℕ) → i < 3 → j < 3 → (1 + i) % 3 ≡ (1 + j) % 3 → i ≡ j)
reduce_flush-CombinesAll_example =
    reduce_flush-CombinesAll toy toy-IsLawful sums totals 3 1 (λ i lt. (_, refl)) created empty_map
      (init_empty-IsRelated toy 8 (omega arith) (omega arith) 2 (omega arith))

abbrev arrays : Chunk
arrays = record { hashes = λ _. 3; keys = λ _. 4; chunk_end = 5 }

-- A key of a table is found, and the next one is not.
batch_run :
    batch_get_item toy arrays (record created { metadata = linked }) (5 ∷ 7 ∷ []) (pos 1)
    ≡ Batch.filled ((5, Item.value 50) ∷ (7, Item.not_found) ∷ [])
unfolding batch_get_item chunks next_chunk look_up_chunk length lookup lookup_loop examine
    fill_entry read_node_at parse_node_from_raw read_raw_node_at distance0_of rehash check_tag
    compute_raw_node get_entry_at page_of position_in_page_of read_entry unsafe_insert
    unsafe_insert_loop write_node_at compare_entry
batch_run = refl
