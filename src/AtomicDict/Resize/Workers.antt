-- ===== src/AtomicDict/Resize/Workers.antt =====
-- `migrate_nodes` by any number of threads (resize.c): each takes blocks from a shared counter and
-- migrates them. A block is one step; what two blocks touch in the new index is disjoint but for
-- slots that both leave empty.
use cereggii.Common.{ℕ, zero, suc, ◌+◌, ◌≡◌, ◌≢◌, ltb, if◌then◌else◌, update, Option, none, some}
use cereggii.AtomicDict.Runtime.{Runtime, Meta, size_of}
use cereggii.AtomicDict.Resize.{block_wise_migrate, blockwise_migrate_size}

-- Where a thread is in `common_resize`: its participant is 0 while it waits, 2 once `migrate_nodes` has
-- returned, and 1 between, before the next block is taken or with one in hand.
pub data Worker : Type 0 where
  waiting : Worker
  ready : (migrated_count : ℕ) → Worker
  holding : (node_to_migrate migrated_count : ℕ) → Worker
  returned : (migrated_count : ℕ) → Worker

-- What the threads share.
pub record Migration : Type 0 where
  pub new_meta : Meta
  pub node_to_migrate : ℕ
  pub workers : ℕ → Worker

-- What the loop does with the block that it took.
abbrev pub taken : Meta → ℕ → ℕ → Worker
taken m node_to_migrate count =
    if ltb node_to_migrate (size_of m)
    then Worker.holding node_to_migrate count
    else Worker.returned count

pub data Step (py : Runtime) (m : Meta) : Migration → Migration → Type 0 where
  enter :
      (s : Migration) (t : ℕ)
      → s.workers t ≡ Worker.waiting
      → Step py m s (record s { workers = update s.workers t (Worker.ready 0) })
  fetch_add :
      (s : Migration) (t count : ℕ)
      → s.workers t ≡ Worker.ready count
      → Step py m s (record s {
        node_to_migrate = s.node_to_migrate + blockwise_migrate_size;
        workers = update s.workers t (taken m s.node_to_migrate count);
      })
  migrate :
      (s : Migration) (t block count migrated : ℕ) (new_meta : Meta)
      → s.workers t ≡ Worker.holding block count
      → block_wise_migrate py m s.new_meta block ≡ some (new_meta, migrated)
      → Step py m s (record s {
        new_meta = new_meta;
        workers = update s.workers t (Worker.ready (count + migrated));
      })

pub data Reaches (py : Runtime) (m : Meta) (s : Migration) : Migration → Type 0 where
  here : Reaches py m s s
  next : {t u : Migration} → Reaches py m s t → Step py m t u → Reaches py m s u

-- A resize before any thread has entered: `node_to_migrate` is 0.
abbrev pub start : Meta → Migration
start new_meta = record { new_meta = new_meta; node_to_migrate = 0; workers = λ _. Worker.waiting }

-- `nodes_migration_done`, asked by a thread that has returned: no participant is 1.
pub record IsDone (s : Migration) : Type 0 where
  pub asker : ℕ
  pub its_count : ℕ
  pub has_returned : s.workers asker ≡ Worker.returned its_count
  pub no_reader : (t count : ℕ) → s.workers t ≢ Worker.ready count
  pub no_holder : (t block count : ℕ) → s.workers t ≢ Worker.holding block count

-- `migrate_nodes` by one thread alone, from a value of the counter on; with the counter at the end.
unfoldable pub migrate_nodes : Runtime → Meta → ℕ → ℕ → Meta → ℕ → Option (ℕ × Meta × ℕ)
migrate_nodes py m zero node_to_migrate new_meta count = none
migrate_nodes py m (suc fuel) node_to_migrate new_meta count =
    let rest =
      elim (block_wise_migrate py m new_meta node_to_migrate) as (λ _. Option (ℕ × Meta × ℕ)) [
        | none ↦ none
        | some (moved, migrated) ↦
            migrate_nodes py m fuel (node_to_migrate + blockwise_migrate_size) moved
              (count + migrated)
      ] in
    if ltb node_to_migrate (size_of m)
    then rest
    else some (node_to_migrate + blockwise_migrate_size, new_meta, count)
