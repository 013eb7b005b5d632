-- ===== src/AtomicDict/Resize/Leader.antt =====
-- Who resizes: `resize`, `leader_resize`, `follower_resize` and `common_resize` of
-- src/cereggii/atomic_dict/resize.c, access by access, for any number of threads on one generation of the
-- table. An event is a flag that is set once; a wait goes on where it is set. The work of
-- `migrate_nodes` is one step here. The asserted swaps of a participant and of the metadata succeed.
pub mod Invariant
pub mod Accesses
pub mod Correct
use cereggii.Common.{ℕ, suc, Bool, true, false, ◌≡◌, ◌≢◌, update}

-- Where a thread is. The flag tells the leader.
pub data Phase : Type 0 where
  -- In `resize`: before the load of the leader, and before the swap.
  calling electing : Phase
  -- In `leader_resize`: at work on the new table, with it published, and with the old one replaced.
  leading published replaced : Phase
  -- The leader failed: before each of the three events, and after them.
  failing_done failing_migration failing_ready failed : Phase
  -- In `follower_resize`, before the first wait.
  following : Phase
  -- In `common_resize`: at its beginning, after the test, in `migrate_nodes`, after it, and at the end.
  entering tested migrating waiting left : Bool → Phase
  returned : Phase

pub record Resize : Type 0 where
  pub resize_leader : ℕ
  pub new_gen_metadata : Bool
  pub new_metadata_ready : Bool
  pub node_migration_done : Bool
  pub is_replaced : Bool
  pub resize_done : Bool
  pub threads : ℕ → Phase

abbrev pub moves : ℕ → Phase → Resize → Resize
moves t phase s = record s { threads = update s.threads t phase }

-- The number of thread `t` is `suc t`, which is not 0.
pub data ResizeAccess : Resize → Resize → Type 0 where
  load_none :
      (s : Resize) (t : ℕ)
      → s.threads t ≡ Phase.calling
      → s.resize_leader ≡ 0
      → ResizeAccess s (moves t Phase.electing s)
  load_leader :
      (s : Resize) (t : ℕ)
      → s.threads t ≡ Phase.calling
      → s.resize_leader ≢ 0
      → ResizeAccess s (moves t Phase.following s)
  win :
      (s : Resize) (t : ℕ)
      → s.threads t ≡ Phase.electing
      → s.resize_leader ≡ 0
      → ResizeAccess s (moves t Phase.leading (record s { resize_leader = suc t }))
  lose :
      (s : Resize) (t : ℕ)
      → s.threads t ≡ Phase.electing
      → s.resize_leader ≢ 0
      → ResizeAccess s (moves t Phase.following s)
  publish :
      (s : Resize) (t : ℕ)
      → s.threads t ≡ Phase.leading
      → ResizeAccess s (moves t Phase.published (record s { new_gen_metadata = true }))
  announce :
      (s : Resize) (t : ℕ)
      → s.threads t ≡ Phase.published
      → ResizeAccess s (moves t (Phase.entering true) (record s { new_metadata_ready = true }))
  give_up :
      (s : Resize) (t : ℕ)
      → s.threads t ≡ Phase.leading
      → ResizeAccess s (moves t Phase.failing_done s)
  fail_done :
      (s : Resize) (t : ℕ)
      → s.threads t ≡ Phase.failing_done
      → ResizeAccess s (moves t Phase.failing_migration (record s { resize_done = true }))
  fail_migration :
      (s : Resize) (t : ℕ)
      → s.threads t ≡ Phase.failing_migration
      → ResizeAccess s (moves t Phase.failing_ready (record s { node_migration_done = true }))
  fail_ready :
      (s : Resize) (t : ℕ)
      → s.threads t ≡ Phase.failing_ready
      → ResizeAccess s (moves t Phase.failed (record s { new_metadata_ready = true }))
  wake :
      (s : Resize) (t : ℕ)
      → s.threads t ≡ Phase.following
      → s.new_metadata_ready ≡ true
      → ResizeAccess s (moves t (Phase.entering false) s)
  skip :
      (s : Resize) (t : ℕ) (leads : Bool)
      → s.threads t ≡ Phase.entering leads
      → s.node_migration_done ≡ true
      → ResizeAccess s (moves t (Phase.left leads) s)
  test :
      (s : Resize) (t : ℕ) (leads : Bool)
      → s.threads t ≡ Phase.entering leads
      → s.node_migration_done ≡ false
      → ResizeAccess s (moves t (Phase.tested leads) s)
  enter :
      (s : Resize) (t : ℕ) (leads : Bool)
      → s.threads t ≡ Phase.tested leads
      → ResizeAccess s (moves t (Phase.migrating leads) s)
  leave :
      (s : Resize) (t : ℕ) (leads : Bool)
      → s.threads t ≡ Phase.migrating leads
      → ResizeAccess s (moves t (Phase.waiting leads) s)
  complete :
      (s : Resize) (t : ℕ) (leads : Bool)
      → s.threads t ≡ Phase.waiting leads
      → ((u : ℕ) (other : Bool) → s.threads u ≢ Phase.migrating other)
      → ResizeAccess s (record s { node_migration_done = true })
  pass :
      (s : Resize) (t : ℕ) (leads : Bool)
      → s.threads t ≡ Phase.waiting leads
      → s.node_migration_done ≡ true
      → ResizeAccess s (moves t (Phase.left leads) s)
  replace :
      (s : Resize) (t : ℕ)
      → s.threads t ≡ Phase.left true
      → ResizeAccess s (moves t Phase.replaced (record s { is_replaced = true }))
  finish :
      (s : Resize) (t : ℕ)
      → s.threads t ≡ Phase.replaced
      → ResizeAccess s (moves t Phase.returned (record s { resize_done = true }))
  follow :
      (s : Resize) (t : ℕ)
      → s.threads t ≡ Phase.left false
      → s.resize_done ≡ true
      → ResizeAccess s (moves t Phase.returned s)

-- A generation on which no resize was asked for.
abbrev pub untouched : Resize
untouched = record {
  resize_leader = 0;
  new_gen_metadata = false;
  new_metadata_ready = false;
  node_migration_done = false;
  is_replaced = false;
  resize_done = false;
  threads = λ _. Phase.calling;
}

pub data Comes : Resize → Type 0 where
  start : Comes untouched
  then : {s s' : Resize} → Comes s → ResizeAccess s s' → Comes s'
