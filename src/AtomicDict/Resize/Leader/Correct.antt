-- ===== src/AtomicDict/Resize/Leader/Correct.antt =====
-- What holds while threads resize (src/cereggii/atomic_dict/resize.c).
use cereggii.Common.{ℕ, suc, Bool, true, false, ◌≡◌, ◌⊎◌, arith}
use cereggii.AtomicDict.Resize.Leader.{Phase, Resize, Comes}
use cereggii.AtomicDict.Resize.Leader.Invariant.{Leads, Relies, IsFailing}
use cereggii.AtomicDict.Resize.Leader.Accesses.{relied, Comes-IsCoordinated}

abbrev pub IsLeader : Phase → Type 0
IsLeader Phase.leading = Unit
IsLeader Phase.published = Unit
IsLeader Phase.replaced = Unit
IsLeader Phase.failing_done = Unit
IsLeader Phase.failing_migration = Unit
IsLeader Phase.failing_ready = Unit
IsLeader Phase.failed = Unit
IsLeader (Phase.entering leads) = leads ≡ true
IsLeader (Phase.tested leads) = leads ≡ true
IsLeader (Phase.migrating leads) = leads ≡ true
IsLeader (Phase.waiting leads) = leads ≡ true
IsLeader (Phase.left leads) = leads ≡ true
IsLeader Phase.calling = ⊥
IsLeader Phase.electing = ⊥
IsLeader Phase.following = ⊥
IsLeader Phase.returned = ⊥

module _ (s : Resize) (t : ℕ) where
  Leads-true : (leads : Bool) → leads ≡ true → Leads leads s t → s.resize_leader ≡ suc t
  Leads-true true is l = l
  Leads-true false is l = cc is

  IsLeader-leads : (phase : Phase) → IsLeader phase → Relies s t phase → s.resize_leader ≡ suc t
  IsLeader-leads Phase.leading is r = r
  IsLeader-leads Phase.published is r = r.0
  IsLeader-leads Phase.replaced is r = r.0
  IsLeader-leads Phase.failing_done is r = r
  IsLeader-leads Phase.failing_migration is r = r
  IsLeader-leads Phase.failing_ready is r = r.0
  IsLeader-leads Phase.failed is r = r
  IsLeader-leads (Phase.entering leads) is r = Leads-true leads is r.0
  IsLeader-leads (Phase.tested leads) is r = Leads-true leads is r.0
  IsLeader-leads (Phase.migrating leads) is r = Leads-true leads is r.0
  IsLeader-leads (Phase.waiting leads) is r = Leads-true leads is r.0
  IsLeader-leads (Phase.left leads) is r = Leads-true leads is r.0
  IsLeader-leads Phase.calling is r = absurd is
  IsLeader-leads Phase.electing is r = absurd is
  IsLeader-leads Phase.following is r = absurd is
  IsLeader-leads Phase.returned is r = absurd is

-- What the callers of a resize rely on.
pub record IsOrderly (s : Resize) : Type 0 where
  pub one_leader : (t u : ℕ) → IsLeader (s.threads t) → IsLeader (s.threads u) → t ≡ u
  pub finds_table :
      (t : ℕ) (leads : Bool) → s.threads t ≡ Phase.migrating leads → s.new_gen_metadata ≡ true
  pub answered :
      (t : ℕ)
      → s.threads t ≡ Phase.returned
      → (s.is_replaced ≡ true) ⊎ ((u : ℕ) × IsFailing (s.threads u))
  pub migrated_first : s.is_replaced ≡ true → s.node_migration_done ≡ true

-- However any number of threads ask for a resize of one generation of the table, whose leader may
-- fail to start it: no two of them lead; a thread that migrates finds a new table; the old table is
-- replaced only once the migration was reported to be over; and when a thread has returned, the old table was
-- replaced, or the leader failed.
pub Comes-IsOrderly : (s : Resize) → Comes s → IsOrderly s
Comes-IsOrderly s comes =
    let good = Comes-IsCoordinated comes in
    record {
      one_leader = λ t u a b. omega (
        arith,
        IsLeader-leads s t (s.threads t) a (good.relies t),
        IsLeader-leads s u (s.threads u) b (good.relies u),
      );
      finds_table = λ t leads is. (relied s t _ is good).1;
      answered = λ t is. good.done (relied s t _ is good);
      migrated_first = good.after;
    }
