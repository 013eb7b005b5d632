-- ===== src/AtomicDict/Resize/Leader/Invariant.antt =====
-- What each thread of a resize relies on, and that others leave it true (src/cereggii/atomic_dict/resize.c).
use cereggii.Common.{ℕ, suc, Bool, true, false, ◌≡◌, ◌⊎◌, inl, inr, sym, update, ◌==◌, arith}
use mathlib.Core.Path.{subst}
use native.Mathlib.Decide.{ℕ_discrete}
use cereggii.AtomicDict.Resize.Leader.{Phase, Resize, moves}

abbrev pub Leads : Bool → Resize → ℕ → Type 0
Leads true s t = s.resize_leader ≡ suc t
Leads false s t = Unit

-- What a thread relies on.
abbrev pub Relies : Resize → ℕ → Phase → Type 0
Relies s t Phase.calling = Unit
Relies s t Phase.electing = Unit
Relies s t Phase.leading = s.resize_leader ≡ suc t
Relies s t Phase.published = (s.resize_leader ≡ suc t) × (s.new_gen_metadata ≡ true)
Relies s t Phase.replaced = (s.resize_leader ≡ suc t) × (s.is_replaced ≡ true)
Relies s t Phase.failing_done = s.resize_leader ≡ suc t
Relies s t Phase.failing_migration = s.resize_leader ≡ suc t
Relies s t Phase.failing_ready = (s.resize_leader ≡ suc t) × (s.node_migration_done ≡ true)
Relies s t Phase.failed = s.resize_leader ≡ suc t
Relies s t Phase.following = Unit
Relies s t (Phase.entering leads) = Leads leads s t × (s.new_metadata_ready ≡ true)
Relies s t (Phase.tested leads) = Leads leads s t × (s.new_gen_metadata ≡ true)
Relies s t (Phase.migrating leads) = Leads leads s t × (s.new_gen_metadata ≡ true)
Relies s t (Phase.waiting leads) = Leads leads s t × (s.new_gen_metadata ≡ true)
Relies s t (Phase.left leads) = Leads leads s t × (s.node_migration_done ≡ true)
Relies s t Phase.returned = s.resize_done ≡ true

abbrev pub IsFailing : Phase → Type 0
IsFailing Phase.failing_migration = Unit
IsFailing Phase.failing_ready = Unit
IsFailing Phase.failed = Unit
IsFailing Phase.calling = ⊥
IsFailing Phase.electing = ⊥
IsFailing Phase.leading = ⊥
IsFailing Phase.published = ⊥
IsFailing Phase.replaced = ⊥
IsFailing Phase.failing_done = ⊥
IsFailing Phase.following = ⊥
IsFailing (Phase.entering leads) = ⊥
IsFailing (Phase.tested leads) = ⊥
IsFailing (Phase.migrating leads) = ⊥
IsFailing (Phase.waiting leads) = ⊥
IsFailing (Phase.left leads) = ⊥
IsFailing Phase.returned = ⊥

-- Every thread has what it relies on; who hears of a new table finds one, or the migration over; and
-- a resize that is done has replaced the table, or its leader failed; which is replaced after the migration.
pub record IsCoordinated (s : Resize) : Type 0 where
  pub relies : (t : ℕ) → Relies s t (s.threads t)
  pub ready :
      s.new_metadata_ready ≡ true → (s.new_gen_metadata ≡ true) ⊎ (s.node_migration_done ≡ true)
  pub done : s.resize_done ≡ true → (s.is_replaced ≡ true) ⊎ ((t : ℕ) × IsFailing (s.threads t))
  pub after : s.is_replaced ≡ true → s.node_migration_done ≡ true

-- Events stay set, and the leader stays.
pub record Keeps (s s' : Resize) : Type 0 where
  pub leader : (t : ℕ) → s.resize_leader ≡ suc t → s'.resize_leader ≡ suc t
  pub published : s.new_gen_metadata ≡ true → s'.new_gen_metadata ≡ true
  pub ready : s.new_metadata_ready ≡ true → s'.new_metadata_ready ≡ true
  pub migrated : s.node_migration_done ≡ true → s'.node_migration_done ≡ true
  pub is_replaced : s.is_replaced ≡ true → s'.is_replaced ≡ true
  pub done : s.resize_done ≡ true → s'.resize_done ≡ true

module _ (s s' : Resize) (keeps : Keeps s s') (t : ℕ) where
  Leads-kept : (leads : Bool) → Leads leads s t → Leads leads s' t
  Leads-kept true l = keeps.leader t l
  Leads-kept false l = tt

  pub Relies-kept : (phase : Phase) → Relies s t phase → Relies s' t phase
  Relies-kept Phase.calling r = tt
  Relies-kept Phase.electing r = tt
  Relies-kept Phase.leading r = keeps.leader t r
  Relies-kept Phase.published (l, r) = (keeps.leader t l, keeps.published r)
  Relies-kept Phase.replaced (l, r) = (keeps.leader t l, keeps.is_replaced r)
  Relies-kept Phase.failing_done r = keeps.leader t r
  Relies-kept Phase.failing_migration r = keeps.leader t r
  Relies-kept Phase.failing_ready (l, r) = (keeps.leader t l, keeps.migrated r)
  Relies-kept Phase.failed r = keeps.leader t r
  Relies-kept Phase.following r = tt
  Relies-kept (Phase.entering leads) (l, r) = (Leads-kept leads l, keeps.ready r)
  Relies-kept (Phase.tested leads) (l, r) = (Leads-kept leads l, keeps.published r)
  Relies-kept (Phase.migrating leads) (l, r) = (Leads-kept leads l, keeps.published r)
  Relies-kept (Phase.waiting leads) (l, r) = (Leads-kept leads l, keeps.published r)
  Relies-kept (Phase.left leads) (l, r) = (Leads-kept leads l, keeps.migrated r)
  Relies-kept Phase.returned r = keeps.done r

same-Keeps : (s : Resize) (t : ℕ) (phase : Phase) → Keeps s (moves t phase s)
same-Keeps s t phase = record {
  leader = λ u l. l;
  published = λ e. e;
  ready = λ e. e;
  migrated = λ e. e;
  is_replaced = λ e. e;
  done = λ e. e;
}

-- A thread moves on in a state that keeps what was set.
module _ (s next : Resize) (t : ℕ) (phase : Phase) (keeps : Keeps s next)
    (same : next.threads ≡ s.threads) (good : IsCoordinated s) where
  others_rely : (u : ℕ) → Relies next u (s.threads u)
  others_rely u = Relies-kept s next keeps u (s.threads u) (good.relies u)

  all_rely : Relies next t phase → (u : ℕ) → Relies next u (update next.threads t phase u)
  all_rely own u = elim (ℕ_discrete t u) [
    | yes here ↦
        let at : (t == u) ≡ true = ground arith in rw at (subst (λ v. Relies next v phase) here own)
    | no there ↦
        let at : (t == u) ≡ false = ground arith in
        rw at (subst (λ f. Relies next u (f u)) (sym same) (others_rely u))
  ]

  IsFailing-stays :
      (IsFailing (s.threads t) → IsFailing phase)
      → (u : ℕ) → IsFailing (s.threads u)
      → IsFailing (update next.threads t phase u)
  IsFailing-stays own u failing = elim (ℕ_discrete t u) [
    | yes here ↦
        let at : (t == u) ≡ true = ground arith in
        rw at (own (subst (λ v. IsFailing (s.threads v)) (sym here) failing))
    | no there ↦ let at : (t == u) ≡ false = ground arith in rw (at, same) failing
  ]

  kept_ready :
      (next.new_metadata_ready ≡ true → s.new_metadata_ready ≡ true)
      → next.new_metadata_ready ≡ true
      → (next.new_gen_metadata ≡ true) ⊎ (next.node_migration_done ≡ true)
  kept_ready before is = elim (good.ready (before is)) [
    | inl a ↦ inl (keeps.published a)
    | inr b ↦ inr (keeps.migrated b)
  ]

  pub kept_done :
      (IsFailing (s.threads t) → IsFailing phase)
      → (next.resize_done ≡ true → s.resize_done ≡ true)
      → next.resize_done ≡ true
      → (next.is_replaced ≡ true) ⊎ ((u : ℕ) × IsFailing (update next.threads t phase u))
  kept_done own before is = elim (good.done (before is)) [
    | inl a ↦ inl (keeps.is_replaced a)
    | inr (u, failing) ↦ inr (u, IsFailing-stays own u failing)
  ]

  pub moved :
      Relies next t phase
      → (next.new_metadata_ready ≡ true
          → (next.new_gen_metadata ≡ true) ⊎ (next.node_migration_done ≡ true))
      → (next.resize_done ≡ true
          → (next.is_replaced ≡ true) ⊎ ((u : ℕ) × IsFailing (update next.threads t phase u)))
      → (next.is_replaced ≡ true → next.node_migration_done ≡ true)
      → IsCoordinated (moves t phase next)
  moved own ready done after = record {
    relies =
        λ u. Relies-kept next (moves t phase next) (same-Keeps next t phase) u _ (all_rely own u);
    ready = ready;
    done = done;
    after = after;
  }
