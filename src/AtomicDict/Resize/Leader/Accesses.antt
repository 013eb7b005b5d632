-- ===== src/AtomicDict/Resize/Leader/Accesses.antt =====
-- Every access of a resize keeps what its threads rely on (src/cereggii/atomic_dict/resize.c).
use cereggii.Common.{ℕ, suc, true, ◌≡◌, inl, inr, refl, ◌==◌, arith}
use mathlib.Core.Path.{subst}
use cereggii.AtomicDict.Resize.Leader.{Phase, Resize, moves, ResizeAccess, Comes}
use cereggii.AtomicDict.Resize.Leader.Invariant.{
  Relies, IsFailing, IsCoordinated, Keeps, Relies-kept, kept_done, moved,
}

-- Where nothing but the place of a thread changes that has not failed.
walks :
    (s : Resize) (t : ℕ) (before phase : Phase)
    → s.threads t ≡ before
    → ¬ IsFailing before
    → IsCoordinated s
    → Relies s t phase
    → IsCoordinated (moves t phase s)
walks s t before phase is sane good own =
    let keeps : Keeps s s = record {
      leader = λ u l. l;
      published = λ e. e;
      ready = λ e. e;
      migrated = λ e. e;
      is_replaced = λ e. e;
      done = λ e. e;
    } in
    moved s s t phase keeps refl good own good.ready
      (kept_done s s t phase keeps refl good (λ f. absurd (sane (subst IsFailing is f))) (λ e. e))
      good.after

pub relied :
    (s : Resize) (t : ℕ) (phase : Phase) → s.threads t ≡ phase → IsCoordinated s → Relies s t phase
relied s t phase is good = subst (Relies s t) is (good.relies t)

ResizeAccess-IsCoordinated :
    {s s' : Resize} → ResizeAccess s s' → IsCoordinated s → IsCoordinated s'
ResizeAccess-IsCoordinated (ResizeAccess.load_none s t is free) good =
    walks s t _ _ is (λ x. x) good tt
ResizeAccess-IsCoordinated (ResizeAccess.load_leader s t is led) good =
    walks s t _ _ is (λ x. x) good tt
ResizeAccess-IsCoordinated (ResizeAccess.lose s t is led) good = walks s t _ _ is (λ x. x) good tt
ResizeAccess-IsCoordinated (ResizeAccess.give_up s t is) good =
    walks s t _ _ is (λ x. x) good (relied s t _ is good)
ResizeAccess-IsCoordinated (ResizeAccess.wake s t is ready) good =
    walks s t _ _ is (λ x. x) good (tt, ready)
ResizeAccess-IsCoordinated (ResizeAccess.skip s t leads is over) good =
    walks s t _ _ is (λ x. x) good ((relied s t _ is good).0, over)
ResizeAccess-IsCoordinated (ResizeAccess.test s t leads is closed) good =
    let (l, heard) = relied s t _ is good in
    let found : s.new_gen_metadata ≡ true = elim (good.ready heard) [
      | inl a ↦ a
      | inr over ↦ cc (over, closed)
    ] in
    walks s t _ _ is (λ x. x) good (l, found)
ResizeAccess-IsCoordinated (ResizeAccess.enter s t leads is) good =
    walks s t _ _ is (λ x. x) good (relied s t _ is good)
ResizeAccess-IsCoordinated (ResizeAccess.leave s t leads is) good =
    walks s t _ _ is (λ x. x) good (relied s t _ is good)
ResizeAccess-IsCoordinated (ResizeAccess.pass s t leads is over) good =
    walks s t _ _ is (λ x. x) good ((relied s t _ is good).0, over)
ResizeAccess-IsCoordinated (ResizeAccess.follow s t is over) good =
    walks s t _ _ is (λ x. x) good over
ResizeAccess-IsCoordinated (ResizeAccess.win s t is free) good =
    let next : Resize = record s { resize_leader = suc t } in
    let keeps : Keeps s next = record {
      leader = λ u l. absurd (omega (arith, free, l));
      published = λ e. e;
      ready = λ e. e;
      migrated = λ e. e;
      is_replaced = λ e. e;
      done = λ e. e;
    } in
    let r = relied s t _ is good in
    moved s next t Phase.leading keeps refl good refl good.ready
      (kept_done s next t Phase.leading keeps refl good (λ f. absurd (subst IsFailing is f))
        (λ e. e))
      good.after
ResizeAccess-IsCoordinated (ResizeAccess.publish s t is) good =
    let next : Resize = record s { new_gen_metadata = true } in
    let keeps : Keeps s next = record {
      leader = λ u l. l;
      published = λ _. refl;
      ready = λ e. e;
      migrated = λ e. e;
      is_replaced = λ e. e;
      done = λ e. e;
    } in
    let r = relied s t _ is good in
    moved s next t Phase.published keeps refl good (r, refl) (λ _. inl refl)
      (kept_done s next t Phase.published keeps refl good (λ f. absurd (subst IsFailing is f))
        (λ e. e))
      good.after
ResizeAccess-IsCoordinated (ResizeAccess.announce s t is) good =
    let next : Resize = record s { new_metadata_ready = true } in
    let keeps : Keeps s next = record {
      leader = λ u l. l;
      published = λ e. e;
      ready = λ _. refl;
      migrated = λ e. e;
      is_replaced = λ e. e;
      done = λ e. e;
    } in
    let r = relied s t _ is good in
    moved s next t (Phase.entering true) keeps refl good (r.0, refl) (λ _. inl r.1)
      (kept_done s next t (Phase.entering true) keeps refl good (λ f. absurd (subst IsFailing is f))
        (λ e. e))
      good.after
ResizeAccess-IsCoordinated (ResizeAccess.fail_done s t is) good =
    let next : Resize = record s { resize_done = true } in
    let keeps : Keeps s next = record {
      leader = λ u l. l;
      published = λ e. e;
      ready = λ e. e;
      migrated = λ e. e;
      is_replaced = λ e. e;
      done = λ _. refl;
    } in
    let r = relied s t _ is good in
    let here_again : (t == t) ≡ true = ground arith in
    moved s next t Phase.failing_migration keeps refl good r good.ready
      (λ _. inr (t, rw here_again tt)) good.after
ResizeAccess-IsCoordinated (ResizeAccess.fail_migration s t is) good =
    let next : Resize = record s { node_migration_done = true } in
    let keeps : Keeps s next = record {
      leader = λ u l. l;
      published = λ e. e;
      ready = λ e. e;
      migrated = λ _. refl;
      is_replaced = λ e. e;
      done = λ e. e;
    } in
    let r = relied s t _ is good in
    moved s next t Phase.failing_ready keeps refl good (r, refl) (λ _. inr refl)
      (kept_done s next t Phase.failing_ready keeps refl good (λ f. tt) (λ e. e)) (λ _. refl)
ResizeAccess-IsCoordinated (ResizeAccess.fail_ready s t is) good =
    let next : Resize = record s { new_metadata_ready = true } in
    let keeps : Keeps s next = record {
      leader = λ u l. l;
      published = λ e. e;
      ready = λ _. refl;
      migrated = λ e. e;
      is_replaced = λ e. e;
      done = λ e. e;
    } in
    let r = relied s t _ is good in
    moved s next t Phase.failed keeps refl good r.0 (λ _. inr r.1)
      (kept_done s next t Phase.failed keeps refl good (λ f. tt) (λ e. e)) good.after
ResizeAccess-IsCoordinated (ResizeAccess.replace s t is) good =
    let next : Resize = record s { is_replaced = true } in
    let keeps : Keeps s next = record {
      leader = λ u l. l;
      published = λ e. e;
      ready = λ e. e;
      migrated = λ e. e;
      is_replaced = λ _. refl;
      done = λ e. e;
    } in
    let r = relied s t _ is good in
    moved s next t Phase.replaced keeps refl good (r.0, refl) good.ready (λ _. inl refl) (λ _. r.1)
ResizeAccess-IsCoordinated (ResizeAccess.finish s t is) good =
    let next : Resize = record s { resize_done = true } in
    let keeps : Keeps s next = record {
      leader = λ u l. l;
      published = λ e. e;
      ready = λ e. e;
      migrated = λ e. e;
      is_replaced = λ e. e;
      done = λ _. refl;
    } in
    let r = relied s t _ is good in
    moved s next t Phase.returned keeps refl good refl good.ready (λ _. inl r.1) good.after
ResizeAccess-IsCoordinated (ResizeAccess.complete s t leads is none_in) good =
    let next : Resize = record s { node_migration_done = true } in
    let keeps : Keeps s next = record {
      leader = λ u l. l;
      published = λ e. e;
      ready = λ e. e;
      migrated = λ _. refl;
      is_replaced = λ e. e;
      done = λ e. e;
    } in
    record {
      relies = λ u. Relies-kept s next keeps u _ (good.relies u);
      ready = λ _. inr refl;
      done = good.done;
      after = λ _. refl;
    }

-- Whatever threads do.
pub Comes-IsCoordinated : {s : Resize} → Comes s → IsCoordinated s
Comes-IsCoordinated Comes.start = record {
  relies = λ t. tt;
  ready = λ e. cc e;
  done = λ e. cc e;
  after = λ e. cc e;
}
Comes-IsCoordinated (Comes.then comes access) =
    ResizeAccess-IsCoordinated access (Comes-IsCoordinated comes)
