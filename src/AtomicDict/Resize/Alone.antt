-- ===== src/AtomicDict/Resize/Alone.antt =====
-- A resize by the one thread that runs: its loop ends, and moves the whole index (resize.c).
use cereggii.Common.{
  ℕ, zero, suc, ◌+◌, ◌*◌, ◌≤◌, ◌<◌, ◌≡◌, ◌≢◌, inl, inr, refl, sym, ap, ◌∙◌, true, false, ltb, arith,
  some, update,
}
use mathlib.Core.Path.{subst}
use native.Mathlib.Decide.{ℕ_discrete}
use cereggii.AtomicDict.Runtime.{Runtime, IsLawful, Meta, size_of}
use cereggii.AtomicDict.Resize.{block_wise_migrate, blockwise_migrate_size}
use cereggii.AtomicDict.Resize.Clear.{with_index}
use cereggii.AtomicDict.Resize.Segment.{IsMigration}
use cereggii.AtomicDict.Resize.Block.{IsFreeAt, block_wise_migrate-Segmented}
use cereggii.AtomicDict.Resize.Workers.{
  Worker, Migration, Step, Reaches, IsDone, start, taken, migrate_nodes,
}
use cereggii.AtomicDict.Resize.Progress.{start-IsProgress, Reaches-IsProgress, taken-cases}
use cereggii.AtomicDict.Resize.Correct.{IsMoved, Reaches-Moved}

module _ (py : Runtime) (lawful : IsLawful py) (m m' : Meta) (mig : IsMigration py m m') where
  -- The loops of a block end.
  pub block_wise_migrate-Returns :
      (index : ℕ → ℕ) (block : ℕ)
      → block < size_of m
      → (new : Meta) × (count : ℕ) × (block_wise_migrate py m (with_index m' index) block
          ≡ some (new, count))
  block_wise_migrate-Returns index block lt =
      elim (block_wise_migrate-Segmented py lawful m m' mig block lt index) [
        | inl (full, result) ↦ (with_index m' index, 0, result)
        | inr (a, b, c, (index', count, result, seg, beside)) ↦
            (with_index m' index', count, result)
      ]

  -- The thread `t` has returned in a state that the others had no part in.
  abbrev Returned : Migration → ℕ → ℕ → Meta → ℕ → Type 0
  Returned s t n new count =
      (last : Migration) × Reaches py m (start m') last
      × (last.new_meta ≡ new)
      × (last.workers t ≡ Worker.returned count)
      × ((t' : ℕ) → t' ≢ t → last.workers t' ≡ s.workers t')

  ltb_yes : (a b : ℕ) → a < b → ltb a b ≡ true
  ltb_yes a b h = ground arith

  ltb_no : (a b : ℕ) → b ≤ a → ltb a b ≡ false
  ltb_no a b h = ground arith

  module _ (fuel n count : ℕ) (new_meta : Meta) where
    migrate_nodes-over :
        size_of m ≤ n
        → migrate_nodes py m (suc fuel) n new_meta count
          ≡ some (n + blockwise_migrate_size, new_meta, count)
    unfolding migrate_nodes
    migrate_nodes-over out = rw (ltb_no n (size_of m) out) refl

    migrate_nodes-more :
        (moved : Meta) (migrated : ℕ)
        → n < size_of m
        → block_wise_migrate py m new_meta n ≡ some (moved, migrated)
        → migrate_nodes py m (suc fuel) n new_meta count
          ≡ migrate_nodes py m fuel (n + blockwise_migrate_size) moved (count + migrated)
    unfolding migrate_nodes
    migrate_nodes-more moved migrated more result = rw (ltb_yes n (size_of m) more, result) refl

  runs_on :
      (fuel : ℕ) (s : Migration) (t count : ℕ)
      → s.workers t ≡ Worker.ready count
      → Reaches py m (start m') s
      → s.node_to_migrate < size_of m + blockwise_migrate_size
      → size_of m + blockwise_migrate_size ≤ s.node_to_migrate + blockwise_migrate_size * fuel
      → (n : ℕ) × (new : Meta) × (count' : ℕ) × (migrate_nodes py m fuel s.node_to_migrate
            s.new_meta count
          ≡ some (n, new, count'))
        × Returned s t n new count'
  runs_on zero s t count is run lt enough = absurd (omega arith)
  runs_on (suc fuel) s t count is run lt enough =
      let n = s.node_to_migrate in
      let worker = taken m n count in
      let s1 : Migration = record s {
        node_to_migrate = n + blockwise_migrate_size;
        workers = update s.workers t worker;
      } in
      let run1 : Reaches py m (start m') s1 = Reaches.next run (Step.fetch_add s t count is) in
      let here : s1.workers t ≡ worker = ground arith in
      elim (taken-cases py lawful m m' mig n count) [
        | inr (out, got) ↦ (
          n + blockwise_migrate_size,
          s.new_meta,
          count,
          migrate_nodes-over fuel n count s.new_meta out,
          (s1, run1, refl, here ∙ got, λ t' ne. ground arith),
        )
        | inl (more, got) ↦
            let p =
              Reaches-IsProgress py lawful m m' mig (start-IsProgress py lawful m m' mig m'.index)
                run in
            let (moved, migrated, result') = block_wise_migrate-Returns p.index n more in
            let result : block_wise_migrate py m s.new_meta n ≡ some (moved, migrated) =
              ap (λ x. block_wise_migrate py m x n) p.table ∙ result' in
            let s2 : Migration = record s1 {
              new_meta = moved;
              workers = update s1.workers t (Worker.ready (count + migrated));
            } in
            let run2 : Reaches py m (start m') s2 =
              Reaches.next run1 (Step.migrate s1 t n count migrated moved (here ∙ got) result) in
            let (n', new, count', ends, (last, reached, is_new, returned, others)) =
              runs_on fuel s2 t (count + migrated) (ground arith) run2 (omega arith)
                (omega arith) in
            (
              n',
              new,
              count',
              migrate_nodes-more fuel n count s.new_meta moved migrated more result ∙ ends,
              (last, reached, is_new, returned, λ t' ne. others t' ne ∙ ground arith),
            )
      ]

-- From a well-formed index of fewer than 2 ^ 30 slots with an empty one, where no comparison raises, and a
-- table of twice the size over the same entries, whatever its index holds: on a round of fuel for
-- each block and one more, `migrate_nodes` by one thread ends, and then the new index is well formed,
-- has two empty slots, holds the same values under the same keys, and its live slots point to entries
-- that live slots of the old one point to.
pub migrate_nodes-Moves :
    (py : Runtime) (m m' : Meta) (e fuel : ℕ)
    → IsLawful py
    → IsMigration py m m'
    → e < size_of m
    → IsFreeAt m e
    → size_of m + blockwise_migrate_size ≤ blockwise_migrate_size * fuel
    → (n : ℕ) × (new : Meta) × (count : ℕ) × (migrate_nodes py m fuel 0 m' 0 ≡ some (n, new, count))
      × IsMoved py m m' new
migrate_nodes-Moves py m m' e fuel lawful mig within free enough =
    let entered : Migration = record (start m') {
      workers = update (start m').workers 0 (Worker.ready 0);
    } in
    let run : Reaches py m (start m') entered =
      Reaches.next Reaches.here (Step.enter (start m') 0 refl) in
    let (n, new, count, ends, (last, reached, is_new, returned, others)) =
      runs_on py lawful m m' mig fuel entered 0 0 refl run (omega arith) (omega arith) in
    let idle : (t : ℕ) → t ≢ 0 → last.workers t ≡ Worker.waiting =
      λ t ne. others t ne ∙ ground arith in
    let done : IsDone last = record {
      asker = 0;
      its_count = count;
      has_returned = returned;
      no_reader = λ t c h. elim (ℕ_discrete t 0) [
        | yes z ↦ cc (returned, sym (ap last.workers z) ∙ h)
        | no ne ↦ cc (idle t ne, h)
      ];
      no_holder = λ t b c h. elim (ℕ_discrete t 0) [
        | yes z ↦ cc (returned, sym (ap last.workers z) ∙ h)
        | no ne ↦ cc (idle t ne, h)
      ];
    } in
    let moved = Reaches-Moved py m m' e last lawful mig within free reached done in
    (n, new, count, ends, subst (λ x. IsMoved py m m' x) is_new moved)
