-- ===== src/AtomicDict/Resize/Progress.antt =====
-- The invariant of a migration by any number of threads (resize.c).
use cereggii.Common.{
  ℕ, ◌+◌, ◌≤◌, ◌<◌, ◌≡◌, ◌≢◌, ◌⊎◌, inl, inr, refl, sym, ap, ◌∙◌, arith, update, some,
}
use mathlib.Core.Path.{subst}
use native.Mathlib.Decide.{dec_lt, ℕ_discrete}
use cereggii.AtomicDict.Runtime.{Runtime, IsLawful, Meta, size_of}
use cereggii.AtomicDict.Resize.{block_end, blockwise_migrate_size, block_wise_migrate}
use cereggii.AtomicDict.Resize.Clear.{with_index}
use cereggii.AtomicDict.Resize.Segment.{IsMigration, IsSegment}
use cereggii.AtomicDict.Resize.Block.{AllUsed, Covers, Beside, block_wise_migrate-Segmented}
use cereggii.AtomicDict.Resize.Cover.{IsBlock, other_block}
use cereggii.AtomicDict.Resize.Workers.{Worker, Migration, Step, Reaches, start, taken}

module _ (py : Runtime) (lawful : IsLawful py) (m m' : Meta) (mig : IsMigration py m m') where
  -- A block is migrated: it has no empty slot, or what it covers is in the new index.
  abbrev pub IsMigrated : (ℕ → ℕ) → ℕ → Type 0
  IsMigrated index s =
      AllUsed m s (block_end m s)
      ⊎ ((a : ℕ) × (b : ℕ) × Covers m s a b × IsSegment py m m' index a b)

  abbrev IsHeld : Migration → ℕ → Type 0
  IsHeld s block = (t : ℕ) × (count : ℕ) × (s.workers t ≡ Worker.holding block count)

  -- Blocks are taken in order; those that were taken are in hand or migrated.
  pub record IsProgress (s : Migration) : Type 0 where
    pub index : ℕ → ℕ
    pub table : s.new_meta ≡ with_index m' index
    pub aligned : IsBlock s.node_to_migrate
    pub taken_blocks :
        (b : ℕ)
        → IsBlock b
        → b < s.node_to_migrate
        → b < size_of m
        → IsHeld s b ⊎ IsMigrated index b
    pub held : (t b count : ℕ) → s.workers t ≡ Worker.holding b count → IsBlock b × (b < size_of m)
    pub over : (t count : ℕ) → s.workers t ≡ Worker.returned count → size_of m ≤ s.node_to_migrate

  pub start-IsProgress : (index : ℕ → ℕ) → IsProgress (start (with_index m' index))
  start-IsProgress index = record {
    index = index;
    table = refl;
    aligned = (0, omega arith);
    taken_blocks = λ b is lt. absurd (omega arith);
    held = λ t b count e. cc;
    over = λ t count e. cc;
  }

  -- A block that is migrated alone, with those migrated before.
  IsMigrated-after :
      (block : ℕ) (index index' : ℕ → ℕ) (a b : ℕ)
      → IsBlock block
      → Covers m block a b
      → IsSegment py m m' index' a b
      → Beside py lawful m m' mig a b index index'
      → (s : ℕ) → IsBlock s
      → s ≢ block
      → IsMigrated index s
      → IsMigrated index' s
  IsMigrated-after block index index' a b is c seg beside s is' ne done = elim done [
    | inl full ↦ inl full
    | inr (a', b', c', seg') ↦ inr (
      a',
      b',
      c',
      other_block py lawful m m' mig block s a b a' b' index index' is is' (λ e. ne (sym e)) c c'
          beside seg',
    )
  ]

  module _ (workers : ℕ → Worker) (t : ℕ) (worker : Worker) where
    pub updated :
        (t' : ℕ)
        → ((t' ≡ t) × (update workers t worker t' ≡ worker))
          ⊎ ((t' ≢ t) × (update workers t worker t' ≡ workers t'))
    updated t' = elim (ℕ_discrete t' t) [
      | yes e ↦ inl (e, ground arith)
      | no ne ↦ inr (ne, ground arith)
    ]

    -- A thread with no block in hand hides nobody else's.
    still_held :
        (block : ℕ)
        → ((b count : ℕ) → workers t ≢ Worker.holding b count)
        → (t' : ℕ) × (count : ℕ) × (workers t' ≡ Worker.holding block count)
        → (t' : ℕ) × (count : ℕ) × (update workers t worker t' ≡ Worker.holding block count)
    still_held block free (t', count, e) = elim (updated t') [
      | inl (same, _) ↦ absurd (free block count (sym (ap workers same) ∙ e))
      | inr (_, kept) ↦ (t', count, kept ∙ e)
    ]

  enter-IsProgress :
      (s : Migration) (t : ℕ)
      → s.workers t ≡ Worker.waiting
      → IsProgress s
      → IsProgress (record s { workers = update s.workers t (Worker.ready 0) })
  enter-IsProgress s t is p = record {
    index = p.index;
    table = p.table;
    aligned = p.aligned;
    taken_blocks = λ b block lt within. elim (p.taken_blocks b block lt within) [
      | inl h ↦ inl (still_held s.workers t (Worker.ready 0) b (λ b' c e. cc (is, e)) h)
      | inr done ↦ inr done
    ];
    held = λ t' b count e. elim (updated s.workers t (Worker.ready 0) t') [
      | inl (_, now) ↦ absurd (cc (now, e))
      | inr (_, kept) ↦ p.held t' b count (sym kept ∙ e)
    ];
    over = λ t' count e. elim (updated s.workers t (Worker.ready 0) t') [
      | inl (_, now) ↦ absurd (cc (now, e))
      | inr (_, kept) ↦ p.over t' count (sym kept ∙ e)
    ];
  }

  pub taken-cases :
      (n count : ℕ)
      → ((n < size_of m) × (taken m n count ≡ Worker.holding n count))
        ⊎ ((size_of m ≤ n) × (taken m n count ≡ Worker.returned count))
  taken-cases n count = elim (dec_lt n (size_of m)) [
    | yes lt ↦ inl (lt, ground arith)
    | no ge ↦ inr (omega arith, ground arith)
  ]

  fetch_add-IsProgress :
      (s : Migration) (t count : ℕ)
      → s.workers t ≡ Worker.ready count
      → IsProgress s
      → IsProgress (record s {
        node_to_migrate = s.node_to_migrate + blockwise_migrate_size;
        workers = update s.workers t (taken m s.node_to_migrate count);
      })
  fetch_add-IsProgress s t count is p =
      let n = s.node_to_migrate in
      let new = taken m n count in
      let (c, mult) = p.aligned in
      record {
        index = p.index;
        table = p.table;
        aligned = (c + 1, omega arith);
        taken_blocks = λ b block lt within. elim (dec_lt b n) [
          | yes before ↦ elim (p.taken_blocks b block before within) [
            | inl h ↦ inl (still_held s.workers t new b (λ b' c' e. cc (is, e)) h)
            | inr done ↦ inr done
          ]
          | no here ↦
              let same : b ≡ n = let (d, e) = block in omega arith in
              elim (taken-cases n count) [
                | inl (_, got) ↦ inl (
                  t,
                  count,
                  (let e : update s.workers t new t ≡ new = ground arith in e)
                      ∙ got
                      ∙ ap (λ x. Worker.holding x count) (sym same),
                )
                | inr (out, _) ↦ absurd (omega arith)
              ]
        ];
        held = λ t' b count' e. elim (updated s.workers t new t') [
          | inl (_, now) ↦ elim (taken-cases n count) [
            | inl (lt, got) ↦
                let same : n ≡ b = cc (now, e, got) in
                (subst (λ x. IsBlock x) same p.aligned, omega arith)
            | inr (_, got) ↦ absurd (cc (now, e, got))
          ]
          | inr (_, kept) ↦ p.held t' b count' (sym kept ∙ e)
        ];
        over = λ t' count' e. elim (updated s.workers t new t') [
          | inl (_, now) ↦ elim (taken-cases n count) [
            | inl (_, got) ↦ absurd (cc (now, e, got))
            | inr (out, _) ↦ omega arith
          ]
          | inr (_, kept) ↦ let before = p.over t' count' (sym kept ∙ e) in omega arith
        ];
      }

  -- What a block leaves of the other blocks, and that it is migrated itself.
  block_wise_migrate-IsMigrated :
      (block : ℕ) (index : ℕ → ℕ) (new_meta : Meta) (migrated : ℕ)
      → IsBlock block
      → block < size_of m
      → block_wise_migrate py m (with_index m' index) block ≡ some (new_meta, migrated)
      → (index' : ℕ → ℕ) × (new_meta ≡ with_index m' index')
        × IsMigrated index' block
        × ((s : ℕ) → IsBlock s → s ≢ block → IsMigrated index s → IsMigrated index' s)
  block_wise_migrate-IsMigrated block index new_meta migrated is within e =
      elim (block_wise_migrate-Segmented py lawful m m' mig block within index) [
        | inl (full, result) ↦ (index, cc (e, result), inl full, λ s is' ne done. done)
        | inr (a, b, c, (index', count, result, seg, beside)) ↦ (
          index',
          cc (e, result),
          inr (a, b, c, seg),
          λ s is' ne done. IsMigrated-after block index index' a b is c seg beside s is' ne done,
        )
      ]

  migrate-IsProgress :
      (s : Migration) (t block count migrated : ℕ) (new_meta : Meta)
      → s.workers t ≡ Worker.holding block count
      → block_wise_migrate py m s.new_meta block ≡ some (new_meta, migrated)
      → IsProgress s
      → IsProgress (record s {
        new_meta = new_meta;
        workers = update s.workers t (Worker.ready (count + migrated));
      })
  migrate-IsProgress s t block count migrated new_meta is e p =
      let new = Worker.ready (count + migrated) in
      let (is_block, within) = p.held t block count is in
      let (index', table, mine, others) =
        block_wise_migrate-IsMigrated block p.index new_meta migrated is_block within
          (ap (λ x. block_wise_migrate py m x block) (sym p.table) ∙ e) in
      record {
        index = index';
        table = table;
        aligned = p.aligned;
        taken_blocks = λ b block' lt within'. elim (ℕ_discrete b block) [
          | yes same ↦ inr (subst (λ x. IsMigrated index' x) (sym same) mine)
          | no ne ↦ elim (p.taken_blocks b block' lt within') [
            | inl (t', count', h) ↦ elim (updated s.workers t new t') [
              | inl (same, _) ↦
                  let clash : block ≡ b = cc (sym (ap s.workers same) ∙ h, is) in
                  absurd (ne (sym clash))
              | inr (_, kept) ↦ inl (t', count', kept ∙ h)
            ]
            | inr done ↦ inr (others b block' ne done)
          ]
        ];
        held = λ t' b count' h. elim (updated s.workers t new t') [
          | inl (_, now) ↦ absurd (cc (now, h))
          | inr (_, kept) ↦ p.held t' b count' (sym kept ∙ h)
        ];
        over = λ t' count' h. elim (updated s.workers t new t') [
          | inl (_, now) ↦ absurd (cc (now, h))
          | inr (_, kept) ↦ p.over t' count' (sym kept ∙ h)
        ];
      }

  Step-IsProgress : {s u : Migration} → Step py m s u → IsProgress s → IsProgress u
  Step-IsProgress (Step.enter s t e) p = enter-IsProgress s t e p
  Step-IsProgress (Step.fetch_add s t count e) p = fetch_add-IsProgress s t count e p
  Step-IsProgress (Step.migrate s t block count migrated new_meta e f) p =
      migrate-IsProgress s t block count migrated new_meta e f p

  pub Reaches-IsProgress : {s u : Migration} → IsProgress s → Reaches py m s u → IsProgress u
  Reaches-IsProgress p Reaches.here = p
  Reaches-IsProgress p (Reaches.next r step) = Step-IsProgress step (Reaches-IsProgress p r)
