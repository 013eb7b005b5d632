-- ===== src/AtomicDict/Resize/Block.antt =====
-- What `block_wise_migrate` does to the new index (resize.c).
use cereggii.Common.{
  ℕ, zero, suc, ◌+◌, ◌-◌, ◌*◌, ◌%◌, ◌≤◌, ◌<◌, ◌≡◌, ◌≢◌, ◌⊎◌, inl, inr, refl, sym, ap, ◌∙◌, true,
  false, ltb, leb, arith, Bool-cases, Option, some,
}
use mathlib.Core.Path.{subst}
use native.Mathlib.Nat.{add-mod_right}
use native.Mathlib.Decide.{dec_lt, ℕ_discrete}
use cereggii.AtomicDict.Runtime.{Runtime, IsLawful, Meta, size_of}
use cereggii.AtomicDict.Node.{is_empty, read_raw_node_at, parse_node_from_raw}
use cereggii.AtomicDict.Index.{node_at}
use cereggii.AtomicDict.Lookup.Correct.{read_node_at-mod}
use cereggii.Common.Bits.{and_mask}
use cereggii.AtomicDict.Resize.{
  first_empty, end_of_cluster, migrate_range, migrate_tail, migrate_last_cluster,
  block_wise_migrate, block_end, initialize_in_new_meta,
}
use cereggii.AtomicDict.Resize.Clear.{with_index, word_at, initialize_lem}
use cereggii.AtomicDict.Resize.Target.{double}
use cereggii.AtomicDict.Resize.Segment.{IsMigration, IsSegment, IsSegment-keep}
use cereggii.AtomicDict.Resize.Ranges.{empty-IsSegment, migrate_range-Extends}

leb_lt : (a b : ℕ) → a < b → leb b a ≡ false
leb_lt a b h = ground arith

leb_ge : (a b : ℕ) → ¬ (a < b) → leb b a ≡ true
leb_ge a b h = ground arith

module _ (m : Meta) where
  -- The slot at a place that may be counted past the end of the index.
  abbrev pub IsFreeAt : ℕ → Type 0
  IsFreeAt p = is_empty (node_at m (p % size_of m)) ≡ true

  abbrev pub IsUsedAt : ℕ → Type 0
  IsUsedAt p = is_empty (node_at m (p % size_of m)) ≡ false

  abbrev pub AllUsed : ℕ → ℕ → Type 0
  AllUsed a b = (p : ℕ) → a ≤ p → p < b → IsUsedAt p

  -- The slots that the block at `start` migrates: from its first empty one to the end of the cluster
  -- that crosses its end.
  pub record Covers (start a b : ℕ) : Type 0 where
    pub from : start ≤ a
    pub inside : a < block_end m start
    pub leading : AllUsed start a
    pub first : IsFreeAt a
    pub beyond : block_end m start ≤ b
    pub crossing : AllUsed (block_end m start) b
    pub last : IsFreeAt b
    pub one_round : b ≤ a + size_of m

  read_raw-eq : (i : ℕ) → read_raw_node_at i m ≡ (node_at m (i % size_of m)).node
  unfolding read_raw_node_at parse_node_from_raw
  read_raw-eq i = ap m.index (and_mask m.log_size i)

  first_empty_lem :
      (rounds i : ℕ)
      → (i ≤ first_empty m rounds i)
        × (first_empty m rounds i ≤ i + rounds)
        × AllUsed i (first_empty m rounds i)
        × (first_empty m rounds i < i + rounds → IsFreeAt (first_empty m rounds i))
  unfolding first_empty
  first_empty_lem zero i =
      (omega arith, omega arith, λ p ge lt. absurd (omega arith), λ lt. absurd (omega arith))
  first_empty_lem (suc rounds) i = elim (Bool-cases (is_empty (node_at m (i % size_of m)))) [
    | inl free ↦
        rw (read_raw-eq, free)
          (omega arith, omega arith, λ p ge lt. absurd (omega arith), λ lt. free)
    | inr used ↦
        let (ge, le, all, free) = first_empty_lem rounds (i + 1) in
        rw (read_raw-eq, used)
          (
            omega arith,
            omega arith,
            λ p ge' lt. elim (ℕ_discrete p i) [
              | yes e ↦ subst (λ q. IsUsedAt q) (sym e) used
              | no ne ↦ all p (omega arith) lt
            ],
            λ lt. free (omega arith),
          )
  ]

  end_of_cluster_lem :
      (fuel j e : ℕ)
      → j ≤ e
      → e < j + fuel
      → IsFreeAt e
      → (b : ℕ) × (end_of_cluster m fuel j ≡ some b) × (j ≤ b) × (b ≤ e) × AllUsed j b × IsFreeAt b
  unfolding end_of_cluster
  end_of_cluster_lem zero j e le lt free = absurd (omega arith)
  end_of_cluster_lem (suc fuel) j e le lt free =
      elim (Bool-cases (is_empty (node_at m (j % size_of m)))) [
        | inl here ↦ (
          j,
          rw (read_node_at-mod, here) refl,
          omega arith,
          le,
          λ p ge lt'. absurd (omega arith),
          here,
        )
        | inr used ↦
            let ne : j ≢ e =
              λ same. cc (ap (λ p. is_empty (node_at m (p % size_of m))) same, used, free) in
            let (b, is, ge, le', all, free_b) =
              end_of_cluster_lem fuel (j + 1) e (omega arith) (omega arith) free in
            (
              b,
              rw (read_node_at-mod, used) is,
              omega arith,
              le',
              λ p ge' lt'. elim (ℕ_discrete p j) [
                | yes same ↦ subst (λ q. IsUsedAt q) (sym same) used
                | no other ↦ all p (omega arith) lt'
              ],
              free_b,
            )
      ]

  migrate_tail-eq :
      (py : Runtime) (fuel rounds i : ℕ) (s : Meta × ℕ)
      → rounds < fuel
      → AllUsed i (i + rounds)
      → IsFreeAt (i + rounds)
      → migrate_tail py m fuel i s ≡ some (migrate_range py m rounds i s)
  unfolding migrate_tail migrate_range
  migrate_tail-eq py zero rounds i s lt all free = absurd (omega arith)
  migrate_tail-eq py (suc fuel) zero i s lt all free =
      let here : IsFreeAt i = subst (λ q. IsFreeAt q) {x = i + 0} {y = i} (omega arith) free in
      rw (read_node_at-mod, here) refl
  migrate_tail-eq py (suc fuel) (suc rounds) i s lt all free =
      rw (read_node_at-mod, all i (omega arith) (omega arith))
        (migrate_tail-eq py fuel rounds (i + 1) _ (omega arith)
          (λ p ge lt'. all p (omega arith) (omega arith))
          (subst (λ q. IsFreeAt q) {x = i + suc rounds} {y = i + 1 + rounds} (omega arith) free))

module _ (py : Runtime) (lawful : IsLawful py) (m m' : Meta) (mig : IsMigration py m m') where
  -- Outside the slots that the block covers the words stay, but for the two of the slot after them,
  -- which may be cleared.
  abbrev pub Beside : ℕ → ℕ → (ℕ → ℕ) → (ℕ → ℕ) → Type 0
  Beside a b index index' =
      (x : ℕ)
      → 2 * b ≤ x
      → x < 2 * a + size_of m'
      → (word_at m' index' x ≡ word_at m' index x) ⊎ ((word_at m' index' x ≡ 0) × (x < 2 * b + 2))

  -- A segment in the new table, and nothing else changed.
  abbrev pub Segmented : ℕ → ℕ → (ℕ → ℕ) → Option (Meta × ℕ) → Type 0
  Segmented a b index result =
      (index' : ℕ → ℕ) × (count : ℕ) × (result ≡ some (with_index m' index', count))
      × IsSegment py m m' index' a b
      × Beside a b index index'

  module _ (a end : ℕ) (before : a < end) (inside : end ≤ size_of m) (first : IsFreeAt m a)
      (index : ℕ → ℕ) where
    -- The end of the cluster is at most one round away.
    crossing :
        (b : ℕ) × (end_of_cluster m (size_of m) end ≡ some b)
        × (end ≤ b)
        × (b ≤ a + size_of m)
        × AllUsed m end b
        × IsFreeAt m b
    crossing =
        let again : IsFreeAt m (a + size_of m) =
          ap (λ q. is_empty (node_at m q)) (add-mod_right a (size_of m)) ∙ first in
        end_of_cluster_lem m (size_of m) end (a + size_of m) (omega arith) (omega arith) again

    -- The first loop: a segment up to the end of the block.
    to_end :
        (index' : ℕ → ℕ) × (count : ℕ) × (migrate_range py m
            (end - a)
            a
            (initialize_in_new_meta (with_index m' index) a end, 0)
          ≡ (with_index m' index', count))
        × IsSegment py m m' index' a end
        × ((x : ℕ)
            → 2 * end ≤ x
            → x < 2 * end + 2
            → x < 2 * a + size_of m'
            → word_at m' index' x ≡ 0)
        × ((x : ℕ)
            → 2 * end + 2 ≤ x
            → x < 2 * a + size_of m'
            → word_at m' index' x ≡ word_at m' index x)
    to_end =
        let (index0, is0, zero0, same0) = initialize_lem m' a end index (omega arith) in
        let (index1, count1, is1, seg1, same1) =
          migrate_range-Extends py lawful m m' mig a first (end - a) a index0 0 (omega arith)
            (omega arith) (omega arith) (empty-IsSegment py lawful m m' mig a first index0)
            (λ x ge lt. zero0 x ge (omega arith)) in
        (
          index1,
          count1,
          ap (λ t. migrate_range py m (end - a) a (t, 0)) is0 ∙ is1,
          subst (λ c. IsSegment py m m' index1 a c) {x = a + (end - a)} {y = end} (omega arith)
              seg1,
          λ x ge lt near. same1 x (omega arith) near ∙ zero0 x (omega arith) lt,
          λ x ge lt. same1 x (omega arith) lt ∙ same0 x ge lt,
        )

    -- The rest of the cluster that crosses the end of the block.
    past_end :
        (b : ℕ)
        → end < b
        → b ≤ a + size_of m
        → AllUsed m end b
        → IsFreeAt m b
        → (index1 : ℕ → ℕ) (count1 : ℕ) → IsSegment py m m' index1 a end
        → (index' : ℕ → ℕ) × (count : ℕ) × (migrate_tail py m
              (size_of m)
              end
              (initialize_in_new_meta (with_index m' index1) end (b - 1), count1)
            ≡ some (with_index m' index', count))
          × IsSegment py m m' index' a b
          × ((x : ℕ)
              → 2 * b ≤ x
              → x < 2 * a + size_of m'
              → word_at m' index' x ≡ word_at m' index1 x)
    past_end b over near used last index1 count1 seg1 =
        let twice = double m m' mig.grown in
        let reach : end + (b - end) ≡ b = omega arith in
        let (index2, is2, zero2, same2) = initialize_lem m' end (b - 1) index1 (omega arith) in
        let round : (x : ℕ)
            → word_at m' index2 (x + size_of m') ≡ word_at m' index1 (x + size_of m')
            → word_at m' index2 x ≡ word_at m' index1 x =
          λ x e.
            sym (ap index2 (add-mod_right x (size_of m')))
            ∙ e
            ∙ ap index1 (add-mod_right x (size_of m')) in
        let kept : (x : ℕ) → 2 * a ≤ x → x < 2 * end → word_at m' index2 x ≡ word_at m' index1 x =
          λ x ge lt. round x (same2 (x + size_of m') (omega arith) (omega arith)) in
        let seg2 =
          IsSegment-keep py lawful m m' mig index1 index2 a end (λ x ge lt. kept x (omega arith) lt)
            (λ x ge low lt. inl (kept x ge lt)) seg1 in
        let (index3, count3, is3, seg3, same3) =
          migrate_range-Extends py lawful m m' mig a first (b - end) end index2 count1 (omega arith)
            (omega arith) (omega arith) seg2 (λ x ge lt. zero2 x ge (omega arith)) in
        (
          index3,
          count3,
          ap (λ t. migrate_tail py m (size_of m) end (t, count1)) is2
              ∙ migrate_tail-eq m py (size_of m) (b - end) end (with_index m' index2, count1)
                  (omega arith) (λ p ge lt. used p ge (omega arith))
                  (subst (λ q. IsFreeAt m q) (sym reach) last)
              ∙ ap some is3,
          subst (λ c. IsSegment py m m' index3 a c) reach seg3,
          λ x ge lt. same3 x (omega arith) lt ∙ same2 x (omega arith) (omega arith),
        )

    pub block_body :
        (b : ℕ) × (end ≤ b)
        × (b ≤ a + size_of m)
        × AllUsed m end b
        × IsFreeAt m b
        × Segmented a b index (
            migrate_last_cluster py m end (end_of_cluster m (size_of m) end) (
              migrate_range py m
                (end - a)
                a
                (initialize_in_new_meta (with_index m' index) a end, 0)))
    unfolding migrate_last_cluster
    block_body =
        let (b, found, beyond, near, used, last) = crossing in
        let (index1, count1, is1, seg1, zero1, same1) = to_end in
        elim (dec_lt end b) [
          | yes over ↦
              let (index2, count2, is2, seg2, same2) =
                past_end b over near used last index1 count1 seg1 in
              let test : ltb end b ≡ true = ground arith in
              (
                b,
                beyond,
                near,
                used,
                last,
                (
                  index2,
                  count2,
                  rw (found, is1, test) is2,
                  seg2,
                  λ x ge lt. inl (same2 x ge lt ∙ same1 x (omega arith) lt),
                ),
              )
          | no at ↦
              let e : end ≡ b = omega arith in
              let test : ltb end b ≡ false = ground arith in
              (
                b,
                beyond,
                near,
                used,
                last,
                (
                  index1,
                  count1,
                  rw (found, is1, test) refl,
                  subst (λ c. IsSegment py m m' index1 a c) e seg1,
                  λ x ge lt. elim (dec_lt x (2 * b + 2)) [
                    | yes low ↦ inr (zero1 x (omega arith) (omega arith) lt, low)
                    | no high ↦ inl (same1 x (omega arith) lt)
                  ],
                ),
              )
        ]

  -- The result of a block: nothing where it has no empty slot, and otherwise the slots that it
  -- covers.
  abbrev pub BlockResult : ℕ → (ℕ → ℕ) → Option (Meta × ℕ) → Type 0
  BlockResult start index result =
      (AllUsed m start (block_end m start) × (result ≡ some (with_index m' index, 0)))
      ⊎ ((a : ℕ) × (b : ℕ) × Covers m start a b × Segmented a b index result)

  pub block_wise_migrate-Segmented :
      (start : ℕ)
      → start < size_of m
      → (index : ℕ → ℕ)
      → BlockResult start index (block_wise_migrate py m (with_index m' index) start)
  unfolding block_wise_migrate
  block_wise_migrate-Segmented start within index =
      let ordered : start < block_end m start = ground arith in
      let inside : block_end m start ≤ size_of m = ground arith in
      let rounds = block_end m start - start in
      let a = first_empty m rounds start in
      let (from, to, leading, free) = first_empty_lem m rounds start in
      elim (dec_lt a (block_end m start)) [
        | yes before ↦
            let test : leb (block_end m start) a ≡ false = leb_lt a (block_end m start) before in
            let first = free (omega arith) in
            let (b, beyond, near, used, last, segmented) =
              block_body a (block_end m start) before inside first index in
            inr (
              a,
              b,
              record {
                from = from;
                inside = before;
                leading = leading;
                first = first;
                beyond = beyond;
                crossing = used;
                last = last;
                one_round = near;
              },
              rw test segmented,
            )
        | no full ↦
            let test : leb (block_end m start) a ≡ true = leb_ge a (block_end m start) full in
            inl (λ p ge lt. leading p ge (omega arith), rw test refl)
      ]
