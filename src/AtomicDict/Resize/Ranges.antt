-- ===== src/AtomicDict/Resize/Ranges.antt =====
-- The loops of `block_wise_migrate` over a stretch of slots (resize.c).
use cereggii.Common.{
  ℕ, zero, suc, ◌+◌, ◌-◌, ◌*◌, ◌%◌, ◌≤◌, ◌<◌, ◌≡◌, ◌≢◌, inl, inr, refl, ap, ◌∙◌, true, ◌||◌, arith,
  Bool-cases,
}
use mathlib.Core.Path.{subst}
use native.Mathlib.Nat.{mod-lt, one-le-pow}
use cereggii.AtomicDict.Runtime.{Runtime, IsLawful, Meta, size_of}
use cereggii.AtomicDict.Node.{is_empty, is_tombstone, distance0_of}
use cereggii.AtomicDict.Pages.{get_entry_at}
use cereggii.AtomicDict.Index.{node_at, IsLive}
use cereggii.AtomicDict.Lookup.Correct.{read_node_at-mod}
use cereggii.AtomicDict.Resize.{migrate_node, migrate_node_d0, migrate_slot, migrate_range}
use cereggii.AtomicDict.Resize.Clear.{with_index, word_at}
use cereggii.AtomicDict.Resize.Probe.{migrate_loop-Lands}
use cereggii.AtomicDict.Resize.Target.{target_lem, double}
use cereggii.AtomicDict.Resize.Segment.{IsMigration, IsSegment}
use cereggii.AtomicDict.Resize.Slots.{skip_slot, land_slot, past, other, index'}

module _ (py : Runtime) (lawful : IsLawful py) (m m' : Meta) (mig : IsMigration py m m') (a : ℕ)
    (free : is_empty (node_at m (a % size_of m)) ≡ true) where
  -- A segment up to `c`, with the words that belong to later slots kept.
  abbrev pub Extended : (ℕ → ℕ) → ℕ → Meta × ℕ → Type 0
  Extended index c s =
      (index' : ℕ → ℕ) × (count : ℕ) × (s ≡ (with_index m' index', count))
      × IsSegment py m m' index' a c
      × ((x : ℕ) → 2 * c ≤ x → x < 2 * a + size_of m' → word_at m' index' x ≡ word_at m' index x)

  -- Nothing is in an empty stretch.
  pub empty-IsSegment : (index : ℕ → ℕ) → IsSegment py m m' index a a
  empty-IsSegment index = record {
    lands = λ p ge lt live. absurd (omega arith);
    comes = λ p ge lt ne. absurd (omega arith);
    distinct = λ x y gx lx gy ly nx ny e. absurd (omega arith);
  }

  live_slot-Extends :
      (b : ℕ) (index : ℕ → ℕ) (count : ℕ)
      → a ≤ b
      → b < a + size_of m
      → b < 2 * size_of m
      → IsSegment py m m' index a b
      → ((x : ℕ) → 2 * b ≤ x → x < 2 * b + 2 → word_at m' index x ≡ 0)
      → IsLive m (b % size_of m)
      → Extended index
          (b + 1)
          (migrate_node py (node_at m (b % size_of m)) b m (with_index m' index), count)
  unfolding migrate_node migrate_node_d0 get_entry_at distance0_of
  live_slot-Extends b index count from near below seg clear live =
      let node = node_at m (b % size_of m) in
      let after = past py lawful m m' mig a b free from near below index seg clear live in
      let (start, lo, hi, home, aligned) =
        target_lem py m m' mig.good mig.grown mig.small a b free after near below live
          (ap (λ e. e.hash) (mig.entries (b % size_of m) live)) in
      let gap = 2 * b + 1 - start in
      let last : start + (0 + gap) ≡ 2 * b + 1 = omega arith in
      let few : gap < size_of m' = omega (arith, double m m' mig.grown) in
      let (k, le, empty, passed, result) =
        migrate_loop-Lands node m' index (migrate_node_d0 py node b m m') start aligned (size_of m')
          0 gap few
          (ap (λ t. word_at m' index t) last ∙ clear (2 * b + 1) (omega arith) (omega arith)) in
      let near_k : start + k < 2 * b + 2 = omega arith in
      let passed' : (j : ℕ) → j < k → word_at m' index (start + j) ≢ 0 =
        λ j lt. passed j (omega arith) lt in
      (
        index' py lawful m m' mig a b free from near below index seg clear live start k lo near_k
            home empty passed',
        count,
        ap (λ (t : Meta). (t, count)) result,
        land_slot py lawful m m' mig a b free from near below index seg clear live start k lo near_k
            home empty passed',
        λ x ge lt.
            other py lawful m m' mig a b free from near below index seg clear live start k lo near_k
              home empty passed' x (omega arith) lt (omega arith),
      )

  pub migrate_slot-Extends :
      (b : ℕ) (index : ℕ → ℕ) (count : ℕ)
      → a ≤ b
      → b < a + size_of m
      → b < 2 * size_of m
      → IsSegment py m m' index a b
      → ((x : ℕ) → 2 * b ≤ x → x < 2 * b + 2 → word_at m' index x ≡ 0)
      → Extended index (b + 1) (migrate_slot py m b (with_index m' index, count))
  unfolding migrate_slot
  migrate_slot-Extends b index count from near below seg clear =
      let node = node_at m (b % size_of m) in
      elim (Bool-cases (is_empty node || is_tombstone node)) [
        | inl dead ↦ (
          index,
          count,
          rw (read_node_at-mod, dead),
          skip_slot py lawful m m' mig a b free from near below index seg clear
              (λ live. ground (arith, live.filled, live.kept, dead)),
          λ x ge lt. refl,
        )
        | inr alive ↦
            rw (read_node_at-mod, alive)
              (live_slot-Extends b index (count + 1) from near below seg clear (record {
                within = mod-lt b (one-le-pow m.log_size 2 (omega arith));
                filled = ground arith;
                kept = ground arith;
              }))
      ]

  pub migrate_range-Extends :
      (rounds b : ℕ) (index : ℕ → ℕ) (count : ℕ)
      → a ≤ b
      → b + rounds ≤ a + size_of m
      → b + rounds ≤ 2 * size_of m
      → IsSegment py m m' index a b
      → ((x : ℕ) → 2 * b ≤ x → x < 2 * (b + rounds) → word_at m' index x ≡ 0)
      → Extended index (b + rounds) (migrate_range py m rounds b (with_index m' index, count))
  unfolding migrate_range
  migrate_range-Extends zero b index count from near below seg clear = (
    index,
    count,
    refl,
    subst (λ c. IsSegment py m m' index a c) {x = b} {y = b + 0} (omega arith) seg,
    λ x ge lt. refl,
  )
  migrate_range-Extends (suc rounds) b index count from near below seg clear =
      let (index1, count1, is, seg1, same1) =
        migrate_slot-Extends b index count from (omega arith) (omega arith) seg
          (λ x ge lt. clear x ge (omega arith)) in
      let (index2, count2, is', seg2, same2) =
        migrate_range-Extends rounds (b + 1) index1 count1 (omega arith) (omega arith) (omega arith)
          seg1
          (λ x ge lt.
            same1 x ge (omega (arith, double m m' mig.grown))
            ∙ clear x (omega arith) (omega arith)) in
      (
        index2,
        count2,
        ap (λ s. migrate_range py m rounds (b + 1) s) is ∙ is',
        subst (λ c. IsSegment py m m' index2 a c) {x = b + 1 + rounds} {y = b + suc rounds}
            (omega arith) seg2,
        λ x ge lt. same2 x (omega arith) lt ∙ same1 x (omega arith) lt,
      )
