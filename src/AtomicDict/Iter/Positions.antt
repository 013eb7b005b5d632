-- ===== src/AtomicDict/Iter/Positions.antt =====
-- Where an iteration goes from an entry (src/cereggii/atomic_dict/iter.c).
use cereggii.Common.{
  ℕ, ◌+◌, ◌-◌, ◌*◌, ◌%◌, ◌^◌, ◌≤◌, ◌<◌, bit_and, true, false, if◌then◌else◌, ◌==◌, ◌≡◌, ap, ◌∙◌,
  arith,
}
use cereggii.Common.Bits.{and_mask, and_field}
use cereggii.AtomicDict.Iter.{entries_of, next_position}

-- With fewer than 2 ^ 24 partitions no product overflows.
pub entries_of-eq : (n : ℕ) → n < 2 ^ 24 → entries_of n ≡ n * 128
unfolding entries_of
entries_of-eq n few = ground arith

-- Where the next round looks.
module _ (partitions : ℕ) (some_partition : 1 ≤ partitions) (few : partitions < 2 ^ 24) where
  pub next_within :
      (page i : ℕ) → i < 127 → next_position partitions (page * 128 + i) ≡ page * 128 + (i + 1)
  unfolding next_position
  next_within page i lt =
      let test : (bit_and (page * 128 + i + 1) 127 == 0) ≡ false =
        ground (arith, and_mask 7 (page * 128 + i + 1)) in
      ap
        (λ b.
          if b
          then (bit_and (page * 128 + i) (2 ^ 64 - 128) + entries_of partitions) % 2 ^ 64
          else page * 128 + i + 1)
        test
      ∙ (let e : page * 128 + i + 1 ≡ page * 128 + (i + 1) = omega arith in e)

  pub next_page :
      (page : ℕ)
      → page < 2 ^ 56
      → next_position partitions (page * 128 + 127) ≡ (page + partitions) * 128
  unfolding next_position
  next_page page small =
      let test : (bit_and (page * 128 + 127 + 1) 127 == 0) ≡ true =
        ground (arith, and_mask 7 (page * 128 + 127 + 1)) in
      ap
        (λ b.
          if b
          then (bit_and (page * 128 + 127) (2 ^ 64 - 128) + entries_of partitions) % 2 ^ 64
          else page * 128 + 127 + 1)
        test
      ∙ (let e : (bit_and (page * 128 + 127) (2 ^ 64 - 128) + entries_of partitions) % 2 ^ 64
              ≡ (page + partitions) * 128 =
            omega (arith, and_field 7 57 (page * 128 + 127), entries_of-eq partitions few) in
          e)
