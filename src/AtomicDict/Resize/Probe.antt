-- ===== src/AtomicDict/Resize/Probe.antt =====
-- The loop of `migrate_node` writes the first empty slot from its start on (resize.c).
use cereggii.Common.{
  ℕ, zero, suc, ◌+◌, ◌-◌, ◌%◌, ◌≤◌, ◌<◌, ◌≡◌, ◌≢◌, refl, sym, ap, ◌∙◌, arith, bit_and, update, ◌==◌,
  false,
}
use cereggii.Common.Bits.{and_mask}
use native.Mathlib.Nat.{mod-mod}
use native.Mathlib.Decide.{ℕ_discrete}
use cereggii.AtomicDict.Runtime.{Node, Meta, size_of}
use cereggii.AtomicDict.Node.{read_raw_node_at, compute_raw_node, write_node_at}
use cereggii.AtomicDict.Resize.{migrate_loop}
use cereggii.AtomicDict.Resize.Clear.{with_index, word_at}

-- The word of a node at a distance from its first slot.
abbrev pub word_of : Meta → Node → ℕ → ℕ
word_of m node distance = (compute_raw_node (record node { distance = distance }) m).node

module _ (node : Node) (m : Meta) (index : ℕ → ℕ) (d0 start : ℕ)
    (aligned : (j : ℕ) → (d0 + j) % size_of m ≡ (start + j) % size_of m) where
  position-eq :
      (distance : ℕ) → bit_and (d0 + distance) (size_of m - 1) ≡ (start + distance) % size_of m
  position-eq distance = and_mask m.log_size (d0 + distance) ∙ aligned distance

  read-eq :
      (distance : ℕ)
      → read_raw_node_at (bit_and (d0 + distance) (size_of m - 1)) (with_index m index)
        ≡ word_at m index (start + distance)
  unfolding read_raw_node_at
  read-eq distance = ap index (
      and_mask m.log_size _
      ∙ ap (λ (t : ℕ). t % size_of m) (position-eq distance)
      ∙ mod-mod (start + distance) (size_of m))

  -- With an empty slot `gap` places on, the node lands at that one or an empty one before it, and
  -- the slots that were passed are in use.
  pub migrate_loop-Lands :
      (rounds distance gap : ℕ)
      → gap < rounds
      → word_at m index (start + (distance + gap)) ≡ 0
      → (k : ℕ) × (k ≤ distance + gap)
        × (word_at m index (start + k) ≡ 0)
        × ((j : ℕ) → distance ≤ j → j < k → word_at m index (start + j) ≢ 0)
        × (migrate_loop node d0 (with_index m index) rounds distance
            ≡ with_index m (update index ((start + k) % size_of m) (word_of m node k)))
  unfolding migrate_loop write_node_at compute_raw_node
  migrate_loop-Lands zero distance gap lt free = absurd (omega arith)
  migrate_loop-Lands (suc rounds) distance gap lt free =
      elim (ℕ_discrete (word_at m index (start + distance)) 0) [
        | yes here ↦ (
          distance,
          omega arith,
          here,
          λ j le below. absurd (omega arith),
          rw (read-eq distance, here, position-eq distance) refl,
        )
        | no used ↦
            let ne : gap ≢ 0 = λ e. used (
              ap (λ (t : ℕ). word_at m index (start + t)) {x = distance} {y = distance + gap}
                (omega arith)
              ∙ free) in
            let (k, le, is, passed, result) =
              migrate_loop-Lands rounds (distance + 1) (gap - 1) (omega arith) (
                ap (λ (t : ℕ). word_at m index (start + t)) {x = distance + 1 + (gap - 1)}
                  {y = distance + gap} (omega arith)
                ∙ free) in
            (
              k,
              omega arith,
              is,
              λ j from below. elim (ℕ_discrete j distance) [
                | yes e ↦ λ z. used (ap (λ (t : ℕ). word_at m index (start + t)) (sym e) ∙ z)
                | no other ↦ passed j (omega arith) below
              ],
              let more : (word_at m index (start + distance) == 0) ≡ false = ground arith in
                  rw (read-eq distance, more) result,
            )
      ]
