-- ===== src/AtomicDict/Init/Sizes.antt =====
-- The size of a new index is the least power of two that is asked for
-- (src/cereggii/atomic_dict/atomic_dict.c).
use cereggii.Common.{
  ℕ, zero, suc, ◌+◌, ◌*◌, ◌/◌, ◌^◌, ◌≤◌, ◌<◌, ◌==◌, ◌≡◌, sym, ap, ◌∙◌, arith, inl, inr, ltb,
  Bool-cases,
}
use native.Mathlib.Nat.{mul_comm, mul_assoc, mul-le-mul_right, pow-le-pow_right}
use native.Mathlib.Decide.{dec_lt}
use cereggii.Common.Bits.{pow_add}
use cereggii.AtomicDict.Init.{halvings, log_size_for}

-- After `log_size` halvings of a number, its rest is what is given, and the loop ends at the
-- number's binary logarithm.
halvings-log :
    (whole rounds size log_size : ℕ)
    → 1 ≤ size
    → size < 2 ^ rounds
    → size * 2 ^ log_size ≤ whole
    → whole < (size + 1) * 2 ^ log_size
    → (2 ^ halvings rounds size log_size ≤ whole) × (whole < 2 * 2 ^ halvings rounds size log_size)
unfolding halvings
halvings-log whole zero size log_size positive bound low high = absurd (omega arith)
halvings-log whole (suc rounds) size log_size positive bound low high =
    elim (Bool-cases (size / 2 == 0)) [
      | inl done ↦
          let one : size ≡ 1 = ground arith in
          rw (halvings, done) (ground (arith, one), ground (arith, one))
      | inr more ↦
          let step = pow_add log_size 1 in
          let doubled : (n : ℕ) → n * 2 ^ (log_size + 1) ≡ n * 2 * 2 ^ log_size = λ n.
            ap (λ (t : ℕ). n * t) (step ∙ mul_comm (2 ^ log_size) 2)
            ∙ sym (mul_assoc n 2 (2 ^ log_size)) in
          let twice = doubled (size / 2) in
          let up = doubled (size / 2 + 1) in
          let half : 1 ≤ size / 2 = ground arith in
          rw (halvings, more)
            (halvings-log whole rounds (size / 2) (log_size + 1) half (omega arith)
              (omega (
                arith,
                twice,
                mul-le-mul_right {m = size / 2 * 2} {n = size} (2 ^ log_size) (omega arith),
              ))
              (omega (
                arith,
                up,
                mul-le-mul_right {m = size + 1} {n = (size / 2 + 1) * 2} (2 ^ log_size)
                    (omega arith),
              )))
    ]

-- For a size from 1 to 2 ^ 63, the index fits the size and no smaller power of two does.
pub log_size_for-least :
    (size : ℕ)
    → 1 ≤ size
    → size ≤ 2 ^ 63
    → (size ≤ 2 ^ log_size_for size) × ((log : ℕ) → size ≤ 2 ^ log → log_size_for size ≤ log)
unfolding log_size_for
log_size_for-least size positive bound =
    let l = halvings 64 size 0 in
    let (below, above) =
      halvings-log size 64 size 0 positive (omega arith) (omega arith) (omega arith) in
    let grows : (log : ℕ) → log < l → 2 ^ log * 2 ≤ 2 ^ l = λ log lt.
      let up : 2 ^ (log + 1) ≤ 2 ^ l = pow-le-pow_right (omega arith) (omega arith) in
      omega (arith, up, pow_add log 1) in
    let next = pow_add l 1 in
    elim (Bool-cases (ltb (2 ^ l) size)) [
      | inl more ↦ rw more (
        omega (arith, above, next),
        λ log fits. elim (dec_lt log (l + 1)) [
          | yes low ↦
              let same : 2 ^ log ≤ 2 ^ l = pow-le-pow_right (omega arith) (omega arith) in
              absurd (ground (arith, same))
          | no high ↦ omega arith
        ],
      )
      | inr enough ↦ rw enough (
        ground arith,
        λ log fits. elim (dec_lt log l) [
          | yes low ↦ absurd (omega (arith, grows log low))
          | no high ↦ omega arith
        ],
      )
    ]
