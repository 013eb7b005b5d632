-- ===== src/Common/Bits.antt =====
-- The bit operations of C on unsigned words, as arithmetic at every width.
use Prim.Native.Nat.{
  ℕ, zero, suc, ◌+◌, ◌-◌, ◌*◌, ◌/◌, ◌%◌, ◌^◌, ◌≤◌, ◌<◌, min, max, bit_and, bit_or, digits,
  bit_and-bitwise, bit_or-bitwise,
}
use mathlib.Core.Path.{◌≡◌, refl, ap, ◌∙◌}
use native.Mathlib.Nat.{
  pow-suc, one-le-pow, mul_assoc, mul_comm, mod-eq_of_lt, add-mul-mod_self_left, div-add-mod,
  add-mul-div_left, mod-lt, le_refl, div-div-eq-div-mul, div-eq_of_lt, mul-le-mul_left, mul-suc,
}
use native.Mathlib.Decide.{dec_lt}
use native.Mathlib.Omega.{arith}

pub pow_add : (a b : ℕ) → 2 ^ (a + b) ≡ 2 ^ a * 2 ^ b
pow_add a zero = ground arith
pow_add a (suc b) =
    ground (arith, pow-suc 2 b, pow-suc 2 (a + b), pow_add a b, mul_assoc (2 ^ a) (2 ^ b) 2)

-- Division with remainder is unique.
pub mod_unique : (m q r : ℕ) → r < m → (r + m * q) % m ≡ r
mod_unique m q r h = rw (add-mul-mod_self_left r m q, mod-eq_of_lt h)

pub div_unique : (m q r : ℕ) → r < m → (r + m * q) / m ≡ q
div_unique m q r h =
    rw (add-mul-div_left r q {y = m} (omega arith)) (rw (div-eq_of_lt h) (omega arith))

module _ (z : ℕ → ℕ) (f : ℕ → ℕ → ℕ) where
  -- Two amounts of fuel that cover the first number give one result.
  digits_agree : (n m a b : ℕ) → a ≤ n → a ≤ m → digits z f n a b ≡ digits z f m a b
  digits_agree zero zero zero b p q = refl
  digits_agree zero (suc m) zero b p q = refl
  digits_agree (suc n) zero zero b p q = refl
  digits_agree (suc n) (suc m) zero b p q = refl
  digits_agree (suc n) (suc m) (suc a) b p q =
      let half = digits_agree n m (suc a / 2) (b / 2) (omega arith) (omega arith) in
      omega (arith, half)
  digits_agree n m (suc a) b p q = absurd (omega arith)

  digits_step :
      (a b : ℕ)
      → digits z f (suc a) (suc a) b
        ≡ digits z f (suc a / 2) (suc a / 2) (b / 2) * 2 + f (suc a % 2) (b % 2)
  digits_step a b =
      omega (arith, digits_agree a (suc a / 2) (suc a / 2) (b / 2) (omega arith) (le_refl _))

and_step : (a b : ℕ) → bit_and a b ≡ bit_and (a / 2) (b / 2) * 2 + min (a % 2) (b % 2)
and_step zero b = simp bit_and-bitwise (omega arith)
and_step (suc a) b = simp bit_and-bitwise (digits_step (λ _. 0) min a b)

or_step : (a b : ℕ) → bit_or a b ≡ bit_or (a / 2) (b / 2) * 2 + max (a % 2) (b % 2)
or_step zero b = simp bit_or-bitwise (omega arith)
or_step (suc a) b = simp bit_or-bitwise (digits_step (λ y. y) max a b)

and_zero_upto : (n a : ℕ) → a ≤ n → bit_and a 0 ≡ 0
and_zero_upto n zero h = rw (and_step 0 0) (omega (arith, bit_and-bitwise 0 0))
and_zero_upto zero (suc a) h = absurd (omega arith)
and_zero_upto (suc n) (suc a) h =
    omega (arith, and_step (suc a) 0, and_zero_upto n (suc a / 2) (omega arith))

or_zero_upto : (n a : ℕ) → a ≤ n → bit_or a 0 ≡ a
or_zero_upto n zero h = simp bit_or-bitwise refl
or_zero_upto zero (suc a) h = absurd (omega arith)
or_zero_upto (suc n) (suc a) h =
    omega (arith, or_step (suc a) 0, or_zero_upto n (suc a / 2) (omega arith))

-- One more binary digit of a remainder.
mod_two_pow : (k a : ℕ) → a % 2 ^ suc k ≡ a / 2 % 2 ^ k * 2 + a % 2
mod_two_pow k a =
    let p = 2 ^ k in
    let q = a / 2 / p in
    let r = a / 2 % p in
    let split : p * q + r ≡ a / 2 = div-add-mod (a / 2) p in
    let low : r < p = mod-lt (a / 2) (one-le-pow k 2 (omega arith)) in
    let whole : a ≡ (r * 2 + a % 2) + p * 2 * q =
      ground (arith, split, mul_assoc p 2 q, mul_comm 2 q, mul_assoc p q 2) in
    rw (pow-suc 2 k)
      (ap (λ (t : ℕ). t % (p * 2)) whole ∙ mod_unique (p * 2) q (r * 2 + a % 2) (omega arith))

-- A mask with one more binary one.
mask_suc : (k : ℕ) → ((2 ^ suc k - 1) / 2 ≡ 2 ^ k - 1) × ((2 ^ suc k - 1) % 2 ≡ 1)
mask_suc k = rw (pow-suc 2 k) (ground (arith, one-le-pow k 2), ground (arith, one-le-pow k 2))

-- `x & (2^k - 1)` is the remainder by `2^k`.
pub and_mask : (k a : ℕ) → bit_and a (2 ^ k - 1) ≡ a % 2 ^ k
and_mask zero a = omega (arith, and_zero_upto a a)
and_mask (suc k) a =
    rw
      (
        and_step a (2 ^ suc k - 1),
        (mask_suc k).0,
        (mask_suc k).1,
        and_mask k (a / 2),
        mod_two_pow k a,
      )
      (omega arith)

-- `x & ((2^m - 1) << k)` keeps the `m` digits above the lowest `k`.
pub and_field : (k m a : ℕ) → bit_and a ((2 ^ m - 1) * 2 ^ k) ≡ a / 2 ^ k % 2 ^ m * 2 ^ k
and_field zero m a = ground (arith, and_mask m a)
and_field (suc k) m a =
    let mask = (2 ^ m - 1) * 2 ^ k in
    let twice : (2 ^ m - 1) * 2 ^ suc k ≡ mask * 2 =
      ground (arith, pow-suc 2 k, mul_assoc (2 ^ m - 1) (2 ^ k) 2) in
    let inner = and_field k m (a / 2) in
    let shift : a / 2 / 2 ^ k ≡ a / 2 ^ suc k =
      div-div-eq-div-mul a 2 (2 ^ k) ∙ ap (λ (t : ℕ). a / t) (omega (arith, pow-suc 2 k)) in
    let top = a / 2 ^ suc k % 2 ^ m in
    let fold : top * 2 ^ suc k ≡ top * 2 ^ k * 2 =
      ground (arith, pow-suc 2 k, mul_assoc top (2 ^ k) 2) in
    let half : mask * 2 / 2 ≡ mask = omega arith in
    let even : mask * 2 % 2 ≡ 0 = omega arith in
    rw (twice, fold, and_step a (mask * 2), half, even, inner, shift) (omega arith)

-- `(q << k) | r` is a sum when `r` has at most `k` digits.
pub or_disjoint : (k q r : ℕ) → r < 2 ^ k → bit_or (q * 2 ^ k) r ≡ q * 2 ^ k + r
or_disjoint zero q r h = ground (arith, or_zero_upto q q)
or_disjoint (suc k) q r h =
    let twice : q * 2 ^ suc k ≡ q * 2 ^ k * 2 =
      ground (arith, pow-suc 2 k, mul_assoc q (2 ^ k) 2) in
    ground (
      arith,
      twice,
      or_step (q * 2 ^ suc k) r,
      pow-suc 2 k,
      or_disjoint k q (r / 2) (ground (arith, pow-suc 2 k)),
    )

or_comm_upto : (n a b : ℕ) → a ≤ n → b ≤ n → bit_or a b ≡ bit_or b a
or_comm_upto zero zero zero p q = refl
or_comm_upto zero zero (suc b) p q = absurd (omega arith)
or_comm_upto zero (suc a) b p q = absurd (omega arith)
or_comm_upto (suc n) a b p q =
    omega
      (arith, or_step a b, or_step b a, or_comm_upto n (a / 2) (b / 2) (omega arith) (omega arith))

-- The same sum with the low digits written first.
pub or_disjoint_low : (k q r : ℕ) → r < 2 ^ k → bit_or r (q * 2 ^ k) ≡ q * 2 ^ k + r
or_disjoint_low k q r h =
    or_comm_upto (r + q * 2 ^ k) r (q * 2 ^ k) (omega arith) (omega arith) ∙ or_disjoint k q r h

-- Fewer than `n` steps round a ring of `n` places do not come back.
pub ring_injective : (n start i j : ℕ) → i < n → j < n → (start + i) % n ≡ (start + j) % n → i ≡ j
ring_injective n start i j hi hj e =
    let di = div-add-mod (start + i) n in
    let dj = div-add-mod (start + j) n in
    let qi = (start + i) / n in
    let qj = (start + j) / n in
    elim (dec_lt qi qj) [
      | yes less ↦ absurd (omega (arith, mul-le-mul_left n less, mul-suc n qi, mul-suc n qj))
      | no ge ↦ elim (dec_lt qj qi) [
        | yes less ↦ absurd (omega (arith, mul-le-mul_left n less, mul-suc n qi, mul-suc n qj))
        | no le ↦
            let same : n * qi ≡ n * qj = ap (λ (q : ℕ). n * q) {x = qi} {y = qj} (omega arith) in
            omega arith
      ]
    ]
