-- ===== src/AtomicInt/Overflow.antt =====
-- The portable overflow tests agree with the intrinsics, and division is undefined exactly
-- when the quotient has none of the 64-bit values (src/cereggii/atomic_int.c).
use cereggii.Common.{
  ltb, inl, inr, sym, ◌↔◌, ◌∙◌, Bool-cases, ℕ, zero, suc, ◌-◌, ◌*◌, ◌/◌, ◌^◌, ◌≤◌, ◌<◌, true, false,
  ◌≡◌, arith, if◌then◌else◌,
}
use cereggii.Common.Int.{ℤ, pos, negsuc, ◌*ℤ◌, ◌==ℤ◌, +ℤ_parts, -ℤ_parts, quot_ℤ}
use native.Mathlib.Nat.{div-le_self, div-le_of_le-mul, div-one, div-lt_iff_lt-mul}
use native.Mathlib.Decide.{ℕ_discrete, dec_lt}
use cereggii.AtomicInt.{
  int64_min, int64_max, fits_int64, Exception, Checked, add_or_set_overflow, sub_or_set_overflow,
  add_or_set_overflow_portable, sub_or_set_overflow_portable, div_or_set_exception,
  mul_or_set_overflow, mul_or_set_overflow_portable,
}

-- The portable test of an addition of two 64-bit integers is exact.
pub add_portable-eq :
    (a b : ℤ)
    → fits_int64 a ≡ true
    → fits_int64 b ≡ true
    → add_or_set_overflow_portable a b ≡ add_or_set_overflow a b
unfolding add_or_set_overflow_portable add_or_set_overflow
add_portable-eq a b ha hb = ground (arith, +ℤ_parts a b, -ℤ_parts int64_max b, -ℤ_parts int64_min b)

-- The portable test of a subtraction of two 64-bit integers is exact.
pub sub_portable-eq :
    (a b : ℤ)
    → fits_int64 a ≡ true
    → fits_int64 b ≡ true
    → sub_or_set_overflow_portable a b ≡ sub_or_set_overflow a b
unfolding sub_or_set_overflow_portable sub_or_set_overflow
sub_portable-eq a b ha hb = ground (arith, -ℤ_parts a b, +ℤ_parts int64_max b, +ℤ_parts int64_min b)

-- For 64-bit integers and a divisor other than zero, division is undefined in C exactly when the
-- quotient, rounded towards zero, does not fit 64 bits, and otherwise gives the quotient.
pub div_exact :
    (a b : ℤ)
    → fits_int64 a ≡ true
    → (b ==ℤ pos 0) ≡ false
    → div_or_set_exception a b ≡ (
        if fits_int64 (quot_ℤ a b)
        then Checked.result (quot_ℤ a b)
        else Checked.failure Exception.undefined)
unfolding div_or_set_exception quot_ℤ
div_exact (pos a) (pos b) ha hb = ground (arith, div-le_self a b)
div_exact (pos a) (negsuc b) ha hb = ground (arith, div-le_self a (suc b))
div_exact (negsuc a) (pos b) ha hb = ground (arith, div-le_self (suc a) b)
div_exact (negsuc a) (negsuc b) ha hb = elim (ℕ_discrete b 0) [
  | yes one ↦ ground (arith, one, div-one (suc a))
  | no more ↦
      let fits : suc a ≤ 2 ^ 63 = ground arith in
      let half : suc a / suc b ≤ 2 ^ 62 = div-le_of_le-mul (suc b) (omega arith) in
      ground (arith, half)
]

quotient_test : (x k y : ℕ) → 0 < k → (ltb (x / k) y ≡ true) ↔ (ltb x (y * k) ≡ true)
quotient_test x k y h =
    let iff = div-lt_iff_lt-mul {k = k} {x = x} {y = y} h in
    (
      (λ t. let below = iff.0 (ground arith) in ground arith),
      (λ t. let below = iff.1 (ground arith) in ground arith),
    )

quotient_eq : (x k y : ℕ) → 0 < k → ltb (x / k) y ≡ ltb x (y * k)
quotient_eq x k y h =
    let iff = quotient_test x k y h in
    elim (Bool-cases (ltb (x / k) y)) [
      | inl t ↦ t ∙ sym (iff.0 t)
      | inr f ↦ elim (Bool-cases (ltb x (y * k))) [
        | inl t ↦ absurd (cc (iff.1 t, f))
        | inr f' ↦ f ∙ sym f'
      ]
    ]

-- The portable test of a multiplication is exact.
pub mul_portable-eq : (a b : ℤ) → mul_or_set_overflow_portable a b ≡ mul_or_set_overflow a b
unfolding mul_or_set_overflow_portable mul_or_set_overflow quot_ℤ ◌*ℤ◌
mul_portable-eq (pos zero) (pos b) = ground arith
mul_portable-eq (pos (suc a)) (pos zero) = ground (arith)
mul_portable-eq (pos (suc a)) (pos (suc b)) =
    ground (arith, quotient_eq (2 ^ 63 - 1) (suc b) (suc a))
mul_portable-eq (pos zero) (negsuc b) = ground arith
mul_portable-eq (pos (suc a)) (negsuc b) = elim (dec_lt (2 ^ 63) (suc b * suc a)) [
  | yes over ↦
      let test : 2 ^ 63 / suc a < suc b =
        (div-lt_iff_lt-mul {k = suc a} {x = 2 ^ 63} {y = suc b} (omega arith)).1 over in
      ground (arith, test)
  | no fits ↦
      let test : ¬ (2 ^ 63 / suc a < suc b) =
        λ t. fits ((div-lt_iff_lt-mul {k = suc a} {x = 2 ^ 63} {y = suc b} (omega arith)).0 t) in
      ground (arith, test)
]
mul_portable-eq (negsuc a) (pos zero) = ground arith
mul_portable-eq (negsuc a) (pos (suc b)) = ground (arith, quotient_eq (2 ^ 63) (suc b) (suc a))
mul_portable-eq (negsuc a) (negsuc b) = elim (dec_lt (2 ^ 63 - 1) (suc b * suc a)) [
  | yes over ↦
      let test : ltb ((2 ^ 63 - 1) / suc a) (suc b) ≡ true =
        quotient_eq (2 ^ 63 - 1) (suc a) (suc b) (omega arith) ∙ ground arith in
      ground (arith, test)
  | no fits ↦
      let test : ltb ((2 ^ 63 - 1) / suc a) (suc b) ≡ false =
        quotient_eq (2 ^ 63 - 1) (suc a) (suc b) (omega arith) ∙ ground arith in
      ground (arith, test)
]
