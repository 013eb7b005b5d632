-- ===== src/AtomicInt/Inplace.antt =====
-- The in-place operators of an `AtomicInt64`: the `_internal` functions of
-- src/cereggii/atomic_int.c, which return the object itself. Its reference count is left out.
use cereggii.Common.{ℕ, ◌-◌, ◌^◌, bit_and, bit_or, bit_xor, none, some, if◌then◌else◌, ltb, ◌&&◌}
use cereggii.Common.Int.{ℤ, pos, negsuc, ◌==ℤ◌, rem_ℤ}
use cereggii.Common.Retry.{Outcome}
use cereggii.AtomicDict.Runtime.{Object}
use cereggii.AtomicInt.{
  int64_min, Exception, Checked, add_or_set_overflow, sub_or_set_overflow, mul_or_set_overflow,
  div_or_set_exception,
}
use cereggii.AtomicInt.Operations.{
  Operation, Interpreter, Done, done, attempt, update_loop, get, convert,
}

-- Two's complement: the 64-bit pattern of a number and the number of a pattern.
abbrev pub to_bits : ℤ → ℕ
to_bits (pos n) = n
to_bits (negsuc n) = 2 ^ 64 - 1 - n

abbrev pub from_bits : ℕ → ℤ
from_bits w = if ltb w (2 ^ 63) then pos w else negsuc (2 ^ 64 - 1 - w)

-- C's `%`, which is undefined where the quotient overflows.
abbrev pub remainder : ℤ → ℤ → Checked
remainder amount current =
    if current ==ℤ int64_min && amount ==ℤ negsuc 0
    then Checked.failure Exception.undefined
    else Checked.result (rem_ℤ current amount)

abbrev bitwise : (ℕ → ℕ → ℕ) → ℤ → ℤ → Checked
bitwise f amount current = Checked.result (from_bits (f (to_bits current) (to_bits amount)))

module _ (py : Interpreter) where
  -- The operand is converted once, before the loop.
  abbrev pub with_amount : (ℤ → Operation Done) → Object → Operation Done
  with_amount loop other others word = elim (convert py (some other)) [
    | Checked.result amount ↦ loop amount others word
    | Checked.failure e ↦ (Outcome.fails e, word, others)
  ]

  unfoldable pub inplace_add : Object → Operation Done
  inplace_add = with_amount (λ amount.
      update_loop (λ current. attempt (add_or_set_overflow (get current) amount) (λ _. done)))

  unfoldable pub inplace_subtract : Object → Operation Done
  inplace_subtract = with_amount (λ amount.
      update_loop (λ current. attempt (sub_or_set_overflow (get current) amount) (λ _. done)))

  unfoldable pub inplace_multiply : Object → Operation Done
  inplace_multiply = with_amount (λ amount.
      update_loop (λ current. attempt (mul_or_set_overflow (get current) amount) (λ _. done)))

  unfoldable pub inplace_floor_divide : Object → Operation Done
  inplace_floor_divide = with_amount (λ amount.
      update_loop (λ current. attempt (div_or_set_exception (get current) amount) (λ _. done)))

  abbrev remainder_loop : ℤ → Operation Done
  remainder_loop amount others word =
      if amount ==ℤ pos 0
      then (Outcome.fails Exception.zero_division_error, word, others)
      else update_loop (λ current. attempt (remainder amount (get current)) (λ _. done)) others word

  unfoldable pub inplace_remainder : Object → Operation Done
  inplace_remainder = with_amount remainder_loop

  unfoldable pub inplace_and : Object → Operation Done
  inplace_and = with_amount (λ amount.
      update_loop (λ current. attempt (bitwise bit_and amount (get current)) (λ _. done)))

  unfoldable pub inplace_xor : Object → Operation Done
  inplace_xor = with_amount (λ amount.
      update_loop (λ current. attempt (bitwise bit_xor amount (get current)) (λ _. done)))

  unfoldable pub inplace_or : Object → Operation Done
  inplace_or =
      with_amount (λ amount.
        update_loop (λ current. attempt (bitwise bit_or amount (get current)) (λ _. done)))

  -- CPython's power of the current value, computed again in every round.
  abbrev pub powered : Object → Object → ℤ → Checked
  powered other modulus current = elim (py.from_int64 current) [
    | none ↦ Checked.failure Exception.raised
    | some py_current ↦ elim (py.number_power py_current other modulus) [
      | none ↦ Checked.failure Exception.raised
      | some py_desired ↦ convert py (some py_desired)
    ]
  ]

  unfoldable pub inplace_power : Object → Object → Operation Done
  inplace_power other modulus =
      update_loop (λ current. attempt (powered other modulus (get current)) (λ _. done))
