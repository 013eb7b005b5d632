-- ===== src/Tests/Integers.antt =====
-- A word of 64 bits, an operation on it, and another thread that writes it between the load and the
-- swap.
use cereggii.Common.{◌+◌, ◌==◌, ◌^◌, [], ◌∷◌, none, some, ◌≡◌, refl, if◌then◌else◌, ltb}
use cereggii.Common.Int.{pos, negsuc, ◌+ℤ◌, ◌-ℤ◌, ◌*ℤ◌, quot_ℤ, rem_ℤ}
use cereggii.Common.Retry.{Outcome, retry}
use cereggii.AtomicInt.{
  int64_min, fits_int64, Exception, Checked, int64_max, add_or_set_overflow,
  add_or_set_overflow_portable, mul_or_set_overflow, mul_or_set_overflow_portable,
  div_or_set_exception,
}
use cereggii.AtomicInt.Overflow.{add_portable-eq, mul_portable-eq, div_exact}
use cereggii.AtomicInt.Operations.{
  Interpreter, done, get, increment_and_get, get_and_increment, decrement_and_get,
  get_and_decrement, get_and_update, update_and_get,
}
use cereggii.AtomicInt.Callables.{
  increment_and_get_callable, get_and_increment_callable, decrement_and_get_callable,
  get_and_decrement_callable,
}
use cereggii.AtomicInt.Inplace.{
  inplace_add, inplace_subtract, inplace_multiply, inplace_floor_divide, inplace_remainder,
}
use cereggii.AtomicInt.Linear.{Implements, exact_or_overflow}
use cereggii.AtomicInt.Linear.Operators.{
  counting-Implements, updating-Implements, inplace-Implements, dividing-Implements, divided,
  updated, dividing_by_zero,
}
use cereggii.AtomicInt.Linear.Range.{Keeps, counting-Keeps}
use cereggii.AtomicInt.Linear.Methods.{counted, methods-Implement}

-- An object below 500 is its own number, and `None` is 999.
abbrev toy : Interpreter
toy = record {
  as_int64 =
      λ x. if ltb x 500 then Checked.result (pos x) else Checked.failure Exception.overflow_error;
  from_int64 = λ z. elim z [ pos n ↦ some n | negsuc n ↦ none ];
  call_one = λ callable x. some (x + callable);
  number_power = λ x y z. some (x ^ y);
  is_none = λ x. x == 999;
}

-- The other thread stores 40 after the load, so the sum is computed again.
lost_swap :
    increment_and_get (pos 2) (none ∷ some (pos 40) ∷ []) (pos 5)
    ≡ (Outcome.returns (pos 42), pos 42, [])
unfolding increment_and_get get add_or_set_overflow retry ◌+ℤ◌
lost_swap = refl

counting-Implements_example :
    Implements
      (increment_and_get (pos 2))
      (exact_or_overflow (λ current. current +ℤ pos 2) (λ current. current +ℤ pos 2))
    × Implements
        (get_and_increment (pos 2))
        (exact_or_overflow (λ current. current +ℤ pos 2) (λ current. current))
    × Implements
        (decrement_and_get (pos 2))
        (exact_or_overflow (λ current. current -ℤ pos 2) (λ current. current -ℤ pos 2))
    × Implements
        (get_and_decrement (pos 2))
        (exact_or_overflow (λ current. current -ℤ pos 2) (λ current. current))
counting-Implements_example = counting-Implements (pos 2)

counting-Keeps_example :
    Keeps (increment_and_get (pos 2))
    × Keeps (get_and_increment (pos 2))
    × Keeps (decrement_and_get (pos 2))
    × Keeps (get_and_decrement (pos 2))
counting-Keeps_example = counting-Keeps (pos 2)

updating-Implements_example :
    Implements (get_and_update toy 3) (updated toy 3 (λ current desired. current))
    × Implements (update_and_get toy 3) (updated toy 3 (λ current desired. desired))
updating-Implements_example = updating-Implements toy 3

inplace-Implements_example :
    Implements
      (inplace_add toy 7)
      (exact_or_overflow (λ current. current +ℤ pos 7) (λ current. done))
    × Implements
        (inplace_subtract toy 7)
        (exact_or_overflow (λ current. current -ℤ pos 7) (λ current. done))
    × Implements
        (inplace_multiply toy 7)
        (exact_or_overflow (λ current. current *ℤ pos 7) (λ current. done))
inplace-Implements_example = inplace-Implements toy 7 (pos 7) refl

dividing-Implements_example :
    Implements (inplace_floor_divide toy 7) (divided quot_ℤ (pos 7))
    × Implements (inplace_remainder toy 7) (divided rem_ℤ (pos 7))
dividing-Implements_example = dividing-Implements toy 7 (pos 7) refl refl

dividing_by_zero_example :
    Implements
      (inplace_floor_divide toy 0)
      (λ current. (Outcome.fails Exception.zero_division_error, current))
    × Implements
        (inplace_remainder toy 0)
        (λ current. (Outcome.fails Exception.zero_division_error, current))
dividing_by_zero_example = dividing_by_zero toy 0 refl

methods-Implement_example :
    Implements
      (increment_and_get_callable toy none)
      (counted toy (λ current. current +ℤ pos 1) (λ current. current +ℤ pos 1))
    × Implements
        (get_and_increment_callable toy none)
        (counted toy (λ current. current +ℤ pos 1) (λ current. current))
    × Implements
        (decrement_and_get_callable toy none)
        (counted toy (λ current. current -ℤ pos 1) (λ current. current -ℤ pos 1))
    × Implements
        (get_and_decrement_callable toy none)
        (counted toy (λ current. current -ℤ pos 1) (λ current. current))
methods-Implement_example = methods-Implement toy none (pos 1) refl

add_portable-eq_example :
    add_or_set_overflow_portable int64_max (pos 1) ≡ add_or_set_overflow int64_max (pos 1)
add_portable-eq_example = add_portable-eq int64_max (pos 1) refl refl

div_exact_example : div_or_set_exception int64_min (negsuc 0) ≡ (
    if fits_int64 (quot_ℤ int64_min (negsuc 0))
    then Checked.result (quot_ℤ int64_min (negsuc 0))
    else Checked.failure Exception.undefined)
div_exact_example = div_exact int64_min (negsuc 0) refl refl

mul_portable-eq_example :
    mul_or_set_overflow_portable (negsuc 6) (pos 9) ≡ mul_or_set_overflow (negsuc 6) (pos 9)
mul_portable-eq_example = mul_portable-eq (negsuc 6) (pos 9)
