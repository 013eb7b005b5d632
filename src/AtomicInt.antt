-- ===== src/AtomicInt.antt =====
-- `AtomicInt64`: src/cereggii/atomic_int.c. The checked arithmetic is below, the operations in the
-- children.
pub mod Overflow
pub mod Operations
pub mod Inplace
pub mod Callables
pub mod Linear
pub mod Threads
use cereggii.Common.{
  ℕ, ◌-◌, ◌^◌, Bool, true, false, not, ◌&&◌, ◌||◌, Option, some, none, if◌then◌else◌,
}
use cereggii.Common.Int.{ℤ, pos, negsuc, ◌+ℤ◌, ◌-ℤ◌, ◌*ℤ◌, leb_ℤ, ltb_ℤ, ◌==ℤ◌, quot_ℤ}

-- `INT64_MAX` and `INT64_MIN`.
abbrev pub int64_max : ℤ
int64_max = pos (2 ^ 63 - 1)

abbrev pub int64_min : ℤ
int64_min = negsuc (2 ^ 63 - 1)

abbrev pub fits_int64 : ℤ → Bool
fits_int64 z = leb_ℤ int64_min z && leb_ℤ z int64_max

-- The exception that a failed operation leaves set; `undefined` is none, but where C leaves what happens
-- undefined: a processor may stop the program.
pub data Exception : Type 0 where
  overflow_error zero_division_error raised undefined : Exception

-- `AtomicInt64_AddOrSetOverflow` and its like give a result, or set an exception.
pub data Checked : Type 0 where
  result : ℤ → Checked
  failure : Exception → Checked

-- The `__builtin_*_overflow` intrinsics report whether the exact result fits 64 bits.
abbrev pub check : ℤ → Checked
check z = if fits_int64 z then Checked.result z else Checked.failure overflow_error

unfoldable pub add_or_set_overflow : ℤ → ℤ → Checked
add_or_set_overflow current to_add = check (current +ℤ to_add)

unfoldable pub sub_or_set_overflow : ℤ → ℤ → Checked
sub_or_set_overflow current to_sub = check (current -ℤ to_sub)

unfoldable pub mul_or_set_overflow : ℤ → ℤ → Checked
mul_or_set_overflow current to_mul = check (current *ℤ to_mul)

-- The branches for compilers without the intrinsics, tested before anything is computed.
unfoldable pub add_or_set_overflow_portable : ℤ → ℤ → Checked
add_or_set_overflow_portable current to_add =
    if (ltb_ℤ (pos 0) to_add && ltb_ℤ (int64_max -ℤ to_add) current)
      || (ltb_ℤ to_add (pos 0) && ltb_ℤ current (int64_min -ℤ to_add))
    then Checked.failure overflow_error
    else Checked.result (current +ℤ to_add)

unfoldable pub sub_or_set_overflow_portable : ℤ → ℤ → Checked
sub_or_set_overflow_portable current to_sub =
    if (ltb_ℤ to_sub (pos 0) && ltb_ℤ (int64_max +ℤ to_sub) current)
      || (ltb_ℤ (pos 0) to_sub && ltb_ℤ current (int64_min +ℤ to_sub))
    then Checked.failure overflow_error
    else Checked.result (current -ℤ to_sub)

abbrev mul_overflows : ℤ → ℤ → Bool
mul_overflows current to_mul =
    if ltb_ℤ (pos 0) current
    then if ltb_ℤ (pos 0) to_mul
      then ltb_ℤ (quot_ℤ int64_max to_mul) current
      else ltb_ℤ to_mul (quot_ℤ int64_min current)
    else if ltb_ℤ (pos 0) to_mul
    then ltb_ℤ current (quot_ℤ int64_min to_mul)
    else not (current ==ℤ pos 0) && ltb_ℤ to_mul (quot_ℤ int64_max current)

unfoldable pub mul_or_set_overflow_portable : ℤ → ℤ → Checked
mul_or_set_overflow_portable current to_mul =
    if mul_overflows current to_mul
    then Checked.failure overflow_error
    else Checked.result (current *ℤ to_mul)

-- C divides towards zero. The quotient is computed before the overflow is reported, and where it
-- overflows that is undefined: the report is not reached.
unfoldable pub div_or_set_exception : ℤ → ℤ → Checked
div_or_set_exception current to_div =
    if to_div ==ℤ pos 0
    then Checked.failure zero_division_error
    else if current ==ℤ int64_min && to_div ==ℤ negsuc 0
    then Checked.failure undefined
    else Checked.result (quot_ℤ current to_div)
