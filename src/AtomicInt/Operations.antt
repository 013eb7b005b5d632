-- ===== src/AtomicInt/Operations.antt =====
-- The operations on the word of an `AtomicInt64` (src/cereggii/atomic_int.c). An operation takes
-- the writes of the other threads around its accesses; a result with an exception is a failure.
use cereggii.Common.{Bool, true, false, Option, none, some, if◌then◌else◌}
use cereggii.Common.Int.{ℤ, ◌==ℤ◌}
use cereggii.Common.Retry.{Attempt, Outcome, Others, retry}
use cereggii.AtomicDict.Runtime.{Object}
use cereggii.AtomicInt.{Exception, Checked, add_or_set_overflow, sub_or_set_overflow}

-- What is left of an operation: how it ended, the word, and the others' writes still to come.
abbrev pub Run : Type 0 → Type 0
Run R = Outcome R Exception × ℤ × Others ℤ

abbrev pub Operation : Type 0 → Type 0
Operation R = Others ℤ → ℤ → Run R

-- Fail, or swap the result in and reply.
abbrev pub attempt : {R : Type 0} → Checked → (ℤ → R) → Attempt ℤ R Exception
attempt (Checked.result desired) reply = Attempt.write desired (reply desired)
attempt (Checked.failure e) reply = Attempt.abort e

abbrev pub update_loop : {R : Type 0} → (ℤ → Attempt ℤ R Exception) → Operation R
update_loop body others word = retry body ◌==ℤ◌ others word

pub data Done : Type 0 where
  done : Done

unfoldable pub get : ℤ → ℤ
get word = word

unfoldable pub set : ℤ → Operation Done
set desired = update_loop (λ current. Attempt.write desired done)

unfoldable pub compare_and_set : ℤ → ℤ → ℤ → Bool × ℤ
compare_and_set expected desired word = if word ==ℤ expected then (true, desired) else (false, word)

unfoldable pub get_and_set : ℤ → ℤ → ℤ × ℤ
get_and_set desired word = (word, desired)

unfoldable pub increment_and_get : ℤ → Operation ℤ
increment_and_get other =
    update_loop (λ current. attempt (add_or_set_overflow (get current) other) (λ desired. desired))

unfoldable pub get_and_increment : ℤ → Operation ℤ
get_and_increment other =
    update_loop (λ current. attempt (add_or_set_overflow (get current) other) (λ desired. current))

unfoldable pub decrement_and_get : ℤ → Operation ℤ
decrement_and_get other =
    update_loop (λ current. attempt (sub_or_set_overflow (get current) other) (λ desired. desired))

unfoldable pub get_and_decrement : ℤ → Operation ℤ
get_and_decrement other =
    update_loop (λ current. attempt (sub_or_set_overflow (get current) other) (λ desired. current))

-- CPython's conversions, and a call of an object with one argument; `none` is NULL. A conversion
-- to C fails, or gives a number of 64 bits.
pub record Interpreter : Type 0 where
  pub as_int64 : Object → Checked
  pub from_int64 : ℤ → Option Object
  pub call_one : Object → Object → Option Object
  pub number_power : Object → Object → Object → Option Object
  pub is_none : Object → Bool

module _ (py : Interpreter) where
  unfoldable pub convert : Option Object → Checked
  convert none = Checked.failure Exception.raised
  convert (some py_integer) = py.as_int64 py_integer

  -- What a round of the update loops computes: the callable on the current value.
  abbrev pub called : Object → ℤ → Checked
  called callable current = elim (py.from_int64 current) [
    | none ↦ Checked.failure Exception.raised
    | some py_current ↦ convert (py.call_one callable py_current)
  ]

  unfoldable pub get_and_update : Object → Operation ℤ
  get_and_update callable =
      update_loop (λ current. attempt (called callable (get current)) (λ desired. current))

  unfoldable pub update_and_get : Object → Operation ℤ
  update_and_get callable =
      update_loop (λ current. attempt (called callable (get current)) (λ desired. desired))
