-- ===== src/AtomicInt/Callables.antt =====
-- The methods that Python calls on an `AtomicInt64`: the `_callable` functions of
-- src/cereggii/atomic_int.c. An argument that Python left out is `none`.
use cereggii.Common.{Bool, Option, none, some, if◌then◌else◌}
use cereggii.Common.Int.{ℤ, pos}
use cereggii.Common.Retry.{Outcome}
use cereggii.AtomicDict.Runtime.{Object}
use cereggii.AtomicInt.{Exception, Checked}
use cereggii.AtomicInt.Operations.{
  Operation, Run, Interpreter, Done, convert, get, set, compare_and_set, get_and_set,
  increment_and_get, get_and_increment, decrement_and_get, get_and_decrement, get_and_update,
  update_and_get,
}

module _ (py : Interpreter) where
  -- `PyLong_FromInt64`, which can run out of memory.
  abbrev pub packed : ℤ → Outcome Object Exception
  packed integer = elim (py.from_int64 integer) [
    | none ↦ Outcome.fails Exception.raised
    | some py_integer ↦ Outcome.returns py_integer
  ]

  abbrev pub packed_run : Run ℤ → Run Object
  packed_run (Outcome.returns integer, word, others) = (packed integer, word, others)
  packed_run (Outcome.fails e, word, others) = (Outcome.fails e, word, others)

  -- The field after construction; a failed conversion leaves the object unusable.
  unfoldable pub init : Option Object → Outcome ℤ Exception
  init none = Outcome.returns (pos 0)
  init (some py_integer) = elim (convert py (some py_integer)) [
    | Checked.result integer ↦ Outcome.returns integer
    | Checked.failure e ↦ Outcome.fails e
  ]

  unfoldable pub get_callable : ℤ → Outcome Object Exception
  get_callable word = packed (get word)

  unfoldable pub set_callable : Object → Operation Done
  set_callable py_integer others word = elim (convert py (some py_integer)) [
    | Checked.result desired ↦ set desired others word
    | Checked.failure e ↦ (Outcome.fails e, word, others)
  ]

  -- Both arguments are converted before the word is touched.
  unfoldable pub compare_and_set_callable : Object → Object → ℤ → Outcome Bool Exception × ℤ
  compare_and_set_callable py_expected py_desired word = elim (convert py (some py_expected)) [
    | Checked.failure e ↦ (Outcome.fails e, word)
    | Checked.result expected ↦ elim (convert py (some py_desired)) [
      | Checked.failure e ↦ (Outcome.fails e, word)
      | Checked.result desired ↦
          let (swapped, word') = compare_and_set expected desired word in
          (Outcome.returns swapped, word')
    ]
  ]

  unfoldable pub get_and_set_callable : Object → ℤ → Outcome Object Exception × ℤ
  get_and_set_callable py_integer word = elim (convert py (some py_integer)) [
    | Checked.failure e ↦ (Outcome.fails e, word)
    | Checked.result desired ↦
        let (previous, word') = get_and_set desired word in (packed previous, word')
  ]

  -- An amount that is left out, or is `None`, is 1.
  abbrev pub amount_of : Option Object → Checked
  amount_of none = Checked.result (pos 1)
  amount_of (some py_other) =
      if py.is_none py_other then Checked.result (pos 1) else convert py (some py_other)

  abbrev pub with_argument : (ℤ → Operation ℤ) → Option Object → Operation Object
  with_argument operation py_other others word = elim (amount_of py_other) [
    | Checked.failure e ↦ (Outcome.fails e, word, others)
    | Checked.result other ↦ packed_run (operation other others word)
  ]

  unfoldable pub increment_and_get_callable : Option Object → Operation Object
  increment_and_get_callable = with_argument increment_and_get

  unfoldable pub get_and_increment_callable : Option Object → Operation Object
  get_and_increment_callable = with_argument get_and_increment

  unfoldable pub decrement_and_get_callable : Option Object → Operation Object
  decrement_and_get_callable = with_argument decrement_and_get

  unfoldable pub get_and_decrement_callable : Option Object → Operation Object
  get_and_decrement_callable = with_argument get_and_decrement

  unfoldable pub get_and_update_callable : Object → Operation Object
  get_and_update_callable callable others word = packed_run (get_and_update py callable others word)

  unfoldable pub update_and_get_callable : Object → Operation Object
  update_and_get_callable callable others word = packed_run (update_and_get py callable others word)
