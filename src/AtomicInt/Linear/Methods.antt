-- ===== src/AtomicInt/Linear/Methods.antt =====
-- The counting methods as Python sees them (src/cereggii/atomic_int.c).
use cereggii.Common.{
  ◌≡◌, ◌⊎◌, ◌∙◌, inl, inr, sym, ap, arith, true, false, Option, none, some, if◌then◌else◌,
}
use cereggii.Common.Int.{ℤ, pos, ◌+ℤ◌, ◌-ℤ◌}
use cereggii.Common.Retry.{Outcome, Others, interfere_all}
use cereggii.AtomicDict.Runtime.{Object}
use cereggii.AtomicInt.{fits_int64, Exception, Checked}
use cereggii.AtomicInt.Operations.{
  Operation, Interpreter, increment_and_get, get_and_increment, decrement_and_get,
  get_and_decrement, convert,
}
use cereggii.AtomicInt.Callables.{
  packed, packed_run, amount_of, with_argument, increment_and_get_callable,
  get_and_increment_callable, decrement_and_get_callable, get_and_decrement_callable,
}
use cereggii.AtomicInt.Linear.{Effect, Implements, exact_or_overflow}
use cereggii.AtomicInt.Linear.Operators.{counting-Implements}

module _ (py : Interpreter) where
  -- The amount of a call: 1 where it is left out or `None`, and otherwise what the object converts to.
  abbrev pub IsAmount : Option Object → ℤ → Type 0
  IsAmount none amount = amount ≡ pos 1
  IsAmount (some py_other) amount =
      ((py.is_none py_other ≡ true) × (amount ≡ pos 1))
      ⊎ ((py.is_none py_other ≡ false) × (py.as_int64 py_other ≡ Checked.result amount))

  amount_of-IsAmount :
      (py_other : Option Object) (amount : ℤ)
      → IsAmount py_other amount
      → amount_of py py_other ≡ Checked.result amount
  unfolding convert
  amount_of-IsAmount none amount is = ap Checked.result (sym is)
  amount_of-IsAmount (some py_other) amount (inl (left_out, is)) =
      rw left_out (ap Checked.result (sym is))
  amount_of-IsAmount (some py_other) amount (inr (given, is)) = rw given is

  -- The exact result, stored when it fits; the reply is a Python integer.
  abbrev pub counted : (ℤ → ℤ) → (ℤ → ℤ) → Effect Object
  counted f reply current =
      if fits_int64 (f current)
      then (packed py (reply current), f current)
      else (Outcome.fails Exception.overflow_error, current)

  replied :
      (f reply : ℤ → ℤ) (current : ℤ) (after : Others ℤ)
      → packed_run py
          ((exact_or_overflow f reply current).0, (exact_or_overflow f reply current).1, after)
        ≡ ((counted f reply current).0, (counted f reply current).1, after)
  replied f reply current after = ground arith

  method-Implements :
      (operation : ℤ → Operation ℤ) (py_other : Option Object) (amount : ℤ)
      → amount_of py py_other ≡ Checked.result amount
      → (f reply : ℤ → ℤ) → Implements (operation amount) (exact_or_overflow f reply)
      → Implements (with_argument py operation py_other) (counted f reply)
  method-Implements operation py_other amount is f reply implements others word =
      let (before, after, split, run) = implements others word in
      (
        before,
        after,
        split,
        rw (with_argument, is)
            (ap (packed_run py) run ∙ replied f reply (interfere_all before word) after),
      )

  -- The four counting methods, called with an object that converts to the amount, or with none or `None` for an amount of 1, and whatever other threads write meanwhile, end, and at one moment store the exact sum
  -- or difference when it fits 64 bits, and give Python the new or the old value, or the error of
  -- making that object; otherwise they raise an overflow and store nothing.
  pub methods-Implement :
      (py_other : Option Object) (amount : ℤ)
      → IsAmount py_other amount
      → Implements
          (increment_and_get_callable py py_other)
          (counted (λ current. current +ℤ amount) (λ current. current +ℤ amount))
        × Implements
            (get_and_increment_callable py py_other)
            (counted (λ current. current +ℤ amount) (λ current. current))
        × Implements
            (decrement_and_get_callable py py_other)
            (counted (λ current. current -ℤ amount) (λ current. current -ℤ amount))
        × Implements
            (get_and_decrement_callable py py_other)
            (counted (λ current. current -ℤ amount) (λ current. current))
  unfolding increment_and_get_callable get_and_increment_callable decrement_and_get_callable
      get_and_decrement_callable
  methods-Implement py_other amount given =
      let is = amount_of-IsAmount py_other amount given in
      let (a, b, c, d) = counting-Implements amount in
      (
        method-Implements increment_and_get py_other amount is (λ current. current +ℤ amount)
            (λ current. current +ℤ amount) a,
        method-Implements get_and_increment py_other amount is (λ current. current +ℤ amount)
            (λ current. current) b,
        method-Implements decrement_and_get py_other amount is (λ current. current -ℤ amount)
            (λ current. current -ℤ amount) c,
        method-Implements get_and_decrement py_other amount is (λ current. current -ℤ amount)
            (λ current. current) d,
      )
