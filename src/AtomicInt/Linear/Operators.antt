-- ===== src/AtomicInt/Linear/Operators.antt =====
-- What each update of an `AtomicInt64` does as one indivisible step (src/cereggii/atomic_int.c).
use cereggii.Common.{
  ◌≡◌, refl, false, arith, [], none, some, inl, inr, Option-cases, if◌then◌else◌, ◌&&◌,
}
use cereggii.Common.Int.{ℤ, pos, ◌+ℤ◌, ◌-ℤ◌, ◌*ℤ◌, ◌==ℤ◌, quot_ℤ, rem_ℤ, negsuc}
use cereggii.Common.Retry.{Outcome}
use cereggii.AtomicDict.Runtime.{Object}
use cereggii.AtomicInt.{
  int64_min, Exception, Checked, add_or_set_overflow, sub_or_set_overflow, mul_or_set_overflow,
  div_or_set_exception,
}
use cereggii.AtomicInt.Operations.{
  Operation, get, increment_and_get, get_and_increment, decrement_and_get, get_and_decrement,
  Interpreter, get_and_update, update_and_get, called, Done, done, convert,
}
use cereggii.AtomicInt.Inplace.{
  inplace_add, inplace_subtract, inplace_multiply, inplace_floor_divide, inplace_remainder,
  with_amount, remainder,
}
use cereggii.AtomicInt.Linear.{
  Effect, Implements, exact_or_overflow, settled, exact-Implements, settled-Implements,
  Implements-congr,
}

module _ (other : ℤ) where
  -- The four counting operations, whatever other threads write meanwhile, end, and each does at one
  -- moment what its name says: the exact sum or difference is stored, and the new or the old value
  -- returned, when it fits 64 bits; otherwise the operation fails with an overflow and stores
  -- nothing.
  pub counting-Implements :
      Implements
        (increment_and_get other)
        (exact_or_overflow (λ current. current +ℤ other) (λ current. current +ℤ other))
      × Implements
          (get_and_increment other)
          (exact_or_overflow (λ current. current +ℤ other) (λ current. current))
      × Implements
          (decrement_and_get other)
          (exact_or_overflow (λ current. current -ℤ other) (λ current. current -ℤ other))
      × Implements
          (get_and_decrement other)
          (exact_or_overflow (λ current. current -ℤ other) (λ current. current))
  unfolding increment_and_get get_and_increment decrement_and_get get_and_decrement
      add_or_set_overflow sub_or_set_overflow get
  counting-Implements = (
    exact-Implements (λ current. current +ℤ other) (λ current desired. desired),
    exact-Implements (λ current. current +ℤ other) (λ current desired. current),
    exact-Implements (λ current. current -ℤ other) (λ current desired. desired),
    exact-Implements (λ current. current -ℤ other) (λ current desired. current),
  )

-- A result of a division, where the quotient fits 64 bits.
abbrev pub divided : (ℤ → ℤ → ℤ) → ℤ → Effect Done
divided f amount current =
    if current ==ℤ int64_min && amount ==ℤ negsuc 0
    then (Outcome.fails Exception.undefined, current)
    else (Outcome.returns done, f current amount)

divided-eq :
    (amount : ℤ)
    → (amount ==ℤ pos 0) ≡ false
    → (current : ℤ)
    → settled (λ c. div_or_set_exception c amount) (λ c d. done) current
      ≡ divided quot_ℤ amount current
unfolding div_or_set_exception
divided-eq amount nonzero current = ground (arith, nonzero)

remainder-eq :
    (amount current : ℤ)
    → settled (remainder amount) (λ c d. done) current ≡ divided rem_ℤ amount current
remainder-eq amount current = ground arith

-- The value that a callable gives for the current one: made a Python integer, called and converted
-- back. What fails first is the failure, and the word stays.
abbrev pub updated : Interpreter → Object → (ℤ → ℤ → ℤ) → Effect ℤ
updated py callable reply current = elim (py.from_int64 current) [
  | none ↦ (Outcome.fails Exception.raised, current)
  | some py_current ↦ elim (py.call_one callable py_current) [
    | none ↦ (Outcome.fails Exception.raised, current)
    | some py_desired ↦ elim (py.as_int64 py_desired) [
      | Checked.failure e ↦ (Outcome.fails e, current)
      | Checked.result desired ↦ (Outcome.returns (reply current desired), desired)
    ]
  ]
]

updated-eq :
    (py : Interpreter) (callable : Object) (reply : ℤ → ℤ → ℤ) (current : ℤ)
    → settled (called py callable) reply current ≡ updated py callable reply current
unfolding convert
updated-eq py callable reply current = elim (Option-cases (py.from_int64 current)) [
  | inl fails ↦ rw (settled, updated, called, fails) refl
  | inr (py_current, made) ↦ elim (Option-cases (py.call_one callable py_current)) [
    | inl fails ↦ rw (settled, updated, called, made, convert, fails) refl
    | inr (py_desired, gave) ↦
        rw (settled, updated, called, made, convert, gave) (last (py.as_int64 py_desired))
  ]
]
  where
    last :
        (c : Checked)
        → settled (λ _. c) reply current ≡ (elim c [
          | Checked.failure e ↦ (Outcome.fails e, current)
          | Checked.result desired ↦ (Outcome.returns (reply current desired), desired)
        ])
    last (Checked.failure e) = refl
    last (Checked.result desired) = refl

module _ (py : Interpreter) where
  converted :
      (other : Object) (amount : ℤ)
      → py.as_int64 other ≡ Checked.result amount
      → (loop : ℤ → Operation Done) (effect : Effect Done) → Implements (loop amount) effect
      → Implements (with_amount py loop other) effect
  unfolding convert
  converted other amount converts loop effect implements others word =
      rw (with_amount, converts) (implements others word)

  -- The updates by a callable, whatever other threads write meanwhile, end, and at one moment
  -- store what the callable gives for the value of that moment, and return the old or the new
  -- value; when the call or a conversion fails, they fail with its exception and store nothing.
  pub updating-Implements :
      (callable : Object)
      → Implements (get_and_update py callable) (updated py callable (λ current desired. current))
        × Implements (update_and_get py callable) (updated py callable (λ current desired. desired))
  unfolding get_and_update update_and_get get
  updating-Implements callable = (
    Implements-congr _ _ (updated py callable (λ current desired. current))
        (updated-eq py callable (λ current desired. current))
        (settled-Implements (called py callable) (λ current desired. current)),
    Implements-congr _ _ (updated py callable (λ current desired. desired))
        (updated-eq py callable (λ current desired. desired))
        (settled-Implements (called py callable) (λ current desired. desired)),
  )

  -- The in-place operators on an operand that converts to `amount`, whatever other threads write
  -- meanwhile, end, and at one moment store the exact sum, difference or product, or fail with an
  -- overflow and store nothing.
  pub inplace-Implements :
      (other : Object) (amount : ℤ)
      → py.as_int64 other ≡ Checked.result amount
      → Implements
          (inplace_add py other)
          (exact_or_overflow (λ current. current +ℤ amount) (λ current. done))
        × Implements
            (inplace_subtract py other)
            (exact_or_overflow (λ current. current -ℤ amount) (λ current. done))
        × Implements
            (inplace_multiply py other)
            (exact_or_overflow (λ current. current *ℤ amount) (λ current. done))
  unfolding inplace_add inplace_subtract inplace_multiply add_or_set_overflow sub_or_set_overflow
      mul_or_set_overflow get convert
  inplace-Implements other amount converts = (
    converted other amount converts _ (exact_or_overflow (λ c. c +ℤ amount) (λ c. done))
        (exact-Implements (λ c. c +ℤ amount) (λ c d. done)),
    converted other amount converts _ (exact_or_overflow (λ c. c -ℤ amount) (λ c. done))
        (exact-Implements (λ c. c -ℤ amount) (λ c d. done)),
    converted other amount converts _ (exact_or_overflow (λ c. c *ℤ amount) (λ c. done))
        (exact-Implements (λ c. c *ℤ amount) (λ c d. done)),
  )

  -- `//=` and `%=` on an operand that converts to a nonzero `amount`, whatever other threads write
  -- meanwhile, end, and at one moment store the quotient or the remainder of the value of that
  -- moment, rounded towards zero as C does, where an int rounds down; but where the least 64-bit
  -- integer is divided by -1, both are undefined in C, and nothing is stored before.
  pub dividing-Implements :
      (other : Object) (amount : ℤ)
      → py.as_int64 other ≡ Checked.result amount
      → (amount ==ℤ pos 0) ≡ false
      → Implements (inplace_floor_divide py other) (divided quot_ℤ amount)
        × Implements (inplace_remainder py other) (divided rem_ℤ amount)
  unfolding inplace_floor_divide inplace_remainder get convert div_or_set_exception
  dividing-Implements other amount converts nonzero = (
    converted other amount converts _ (divided quot_ℤ amount) (
        Implements-congr _ _ (divided quot_ℤ amount) (divided-eq amount nonzero)
          (settled-Implements (λ c. div_or_set_exception c amount) (λ c d. done))),
    converted other amount converts _ (divided rem_ℤ amount) (λ others word. rw nonzero (
        Implements-congr _ _ (divided rem_ℤ amount) (remainder-eq amount)
          (settled-Implements (remainder amount) (λ c d. done)) others word)),
  )

  -- `//=` and `%=` on an operand that converts to zero end, fail with a division by zero, and store
  -- nothing.
  pub dividing_by_zero :
      (other : Object)
      → py.as_int64 other ≡ Checked.result (pos 0)
      → Implements
          (inplace_floor_divide py other)
          (λ current. (Outcome.fails Exception.zero_division_error, current))
        × Implements
            (inplace_remainder py other)
            (λ current. (Outcome.fails Exception.zero_division_error, current))
  unfolding inplace_floor_divide inplace_remainder get convert div_or_set_exception
  dividing_by_zero other converts = (
    converted other (pos 0) converts _
        (λ current. (Outcome.fails Exception.zero_division_error, current))
        (settled-Implements (λ c. Checked.failure Exception.zero_division_error) (λ c d. done)),
    λ others word. ([], others, refl, rw (with_amount, converts) refl),
  )
