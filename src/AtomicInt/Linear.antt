-- ===== src/AtomicInt/Linear.antt =====
-- Linearizability of the operations of src/cereggii/atomic_int.c.
pub mod Operators
pub mod Range
pub mod Methods
use cereggii.Common.{
  arith, List, [], ◌∷◌, ◌++◌, Bool, true, false, Option, none, some, ◌≡◌, refl, ◌∙◌, ap,
  if◌then◌else◌, Bool-cases, inl, inr,
}
use cereggii.Common.Int.{ℤ, pos, ◌==ℤ◌, ==ℤ→≡, ◌+ℤ◌, ◌-ℤ◌, ◌*ℤ◌, quot_ℤ, rem_ℤ}
use cereggii.Common.Retry.{
  Attempt, Outcome, Others, interfere_all, retry, retry-Linearizes, atomically,
}
use cereggii.AtomicDict.Runtime.{Object}
use cereggii.AtomicInt.{
  fits_int64, check, Exception, Checked, add_or_set_overflow, sub_or_set_overflow,
  mul_or_set_overflow, div_or_set_exception, int64_min,
}
use cereggii.AtomicInt.Operations.{
  Operation, Run, attempt, update_loop, get, increment_and_get, get_and_increment,
  decrement_and_get, get_and_decrement, Interpreter, get_and_update, update_and_get, called, Done,
  done, set,
}

-- An indivisible operation: the result and the new word.
abbrev pub Effect : Type 0 → Type 0
Effect R = ℤ → Outcome R Exception × ℤ

-- Whatever other threads write meanwhile, the operation ends, and does what the indivisible one
-- does at one moment between their writes.
abbrev pub Implements : {R : Type 0} → Operation R → Effect R → Type 0
Implements op effect =
    (others : Others ℤ) (word : ℤ)
    → (before : Others ℤ) × (after : Others ℤ) × (others ≡ before ++ after)
      × (op others word
          ≡ ((effect (interfere_all before word)).0, (effect (interfere_all before word)).1, after))

-- A loop implements what one undisturbed round does.
pub update_loop-Implements :
    {R : Type 0} (body : ℤ → Attempt ℤ R Exception) (effect : Effect R)
    → ((word : ℤ) (after : Others ℤ)
        → atomically body word after ≡ ((effect word).0, (effect word).1, after))
    → Implements (update_loop body) effect
update_loop-Implements body effect alone others word =
    let (before, after, split, run) = retry-Linearizes body ◌==ℤ◌ ==ℤ→≡ others word in
    (before, after, split, run ∙ alone (interfere_all before word) after)

pub Implements-congr :
    {R : Type 0} (op : Operation R) (effect effect' : Effect R)
    → ((word : ℤ) → effect word ≡ effect' word)
    → Implements op effect
    → Implements op effect'
Implements-congr op effect effect' same implements others word =
    let (before, after, split, run) = implements others word in
    (before, after, split, run ∙ ap (λ r. (r.0, r.1, after)) (same (interfere_all before word)))

-- The exact result with a reply when it fits 64 bits, else an overflow that leaves the word.
abbrev pub exact_or_overflow : {R : Type 0} → (ℤ → ℤ) → (ℤ → R) → Effect R
exact_or_overflow f reply current =
    if fits_int64 (f current)
    then (Outcome.returns (reply current), f current)
    else (Outcome.fails Exception.overflow_error, current)

-- A checked computation as one indivisible step.
abbrev pub settled : {R : Type 0} → (ℤ → Checked) → (ℤ → ℤ → R) → Effect R
settled f reply current = elim (f current) [
  | Checked.result desired ↦ (Outcome.returns (reply current desired), desired)
  | Checked.failure e ↦ (Outcome.fails e, current)
]

exact_step :
    {R : Type 0} (f : ℤ → ℤ) (reply : ℤ → ℤ → R) (word : ℤ) (after : Others ℤ)
    → atomically (λ current. attempt (check (f current)) (reply current)) word after ≡ (
      (exact_or_overflow f (λ current. reply current (f current)) word).0,
      (exact_or_overflow f (λ current. reply current (f current)) word).1,
      after,
    )
exact_step f reply word after = ground arith

pub exact-Implements :
    {R : Type 0} (f : ℤ → ℤ) (reply : ℤ → ℤ → R)
    → Implements
        (update_loop (λ current. attempt (check (f current)) (reply current)))
        (exact_or_overflow f (λ current. reply current (f current)))
exact-Implements f reply = update_loop-Implements _ _ (exact_step f reply)

settled_step :
    {R : Type 0} (f : ℤ → Checked) (reply : ℤ → ℤ → R) (word : ℤ) (after : Others ℤ)
    → atomically (λ current. attempt (f current) (reply current)) word after
      ≡ ((settled f reply word).0, (settled f reply word).1, after)
settled_step f reply word after = ground arith

pub settled-Implements :
    {R : Type 0} (f : ℤ → Checked) (reply : ℤ → ℤ → R)
    → Implements (update_loop (λ current. attempt (f current) (reply current))) (settled f reply)
settled-Implements f reply = update_loop-Implements _ _ (settled_step f reply)
