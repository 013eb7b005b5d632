-- ===== src/AtomicInt/Linear/Range.antt =====
-- The word of an `AtomicInt64` stays within 64 bits (src/cereggii/atomic_int.c).
use cereggii.Common.{[], ◌∷◌, ◌++◌, true, none, some, ◌≡◌, ◌∙◌, ap, sym, Bool-cases, inl, inr}
use cereggii.Common.Int.{ℤ, ◌+ℤ◌, ◌-ℤ◌}
use cereggii.Common.Retry.{Others, interfere_all}
use cereggii.AtomicInt.{fits_int64}
use cereggii.AtomicInt.Operations.{
  Operation, increment_and_get, get_and_increment, decrement_and_get, get_and_decrement,
}
use cereggii.AtomicInt.Linear.{Effect, Implements, exact_or_overflow}
use cereggii.AtomicInt.Linear.Operators.{counting-Implements}

abbrev pub Fits : ℤ → Type 0
Fits z = fits_int64 z ≡ true

-- Every write of the other threads fits.
abbrev pub AllFit : Others ℤ → Type 0
AllFit [] = Unit
AllFit (none ∷ os) = AllFit os
AllFit (some a ∷ os) = Fits a × AllFit os

interfere_all-Fits :
    (before after : Others ℤ) (word : ℤ)
    → AllFit (before ++ after)
    → Fits word
    → Fits (interfere_all before word)
interfere_all-Fits [] after word h w = w
interfere_all-Fits (none ∷ os) after word h w = interfere_all-Fits os after word h w
interfere_all-Fits (some a ∷ os) after word (fit, h) w = interfere_all-Fits os after a h fit

-- The word that an operation leaves fits, if the operation stands for one that keeps it fitting.
abbrev pub Keeps : {R : Type 0} → Operation R → Type 0
Keeps op = (others : Others ℤ) (word : ℤ) → AllFit others → Fits word → Fits ((op others word).1)

pub Implements-Keeps :
    {R : Type 0} (op : Operation R) (effect : Effect R)
    → ((word : ℤ) → Fits word → Fits ((effect word).1))
    → Implements op effect
    → Keeps op
Implements-Keeps op effect keeps implements others word h w =
    let (before, after, split, run) = implements others word in
    let fit : Fits (interfere_all before word) =
      interfere_all-Fits before after word (rw (sym split) h) w in
    ap (λ r. fits_int64 (r.1)) run ∙ keeps (interfere_all before word) fit

exact-keeps :
    {R : Type 0} (f : ℤ → ℤ) (reply : ℤ → R) (word : ℤ)
    → Fits word
    → Fits ((exact_or_overflow f reply word).1)
exact-keeps f reply word w = elim (Bool-cases (fits_int64 (f word))) [
  | inl fit ↦ rw fit fit
  | inr large ↦ rw large w
]

exact-Keeps :
    {R : Type 0} (op : Operation R) (f : ℤ → ℤ) (reply : ℤ → R)
    → Implements op (exact_or_overflow f reply)
    → Keeps op
exact-Keeps op f reply = Implements-Keeps op (exact_or_overflow f reply) (exact-keeps f reply)

-- The counting operations leave a 64-bit integer where they find one, if all that other threads
-- write are 64-bit integers.
pub counting-Keeps :
    (other : ℤ)
    → Keeps (increment_and_get other)
      × Keeps (get_and_increment other)
      × Keeps (decrement_and_get other)
      × Keeps (get_and_decrement other)
counting-Keeps other =
    let (a, b, c, d) = counting-Implements other in
    (
      exact-Keeps _ (λ current. current +ℤ other) (λ current. current +ℤ other) a,
      exact-Keeps _ (λ current. current +ℤ other) (λ current. current) b,
      exact-Keeps _ (λ current. current -ℤ other) (λ current. current -ℤ other) c,
      exact-Keeps _ (λ current. current -ℤ other) (λ current. current) d,
    )
