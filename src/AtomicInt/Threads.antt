-- ===== src/AtomicInt/Threads.antt =====
-- Threads that call `IncrementAndGet` on one `AtomicInt64`, access by access
-- (src/cereggii/atomic_int.c).
pub mod Balance
use cereggii.Common.{List, ◌∷◌, ◌++◌, ◌≡◌, ◌≢◌}
use cereggii.Common.Int.{ℤ}
use cereggii.AtomicInt.{Exception, Checked, add_or_set_overflow}

-- Where one call stands: before its load, between its load and its swap, or at its end.
pub data Call : Type 0 where
  loading : (other : ℤ) → Call
  swapping : (other current : ℤ) → Call
  returned : (other desired : ℤ) → Call
  failed : (other : ℤ) → Exception → Call

-- The word and the calls of all threads.
pub record System : Type 0 where
  pub integer : ℤ
  pub calls : List Call

-- One access of one call: the load with its test for an overflow, or the swap, which succeeds
-- exactly when the word is what was loaded.
pub data Access : ℤ → Call → ℤ → Call → Type 0 where
  loads :
      (integer other desired : ℤ)
      → add_or_set_overflow integer other ≡ Checked.result desired
      → Access integer (Call.loading other) integer (Call.swapping other integer)
  overflows :
      (integer other : ℤ) (e : Exception)
      → add_or_set_overflow integer other ≡ Checked.failure e
      → Access integer (Call.loading other) integer (Call.failed other e)
  swaps :
      (integer other desired : ℤ)
      → add_or_set_overflow integer other ≡ Checked.result desired
      → Access integer (Call.swapping other integer) desired (Call.returned other desired)
  retries :
      (integer other current : ℤ)
      → integer ≢ current
      → Access integer (Call.swapping other current) integer (Call.loading other)

-- Any call may be the next to access the word.
pub data Step : System → System → Type 0 where
  step :
      (before after : List Call) (call call' : Call) (integer integer' : ℤ)
      → Access integer call integer' call'
      → Step
          (record { integer = integer; calls = before ++ call ∷ after })
          (record { integer = integer'; calls = before ++ call' ∷ after })

pub data Reaches : System → System → Type 0 where
  here : (s : System) → Reaches s s
  further : (s s' s'' : System) → Reaches s s' → Step s' s'' → Reaches s s''
