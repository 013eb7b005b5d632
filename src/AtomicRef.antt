-- ===== src/AtomicRef.antt =====
-- References with owners: src/cereggii/atomic_ref.c, access by access, on the build without the GIL.
-- A reference count is exact, and `_Py_TryIncref` succeeds where the count is not 0. `AtomicRef_Set` is
-- not modelled.
pub mod Owned
use cereggii.Common.{ℕ, ◌+◌, ◌-◌, ◌<◌, Bool, true, false, if◌then◌else◌, ◌==◌, ◌≡◌, ◌≢◌, update}

-- What threads share: the reference, and the counts of all objects, which are addresses.
pub record Shared : Type 0 where
  pub reference : ℕ
  pub count : ℕ → ℕ

abbrev pub incref : ℕ → Shared → Shared
incref o s = record s { count = update s.count o (s.count o + 1) }

abbrev pub decref : ℕ → Shared → Shared
decref o s = record s { count = update s.count o (s.count o - 1) }

pub data RefCall : Type 0 where
  get : RefCall
  compare_and_set : (expected desired : ℕ) → RefCall
  get_and_set : (desired : ℕ) → RefCall

-- Where a call is.
pub data Progress : Type 0 where
  start : RefCall → Progress
  -- `AtomicRef_Get` has read the reference, and not yet counted.
  loaded : ℕ → Progress
  -- `desired` is counted.
  swapping : (expected desired : ℕ) → Progress
  exchanging : (desired : ℕ) → Progress
  swapped : (expected desired : ℕ) → Bool → Progress
  -- The call returned an object, or whether it swapped.
  returned : ℕ → Progress
  answered : Bool → Progress

abbrev pub one : ℕ → ℕ → ℕ
one a o = if a == o then 1 else 0

-- How many references to an object the call owns.
abbrev pub owned : Progress → ℕ → ℕ
owned (Progress.start call) o = 0
owned (Progress.loaded r) o = 0
owned (Progress.swapping expected desired) o = one desired o
owned (Progress.exchanging desired) o = one desired o
owned (Progress.swapped expected desired true) o = one expected o
owned (Progress.swapped expected desired false) o = one desired o
owned (Progress.returned r) o = one r o
owned (Progress.answered done) o = 0

-- Each count is what others own, what the call owns, and one for the reference itself.
abbrev pub IsCounted : Progress → Shared → Type 0
IsCounted p s = (others : ℕ → ℕ) × ((o : ℕ) → s.count o ≡ others o + owned p o + one s.reference o)

-- The accesses of `AtomicRef_Get`.
pub data GetAccess : Progress → Shared → Progress → Shared → Type 0 where
  load : (s : Shared) → GetAccess (Progress.start RefCall.get) s (Progress.loaded s.reference) s
  try_incref :
      (r : ℕ) (s : Shared)
      → 0 < s.count r
      → GetAccess (Progress.loaded r) s (Progress.returned r) (incref r s)
  load_again :
      (r : ℕ) (s : Shared)
      → s.count r ≡ 0
      → GetAccess (Progress.loaded r) s (Progress.loaded s.reference) s

-- The accesses of `AtomicRef_CompareAndSet`.
pub data SwapAccess : Progress → Shared → Progress → Shared → Type 0 where
  incref_desired :
      (e d : ℕ) (s : Shared)
      → SwapAccess
          (Progress.start (RefCall.compare_and_set e d))
          s
          (Progress.swapping e d)
          (incref d s)
  swap :
      (e d : ℕ) (s : Shared)
      → s.reference ≡ e
      → SwapAccess
          (Progress.swapping e d)
          s
          (Progress.swapped e d true)
          (record s { reference = d })
  refuse :
      (e d : ℕ) (s : Shared)
      → s.reference ≢ e
      → SwapAccess (Progress.swapping e d) s (Progress.swapped e d false) s
  decref_expected :
      (e d : ℕ) (s : Shared)
      → SwapAccess (Progress.swapped e d true) s (Progress.answered true) (decref e s)
  decref_desired :
      (e d : ℕ) (s : Shared)
      → SwapAccess (Progress.swapped e d false) s (Progress.answered false) (decref d s)

-- The accesses of `AtomicRef_GetAndSet`.
pub data ExchangeAccess : Progress → Shared → Progress → Shared → Type 0 where
  incref_new :
      (d : ℕ) (s : Shared)
      → ExchangeAccess
          (Progress.start (RefCall.get_and_set d))
          s
          (Progress.exchanging d)
          (incref d s)
  exchange :
      (d : ℕ) (s : Shared)
      → ExchangeAccess
          (Progress.exchanging d)
          s
          (Progress.returned s.reference)
          (record s { reference = d })

pub data Access : Progress → Shared → Progress → Shared → Type 0 where
  of_get : {p p' : Progress} {s s' : Shared} → GetAccess p s p' s' → Access p s p' s'
  of_swap : {p p' : Progress} {s s' : Shared} → SwapAccess p s p' s' → Access p s p' s'
  of_exchange : {p p' : Progress} {s s' : Shared} → ExchangeAccess p s p' s' → Access p s p' s'

-- Between the accesses other threads do anything with references of their own.
pub data Step : Progress → Shared → Progress → Shared → Type 0 where
  own : {p p' : Progress} {s s' : Shared} → Access p s p' s' → Step p s p' s'
  others : (p : Progress) (s s' : Shared) → IsCounted p s' → Step p s p s'

pub data Reaches : Progress → Shared → Progress → Shared → Type 0 where
  here : (p : Progress) (s : Shared) → Reaches p s p s
  then :
      {p p' p'' : Progress} {s s' s'' : Shared}
      → Reaches p s p' s'
      → Step p' s' p'' s''
      → Reaches p s p'' s''

-- A call without other threads.
pub data Alone : Progress → Shared → Progress → Shared → Type 0 where
  stop : (p : Progress) (s : Shared) → Alone p s p s
  next :
      {p p' p'' : Progress} {s s' s'' : Shared}
      → Access p s p' s'
      → Alone p' s' p'' s''
      → Alone p s p'' s''
