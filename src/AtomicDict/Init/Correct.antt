-- ===== src/AtomicDict/Init/Correct.antt =====
-- A new dictionary is sound and empty (src/cereggii/atomic_dict/atomic_dict.c).
use cereggii.Common.{
  ℕ, zero, suc, Bool, ◌||◌, ◌-◌, ◌^◌, ◌≤◌, ◌<◌, Option, none, some, true, false, ◌≡◌, ◌≢◌, refl,
  sym, ◌∙◌, ap, inl, inr, ◌⊎◌, arith, if◌then◌else◌, Bool-cases,
}
use mathlib.Core.Path.{subst}
use native.Mathlib.Nat.{pow-le-pow_right}
use cereggii.Common.Int.{ℤ, pos, negsuc, pos_part, ◌==ℤ◌, ◌≤ℤ◌, ltb_ℤ, ==ℤ→≡, ==ℤ_refl}
use native.Mathlib.Decide.{dec_lt, ℕ_discrete}
use cereggii.AtomicDict.Runtime.{Runtime, size_of}
use cereggii.AtomicDict.Index.{Holds}
use cereggii.AtomicDict.Reservation.Invariant.{IsSound}
use cereggii.AtomicDict.Accessor.{put_asserts}
use cereggii.AtomicDict.Init.{
  is_buffer_size, at_least_one_page, log_size_for, init_empty, Initialised, ArgumentError,
  check_arguments, init,
}
use cereggii.AtomicDict.Init.Sizes.{log_size_for-least}
use cereggii.AtomicDict.Init.Empty.{shape, init_empty-IsSound}

or-true : (a : Bool) → (a || true) ≡ true
or-true true = refl
or-true false = refl

or-cases : (a b : Bool) → (a || b) ≡ true → (a ≡ true) ⊎ (b ≡ true)
or-cases true b e = inl refl
or-cases false b e = inr e

-- A size among the powers of two up to `2 ^ k`.
abbrev among : ℕ → ℤ → Bool
among zero size = size ==ℤ pos (2 ^ 0)
among (suc k) size = among k size || (size ==ℤ pos (2 ^ suc k))

among-power : (k : ℕ) (size : ℤ) → among k size ≡ true → (j : ℕ) × (j ≤ k) × (size ≡ pos (2 ^ j))
among-power zero size known = (0, omega arith, ==ℤ→≡ size (pos (2 ^ 0)) known)
among-power (suc k) size known = elim (or-cases (among k size) (size ==ℤ pos (2 ^ suc k)) known) [
  | inl below ↦ let (j, bound, e) = among-power k size below in (j, omega arith, e)
  | inr here ↦ (suc k, omega arith, ==ℤ→≡ size (pos (2 ^ suc k)) here)
]

power-among : (k : ℕ) (j : ℕ) → j ≤ k → among k (pos (2 ^ j)) ≡ true
power-among zero j bound = let e : j ≡ 0 = omega arith in rw (e, ==ℤ_refl (pos (2 ^ 0))) refl
power-among (suc k) j bound = elim (ℕ_discrete j (suc k)) [
  | yes e ↦ rw (e, ==ℤ_refl (pos (2 ^ suc k))) (or-true (among k (pos (2 ^ suc k))))
  | no below ↦ rw (power-among k j (omega arith)) refl
]

-- How a construction ends, by its arguments.
abbrev pub Starts : Runtime → ℤ → ℤ → Initialised → Type 0
Starts py min_size buffer_size (Initialised.value_error error) =
    ((error ≡ ArgumentError.min_size_negative) × (min_size ≤ℤ negsuc 0))
    ⊎ ((error ≡ ArgumentError.buffer_size_unknown) × ((k : ℕ) → k ≤ 6 → buffer_size ≢ pos (2 ^ k)))
Starts py min_size buffer_size Initialised.assertion_failed = buffer_size ≡ pos 1
Starts py min_size buffer_size (Initialised.dictionary self) =
    (buffer_size ≢ pos 1)
    × (buffer_size ≡ pos (self.reservation_buffer_size))
    × (min_size ≤ℤ pos (size_of (self.metadata)))
    × ((log : ℕ) → 7 ≤ log → min_size ≤ℤ pos (2 ^ log) → self.metadata.log_size ≤ log)
    × IsSound py self
    × ((key value q : ℕ) → ¬ Holds py (self.metadata) key value q)

module _ (py : Runtime) (min_size : ℕ) (fits : min_size ≤ 2 ^ 30) where
  abbrev asked : ℕ
  asked = at_least_one_page min_size

  asked_bounds :
      (128 ≤ asked)
      × (asked ≤ 2 ^ 30)
      × (min_size ≤ asked)
      × ((n : ℕ) → 128 ≤ n → min_size ≤ n → asked ≤ n)
  asked_bounds = (ground arith, ground arith, ground arith, λ n page size. ground arith)

  Starts-dictionary :
      (k : ℕ)
      → 0 < k
      → k ≤ 6
      → Starts py
          (pos min_size)
          (pos (2 ^ k))
          (Initialised.dictionary (init_empty (log_size_for asked) (2 ^ k)))
  unfolding init_empty
  Starts-dictionary k more small =
      let (page, bound, size, least_asked) = asked_bounds in
      let (holds, least) = log_size_for-least asked (omega (arith, page)) (omega (arith, bound)) in
      let top : log_size_for asked ≤ 30 = least 30 (omega (arith, bound)) in
      let bottom : 7 ≤ log_size_for asked = elim (dec_lt (log_size_for asked) 7) [
        | no high ↦ omega arith
        | yes low ↦
            let e : 2 ^ log_size_for asked ≤ 2 ^ 6 =
              pow-le-pow_right (omega arith) {j = 6} (omega arith) in
            absurd (omega (arith, e, page, holds))
      ] in
      (
        (λ e.
            let two : 2 ^ 1 ≤ 2 ^ k = pow-le-pow_right (omega arith) more in
            omega (arith, two, ap pos_part e)),
        refl,
        rw (shape py (log_size_for asked) bottom top k small) (omega (arith, size, holds)),
        λ log page' fits'.
            let e : 2 ^ 7 ≤ 2 ^ log = pow-le-pow_right (omega arith) page' in
            rw (shape py (log_size_for asked) bottom top k small)
              (least log (least_asked (2 ^ log) (omega (arith, e)) (omega arith))),
        (init_empty-IsSound py (log_size_for asked) bottom top k small).0,
        (init_empty-IsSound py (log_size_for asked) bottom top k small).1,
      )

abbrev checked : ℕ → ℤ → Option ArgumentError → Initialised
checked n buffer_size (some error) = Initialised.value_error error
checked n buffer_size none =
    if put_asserts (record { start = 0; size = 0; used = 0 }) (pos_part buffer_size - 1)
    then Initialised.dictionary
        (init_empty (log_size_for (at_least_one_page n)) (pos_part buffer_size))
    else Initialised.assertion_failed

init-checked :
    (min_size buffer_size : ℤ)
    → init min_size buffer_size
      ≡ checked (pos_part min_size) buffer_size (check_arguments min_size buffer_size)
unfolding init
init-checked min_size buffer_size = checked-eq (check_arguments min_size buffer_size)
  where
    checked-eq :
        (o : Option ArgumentError)
        → elim o [
          | some error ↦ Initialised.value_error error
          | none ↦
              if put_asserts (record { start = 0; size = 0; used = 0 }) (pos_part buffer_size - 1)
              then Initialised.dictionary (
                  init_empty
                    (log_size_for (at_least_one_page (pos_part min_size)))
                    (pos_part buffer_size))
              else Initialised.assertion_failed
        ]
          ≡ checked (pos_part min_size) buffer_size o
    checked-eq none = refl
    checked-eq (some error) = refl

check-negative :
    (n : ℕ) (size : ℤ) → check_arguments (negsuc n) size ≡ some ArgumentError.min_size_negative
unfolding check_arguments
check-negative n size = let low : ltb_ℤ (negsuc n) (pos 0) ≡ true = ground arith in rw low refl

check-size :
    (n : ℕ) (size : ℤ)
    → n ≤ 2 ^ 30
    → check_arguments (pos n) size
      ≡ (if is_buffer_size size then none else some ArgumentError.buffer_size_unknown)
unfolding check_arguments
check-size n size fits =
    let low : ltb_ℤ (pos n) (pos 0) ≡ false = ground arith in
    let high : ltb_ℤ (pos (2 ^ 56)) (pos n) ≡ false = ground arith in rw (low, high) refl

-- With a buffer of one entry the assertion fails, and with a larger one the dictionary is there.
Starts-power :
    (py : Runtime) (n : ℕ)
    → n ≤ 2 ^ 30
    → (k : ℕ) → k ≤ 6
    → Starts py (pos n) (pos (2 ^ k)) (checked n (pos (2 ^ k)) none)
Starts-power py n size zero bound = refl
Starts-power py n size (suc k) bound =
    let more : 1 ≤ suc k = omega arith in
    let low : 2 ^ 1 ≤ 2 ^ suc k = pow-le-pow_right (omega arith) more in
    let high : 2 ^ suc k ≤ 2 ^ 6 = pow-le-pow_right (omega arith) bound in
    let holds : put_asserts (record { start = 0; size = 0; used = 0 }) (2 ^ suc k - 1) ≡ true =
      ground (arith, low, high) in
    rw holds (Starts-dictionary py n size (suc k) (omega arith) bound)

-- A construction that asks for at most 2 ^ 30 items ends in a ValueError only for a negative size or a
-- buffer size that is no power of two up to 64; a buffer of one entry fails an assertion; otherwise the buffer has the given size, the
-- dictionary is sound and empty, and its index is the least one, from one page on, with room for what was
-- asked.
pub init-Starts :
    (py : Runtime) (min_size buffer_size : ℤ)
    → min_size ≤ℤ pos (2 ^ 30)
    → Starts py min_size buffer_size (init min_size buffer_size)
init-Starts py (negsuc n) buffer_size fits =
    subst (Starts py (negsuc n) buffer_size)
      (sym (
        init-checked (negsuc n) buffer_size
        ∙ ap (checked 0 buffer_size) (check-negative n buffer_size)))
      (inl (refl, omega arith))
init-Starts py (pos n) buffer_size fits =
    let size : n ≤ 2 ^ 30 = omega arith in
    let start =
      init-checked (pos n) buffer_size
      ∙ ap (checked n buffer_size) (check-size n buffer_size size) in
    elim (Bool-cases (is_buffer_size buffer_size)) [
      | inl known ↦
          let (k, bound, e) = among-power 6 buffer_size known in
          subst (λ b. Starts py (pos n) b (init (pos n) buffer_size)) (sym e)
            (subst (Starts py (pos n) (pos (2 ^ k)))
              (sym (
                start
                ∙ ap
                    (λ b.
                      checked n buffer_size
                        (if b then none else some ArgumentError.buffer_size_unknown))
                    known
                ∙ ap (λ b. checked n b none) e))
              (Starts-power py n size k bound))
      | inr unknown ↦
          subst (Starts py (pos n) buffer_size)
            (sym (
              start
              ∙ ap
                  (λ b.
                    checked n buffer_size
                      (if b then none else some ArgumentError.buffer_size_unknown))
                  unknown))
            (inr (refl, λ k small e. cc (power-among 6 k small, ap is_buffer_size e, unknown)))
    ]
