-- ===== src/AtomicDict/Resize/Clear.antt =====
-- Places on the ring of an index, and which of them `initialize_in_new_meta` clears (resize.c).
use cereggii.Common.{
  ℕ, zero, suc, ◌+◌, ◌-◌, ◌*◌, ◌%◌, ◌≤◌, ◌<◌, ◌≡◌, ◌≢◌, refl, sym, ap, ◌∙◌, inl, inr, Bool, true,
  ◌&&◌, ltb, leb, ◌==◌, if◌then◌else◌, bit_and, update, arith, Bool-cases,
}
use cereggii.Common.Bits.{and_mask, ring_injective}
use native.Mathlib.Nat.{mod-lt, one-le-pow, add-mod_right, mod-eq_of_lt}
use native.Mathlib.Decide.{dec_lt, ℕ_discrete}
use cereggii.AtomicDict.Runtime.{Meta, size_of}
use cereggii.AtomicDict.Resize.{clear_loop, memset_index, initialize_in_new_meta}

-- Places that are less than a round apart are different.
pub apart : (n x y : ℕ) → x < y → y < x + n → x % n ≢ y % n
apart n x y lt near e =
    let start : (x + 0) % n ≡ x % n = ap (λ (t : ℕ). t % n) {x = x + 0} {y = x} (omega arith) in
    let end : (x + (y - x)) % n ≡ y % n =
      ap (λ (t : ℕ). t % n) {x = x + (y - x)} {y = y} (omega arith) in
    let none_between : 0 ≡ y - x =
      ring_injective n x 0 (y - x) (omega arith) (omega arith) (start ∙ e ∙ sym end) in
    omega arith

-- The same table with another index.
abbrev pub with_index : Meta → (ℕ → ℕ) → Meta
with_index m index = record m { index = index }

-- The word of a place that may be counted past the end of the index.
abbrev pub word_at : Meta → (ℕ → ℕ) → ℕ → ℕ
word_at m index place = index (place % size_of m)

module _ (m : Meta) where
  abbrev pub cleared : ℕ → ℕ → (ℕ → ℕ) → ℕ → ℕ
  cleared zero j index = index
  cleared (suc rounds) j index = cleared rounds (j + 1) (update index (bit_and j (size_of m - 1)) 0)

  clear_loop-eq :
      (rounds j : ℕ) (index : ℕ → ℕ)
      → clear_loop rounds j (with_index m index) ≡ with_index m (cleared rounds j index)
  unfolding clear_loop
  clear_loop-eq zero j index = refl
  clear_loop-eq (suc rounds) j index =
      clear_loop-eq rounds (j + 1) (update index (bit_and j (size_of m - 1)) 0)

  module _ (place : ℕ) where
    cleared_stays :
        (rounds j : ℕ) (index : ℕ → ℕ)
        → word_at m index place ≡ 0
        → word_at m (cleared rounds j index) place ≡ 0
    cleared_stays zero j index e = e
    cleared_stays (suc rounds) j index e = cleared_stays rounds (j + 1) _ (ground arith)

    cleared_zero :
        (rounds j : ℕ) (index : ℕ → ℕ)
        → j ≤ place
        → place < j + rounds
        → word_at m (cleared rounds j index) place ≡ 0
    cleared_zero zero j index le lt = absurd (omega arith)
    cleared_zero (suc rounds) j index le lt = elim (ℕ_discrete j place) [
      | yes here ↦ cleared_stays rounds (j + 1) _ (rw (and_mask m.log_size j, here) (ground arith))
      | no later ↦ cleared_zero rounds (j + 1) _ (omega arith) (omega arith)
    ]

    cleared_other :
        (rounds j : ℕ) (index : ℕ → ℕ)
        → j + rounds ≤ place
        → place < j + size_of m
        → word_at m (cleared rounds j index) place ≡ word_at m index place
    cleared_other zero j index le lt = refl
    cleared_other (suc rounds) j index le lt =
        let ne = apart (size_of m) j place (omega arith) lt in
        cleared_other rounds (j + 1) _ (omega arith) (omega arith)
        ∙ rw (and_mask m.log_size j) (ground (arith, ne))

  module _ (first last : ℕ) (index : ℕ → ℕ) where
    abbrev fits : Bool
    fits = (first == bit_and first (size_of m - 1)) && (last == bit_and last (size_of m - 1))

    abbrev set_index : ℕ → ℕ
    set_index q = if leb first q && ltb q (first + (last - first)) then 0 else index q

    memset_words :
        first < size_of m
        → last < size_of m
        → ((place : ℕ) → first ≤ place → place < last → word_at m set_index place ≡ 0)
          × ((place : ℕ)
              → last ≤ place
              → place < first + size_of m
              → word_at m set_index place ≡ word_at m index place)
    memset_words fl ll = (
      λ place le lt. rw (mod-eq_of_lt {n = place} {m = size_of m} (omega arith)) (ground arith),
      λ place le lt. elim (dec_lt place (size_of m)) [
        | yes within ↦ rw (mod-eq_of_lt within) (ground arith)
        | no round ↦
            let n = size_of m in
            let back : place % n ≡ place - n =
              ap (λ (t : ℕ). t % n) {x = place} {y = place - n + n} (omega arith)
              ∙ add-mod_right (place - n) n
              ∙ mod-eq_of_lt (omega arith) in
            rw back (ground arith)
      ],
    )

    fits→lt : fits ≡ true → (first < size_of m) × (last < size_of m)
    fits→lt e =
        let pos = one-le-pow m.log_size 2 (omega arith) in
        let a = mod-lt first {m = size_of m} (omega arith) in
        let b = mod-lt last {m = size_of m} (omega arith) in
        let fa = and_mask m.log_size first in let fb = and_mask m.log_size last in ground arith

  -- The slots of the new index that belong to the slots from `start` to `end` of the old one, both
  -- included, are cleared; others in the round from `start` on keep their words.
  pub initialize_lem :
      (start end : ℕ) (index : ℕ → ℕ)
      → start ≤ end
      → (index' : ℕ → ℕ) × (initialize_in_new_meta (with_index m index) start end
          ≡ with_index m index')
        × ((place : ℕ) → 2 * start ≤ place → place < 2 * end + 2 → word_at m index' place ≡ 0)
        × ((place : ℕ)
            → 2 * end + 2 ≤ place
            → place < 2 * start + size_of m
            → word_at m index' place ≡ word_at m index place)
  unfolding initialize_in_new_meta memset_index
  initialize_lem start end index ordered =
      let first = 2 * start in
      let last = 2 * (end + 1) in
      elim (Bool-cases (fits first last index)) [
        | inl at_once ↦
            let (a, b) = fits→lt first last index at_once in
            let words = memset_words first last index a b in
            (
              set_index first last index,
              rw at_once,
              λ place le lt. words.0 place le (omega arith),
              λ place le lt. words.1 place (omega arith) lt,
            )
        | inr one_by_one ↦ (
          cleared (last - first) first index,
          rw one_by_one (clear_loop-eq (last - first) first index),
          λ place le lt. cleared_zero place (last - first) first index le (omega arith),
          λ place le lt. cleared_other place (last - first) first index (omega arith) (omega arith),
        )
      ]
