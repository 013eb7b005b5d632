-- ===== src/AtomicDict/Length/Sums.antt =====
-- Sums over the counters of accessors (src/cereggii/atomic_dict/atomic_dict.c).
use cereggii.Common.{ℕ, zero, suc, ◌<◌, ◌+◌, List, [], ◌∷◌, ◌≡◌, refl, sym, ap, ◌∙◌, arith}
use cereggii.Common.Int.{ℤ, pos, pos_part, neg_part, ◌+ℤ◌, +ℤ_parts, ==ℤ→≡}
use cereggii.AtomicDict.Accessor.{Storage}
use cereggii.AtomicDict.Length.{
  sum_of_accessors_len, clear_local_len, inc_local_len, append_accessor,
}

ℤ_ext : (a b : ℤ) → pos_part a + neg_part b ≡ pos_part b + neg_part a → a ≡ b
ℤ_ext a b e = ==ℤ→≡ a b (ground (arith, e))

pub +ℤ_assoc : (a b c : ℤ) → (a +ℤ b) +ℤ c ≡ a +ℤ (b +ℤ c)
+ℤ_assoc a b c =
    ℤ_ext _ _ (omega (arith, +ℤ_parts a b, +ℤ_parts b c, +ℤ_parts (a +ℤ b) c, +ℤ_parts a (b +ℤ c)))

pub +ℤ_comm : (a b : ℤ) → a +ℤ b ≡ b +ℤ a
+ℤ_comm a b = ℤ_ext _ _ (omega (arith, +ℤ_parts a b, +ℤ_parts b a))

pub +ℤ_zero : (a : ℤ) → a +ℤ pos 0 ≡ a
+ℤ_zero a = ℤ_ext _ _ (omega (arith, +ℤ_parts a (pos 0)))

abbrev pub count_of : List Storage → ℕ
count_of [] = 0
count_of (storage ∷ rest) = suc (count_of rest)

pub sum-inc :
    (ix : ℕ) (inc : ℤ) (accessors : List Storage)
    → ix < count_of accessors
    → sum_of_accessors_len (inc_local_len ix inc accessors) ≡ sum_of_accessors_len accessors +ℤ inc
unfolding sum_of_accessors_len inc_local_len
sum-inc ix inc [] lt = absurd (omega arith)
sum-inc zero inc (s ∷ rest) lt =
    +ℤ_assoc s.local_len inc (sum_of_accessors_len rest)
    ∙ ap (λ t. s.local_len +ℤ t) (+ℤ_comm inc (sum_of_accessors_len rest))
    ∙ sym (+ℤ_assoc s.local_len (sum_of_accessors_len rest) inc)
sum-inc (suc ix) inc (s ∷ rest) lt =
    ap (λ t. s.local_len +ℤ t) (sum-inc ix inc rest (omega arith))
    ∙ sym (+ℤ_assoc s.local_len (sum_of_accessors_len rest) inc)

pub count-inc :
    (ix : ℕ) (inc : ℤ) (l : List Storage) → count_of (inc_local_len ix inc l) ≡ count_of l
unfolding inc_local_len
count-inc ix inc [] = refl
count-inc zero inc (s ∷ rest) = refl
count-inc (suc ix) inc (s ∷ rest) = ap suc (count-inc ix inc rest)

pub sum-clear : (l : List Storage) → sum_of_accessors_len (clear_local_len l) ≡ pos 0
unfolding sum_of_accessors_len clear_local_len
sum-clear [] = refl
sum-clear (s ∷ rest) = ap (λ t. pos 0 +ℤ t) (sum-clear rest) ∙ +ℤ_zero (pos 0)

pub count-clear : (l : List Storage) → count_of (clear_local_len l) ≡ count_of l
unfolding clear_local_len
count-clear [] = refl
count-clear (s ∷ rest) = ap suc (count-clear rest)

pub sum-append :
    (s : Storage)
    → s.local_len ≡ pos 0
    → (l : List Storage) → sum_of_accessors_len (append_accessor s l) ≡ sum_of_accessors_len l
unfolding sum_of_accessors_len append_accessor
sum-append s zeroed [] = +ℤ_zero s.local_len ∙ zeroed
sum-append s zeroed (first ∷ rest) = ap (λ t. first.local_len +ℤ t) (sum-append s zeroed rest)

pub count-append :
    (s : Storage) (l : List Storage) → count_of (append_accessor s l) ≡ suc (count_of l)
unfolding append_accessor
count-append s [] = refl
count-append s (first ∷ rest) = ap suc (count-append s rest)
