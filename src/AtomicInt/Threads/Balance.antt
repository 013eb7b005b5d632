-- ===== src/AtomicInt/Threads/Balance.antt =====
-- No increment is lost and none counts twice (src/cereggii/atomic_int.c).
use cereggii.Common.{List, [], ◌∷◌, ◌++◌, ◌≡◌, ◌+◌, refl, sym, ap, ◌∙◌, arith, Bool-cases, inl, inr}
use cereggii.Common.Int.{ℤ, pos, ◌+ℤ◌, +ℤ_parts, pos_part, neg_part}
use cereggii.AtomicInt.{Checked, add_or_set_overflow, fits_int64}
use cereggii.AtomicInt.Threads.{Call, System, Access, Step, Reaches}

-- What a call has added: its amount, once it has returned.
abbrev pub added : Call → ℤ
added (Call.loading other) = pos 0
added (Call.swapping other current) = pos 0
added (Call.returned other desired) = other
added (Call.failed other e) = pos 0

unfoldable pub total : List Call → ℤ
total [] = pos 0
total (call ∷ calls) = added call +ℤ total calls

ℤ_ext : (a b : ℤ) → pos_part a + neg_part b ≡ pos_part b + neg_part a → a ≡ b
ℤ_ext a b e = ground arith

+ℤ_assoc : (a b c : ℤ) → (a +ℤ b) +ℤ c ≡ a +ℤ (b +ℤ c)
+ℤ_assoc a b c =
    ℤ_ext _ _ (omega (arith, +ℤ_parts a b, +ℤ_parts (a +ℤ b) c, +ℤ_parts b c, +ℤ_parts a (b +ℤ c)))

+ℤ_comm : (a b : ℤ) → a +ℤ b ≡ b +ℤ a
+ℤ_comm a b = ℤ_ext _ _ (omega (arith, +ℤ_parts a b, +ℤ_parts b a))

+ℤ_zero : (a : ℤ) → a +ℤ pos 0 ≡ a
+ℤ_zero a = ℤ_ext _ _ (omega (arith, +ℤ_parts a (pos 0)))

exchange : (a b c : ℤ) → a +ℤ (b +ℤ c) ≡ b +ℤ (a +ℤ c)
exchange a b c = sym (+ℤ_assoc a b c) ∙ ap (λ z. z +ℤ c) (+ℤ_comm a b) ∙ +ℤ_assoc b a c

abbrev value_or_zero : Checked → ℤ
value_or_zero (Checked.result z) = z
value_or_zero (Checked.failure e) = pos 0

-- A successful addition is exact.
added_exactly :
    (a b desired : ℤ) → add_or_set_overflow a b ≡ Checked.result desired → a +ℤ b ≡ desired
unfolding add_or_set_overflow
added_exactly a b desired is = elim (Bool-cases (fits_int64 (a +ℤ b))) [
  | inl fits ↦ ap value_or_zero (rw fits at is)
  | inr large ↦ absurd (cc (rw large at is))
]

-- An access adds to the word what it adds to its call.
Access-adds :
    (integer integer' : ℤ) (call call' : Call)
    → Access integer call integer' call'
    → integer' +ℤ added call ≡ integer +ℤ added call'
Access-adds integer integer' call call' (Access.loads _ other desired is) = refl
Access-adds integer integer' call call' (Access.overflows _ other e is) = refl
Access-adds integer integer' call call' (Access.swaps _ other desired is) =
    +ℤ_zero desired ∙ sym (added_exactly integer other desired is)
Access-adds integer integer' call call' (Access.retries _ other current differ) = refl

total-split :
    (before after : List Call) (call call' : Call) (a b : ℤ)
    → a +ℤ added call ≡ b +ℤ added call'
    → a +ℤ total (before ++ call ∷ after) ≡ b +ℤ total (before ++ call' ∷ after)
unfolding total
total-split [] after call call' a b same =
    sym (+ℤ_assoc a (added call) (total after))
    ∙ ap (λ z. z +ℤ total after) same
    ∙ +ℤ_assoc b (added call') (total after)
total-split (c ∷ before) after call call' a b same =
    let rest = total-split before after call call' a b same in
    exchange a (added c) (total (before ++ call ∷ after))
    ∙ ap (λ z. added c +ℤ z) rest
    ∙ exchange (added c) b (total (before ++ call' ∷ after))

Step-total :
    (s s' : System) → Step s s' → s'.integer +ℤ total (s.calls) ≡ s.integer +ℤ total (s'.calls)
Step-total s s' (Step.step before after call call' integer integer' access) =
    total-split before after call call' integer' integer
      (Access-adds integer integer' call call' access)

chain : (x y z p q r : ℤ) → y +ℤ p ≡ x +ℤ q → z +ℤ q ≡ y +ℤ r → z +ℤ p ≡ x +ℤ r
chain x y z p q r first second = ℤ_ext _ _ (
    omega (
      arith,
      +ℤ_parts z p,
      +ℤ_parts x r,
      +ℤ_parts y p,
      +ℤ_parts x q,
      +ℤ_parts z q,
      +ℤ_parts y r,
      ap pos_part first,
      ap neg_part first,
      ap pos_part second,
      ap neg_part second,
    ))

-- However the accesses of any number of threads interleave, and however often their swaps fail,
-- the word plus the amounts of the calls that had returned before is the former word plus the amounts
-- of the calls that have returned now: no increment is lost, and none counts twice.
pub Reaches-total :
    (s s' : System) → Reaches s s' → s'.integer +ℤ total (s.calls) ≡ s.integer +ℤ total (s'.calls)
Reaches-total s s' (Reaches.here _) = refl
Reaches-total s s' (Reaches.further _ between _ run last) =
    chain (s.integer) (between.integer) (s'.integer) (total (s.calls)) (total (between.calls))
      (total (s'.calls)) (Reaches-total s between run) (Step-total between s' last)
