-- ===== src/AtomicDict/Length/Correct.antt =====
-- The counters of the accessors are one counter (src/cereggii/atomic_dict/atomic_dict.c).
use cereggii.Common.{
  ℕ, suc, ◌<◌, true, false, List, [], ◌∷◌, ◌≡◌, refl, sym, ap, ◌∙◌, if◌then◌else◌, inl, inr,
  Bool-cases,
}
use cereggii.Common.Int.{ℤ, pos, ◌+ℤ◌}
use mathlib.Core.Path.{subst}
use cereggii.AtomicDict.Accessor.{Storage}
use cereggii.AtomicDict.Length.{
  Lengths, sum_of_accessors_len, clear_local_len, total, len_impl, len_inc, append_accessor,
}
use cereggii.AtomicDict.Length.Sums.{
  +ℤ_assoc, +ℤ_zero, count_of, sum-inc, count-inc, sum-clear, count-clear, sum-append, count-append,
}

-- What threads do to the length, one step after another: a new accessor, a change by the accessor
-- at a place, and `len(d)`.
pub data Event : Type 0 where
  join : Event
  inc : (ix : ℕ) (amount : ℤ) → Event
  ask : Event

abbrev pub new_storage : Storage
new_storage = record {
  local_len = pos 0;
  local_inserted = pos 0;
  local_tombstones = pos 0;
  reservation_buffer = record { start = 0; size = 0; used = 0 };
}

-- The answers to the questions among the events.
abbrev pub answers : List Event → Lengths → List ℤ
answers [] self = []
answers (Event.join ∷ rest) self =
    answers rest (record self { accessors = append_accessor new_storage (self.accessors) })
answers (Event.inc ix amount ∷ rest) self = answers rest (len_inc ix amount self)
answers (Event.ask ∷ rest) self = let (n, self') = len_impl self in n ∷ answers rest self'

-- The same of one counter.
abbrev pub counted : List Event → ℤ → List ℤ
counted [] n = []
counted (Event.join ∷ rest) n = counted rest n
counted (Event.inc ix amount ∷ rest) n = counted rest (n +ℤ amount)
counted (Event.ask ∷ rest) n = n ∷ counted rest n

-- Changes come from accessors that joined.
abbrev pub Joined : List Event → ℕ → Type 0
Joined [] n = Unit
Joined (Event.join ∷ rest) n = Joined rest (suc n)
Joined (Event.inc ix amount ∷ rest) n = (ix < n) × Joined rest n
Joined (Event.ask ∷ rest) n = Joined rest n

-- A length that is not marked as dirty has no changes outstanding.
abbrev pub IsSettled : Lengths → Type 0
IsSettled self = self.len_dirty ≡ false → sum_of_accessors_len (self.accessors) ≡ pos 0

step_join :
    (self : Lengths)
    → total (record self { accessors = append_accessor new_storage (self.accessors) }) ≡ total self
unfolding total
step_join self = ap (λ t. self.len +ℤ t) (sum-append new_storage refl (self.accessors))

step_inc :
    (self : Lengths) (ix : ℕ) (amount : ℤ)
    → ix < count_of (self.accessors)
    → total (len_inc ix amount self) ≡ total self +ℤ amount
unfolding total len_inc
step_inc self ix amount lt =
    ap (λ t. self.len +ℤ t) (sum-inc ix amount (self.accessors) lt)
    ∙ sym (+ℤ_assoc self.len (sum_of_accessors_len (self.accessors)) amount)

gathered_same :
    (self : Lengths)
    → total (record {
      len = total self;
      len_dirty = false;
      accessors = clear_local_len (self.accessors);
    })
      ≡ total self
unfolding total
gathered_same self =
    ap (λ t. (self.len +ℤ sum_of_accessors_len (self.accessors)) +ℤ t) (sum-clear (self.accessors))
    ∙ +ℤ_zero (self.len +ℤ sum_of_accessors_len (self.accessors))

pub ask_clean : (self : Lengths) → self.len_dirty ≡ false → len_impl self ≡ (self.len, self)
unfolding len_impl
ask_clean self clean =
    let len = self.len +ℤ sum_of_accessors_len (self.accessors) in
    let gathered : Lengths = record {
      len = len;
      len_dirty = false;
      accessors = clear_local_len (self.accessors);
    } in
    ap (λ b. if b then (len, gathered) else (self.len, self)) clean

pub ask_dirty :
    (self : Lengths)
    → self.len_dirty ≡ true
    → len_impl self ≡ (
      total self,
      record { len = total self; len_dirty = false; accessors = clear_local_len (self.accessors) },
    )
unfolding len_impl total
ask_dirty self dirty =
    let len = self.len +ℤ sum_of_accessors_len (self.accessors) in
    let gathered : Lengths = record {
      len = len;
      len_dirty = false;
      accessors = clear_local_len (self.accessors);
    } in
    ap (λ b. if b then (len, gathered) else (self.len, self)) dirty

settled_len :
    (self : Lengths) → sum_of_accessors_len (self.accessors) ≡ pos 0 → self.len ≡ total self
unfolding total
settled_len self none = sym (ap (λ t. self.len +ℤ t) none ∙ +ℤ_zero (self.len))

-- Where no change is outstanding unless the length is marked, and changes come from accessors that joined,
-- every `len(d)` is what one counter shows that starts at the length and takes each change at once, whatever accessor
-- makes it and however often the counters are gathered between.
pub answers-counted :
    (events : List Event) (self : Lengths)
    → IsSettled self
    → Joined events (count_of (self.accessors))
    → answers events self ≡ counted events (total self)
unfolding len_impl len_inc total
answers-counted [] self settled joined = refl
answers-counted (Event.join ∷ rest) self settled joined =
    answers-counted rest (record self { accessors = append_accessor new_storage (self.accessors) })
      (λ clean. sum-append new_storage refl (self.accessors) ∙ settled clean)
      (subst (Joined rest) (sym (count-append new_storage (self.accessors))) joined)
    ∙ ap (counted rest) (step_join self)
answers-counted (Event.inc ix amount ∷ rest) self settled (lt, joined) =
    answers-counted rest (len_inc ix amount self) (λ clean. absurd (cc clean))
      (subst (Joined rest) (sym (count-inc ix amount (self.accessors))) joined)
    ∙ ap (counted rest) (step_inc self ix amount lt)
answers-counted (Event.ask ∷ rest) self settled joined = elim (Bool-cases (self.len_dirty)) [
  | inl dirty ↦
      let gathered : Lengths = record {
        len = total self;
        len_dirty = false;
        accessors = clear_local_len (self.accessors);
      } in
      rw (len_impl, dirty)
        (ap (λ t. total self ∷ t)
          (answers-counted rest gathered (λ _. sum-clear (self.accessors))
              (subst (Joined rest) (sym (count-clear (self.accessors))) joined)
            ∙ ap (counted rest) (gathered_same self)))
  | inr clean ↦
      let same : self.len ≡ total self = settled_len self (settled clean) in
      ap (λ (r : ℤ × Lengths). r.0 ∷ answers rest (r.1)) (ask_clean self clean)
      ∙ ap (λ t. t ∷ answers rest self) same
      ∙ ap (λ t. total self ∷ t) (answers-counted rest self settled joined)
]
