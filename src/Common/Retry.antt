-- ===== src/Common/Retry.antt =====
-- The loop that every lock-free update of this code is: read a word, compute, and try to swap it
-- in, until no other thread came in between. Other threads enter as the writes that they make to
-- the word just before each access of this thread.
use cereggii.Common.{
  Bool, true, false, Option, some, none, List, [], ◌∷◌, ◌++◌, ◌≡◌, refl, ap, ◌∙◌, Bool-cases, inl,
  inr, ◌⊎◌,
}

-- What one round wants: to give up, or to write a value and then return a result.
pub data Attempt {ℓ} (A R E : Type ℓ) : Type ℓ where
  abort : E → Attempt A R E
  write : A → R → Attempt A R E

Attempt-cases {ℓ} :
    {A R E : Type ℓ} (t : Attempt A R E)
    → ((e : E) × (t ≡ Attempt.abort e)) ⊎ ((a : A) × (r : R) × (t ≡ Attempt.write a r))
Attempt-cases (abort e) = inl (e, refl)
Attempt-cases (write a r) = inr (a, r, refl)

-- How the operation ends.
pub data Outcome {ℓ} (R E : Type ℓ) : Type ℓ where
  returns : R → Outcome R E
  fails : E → Outcome R E

-- Before each access another thread may have written the word.
abbrev pub Others {ℓ} : Type ℓ → Type ℓ
Others A = List (Option A)

module _ {ℓ} {A : Type ℓ} where
  abbrev pub interfere : Option A → A → A
  interfere none word = word
  interfere (some a) word = a

  abbrev pub interfere_all : Others A → A → A
  interfere_all [] word = word
  interfere_all (o ∷ os) word = interfere_all os (interfere o word)

module _ {ℓ} {A R E : Type ℓ} (body : A → Attempt A R E) where
  -- The operation in one indivisible step, with the word and the others' writes that are left.
  abbrev pub atomically : A → Others A → Outcome R E × A × Others A
  atomically word others = elim (body word) [
    | abort e ↦ (Outcome.fails e, word, others)
    | write a r ↦ (Outcome.returns r, a, others)
  ]

  module _ (eq : A → A → Bool) where
    -- A load, then a compare-and-swap, and all again when it fails. Once the others' writes are
    -- used up, the swap is made.
    unfoldable pub retry : Others A → A → Outcome R E × A × Others A
    retry [] word = atomically word []
    retry (o ∷ []) word = atomically (interfere o word) []
    retry (o ∷ o' ∷ others) word =
        let current = interfere o word in
        let seen = interfere o' current in
        elim (body current) [
          | abort e ↦ (Outcome.fails e, current, o' ∷ others)
          | write a r ↦ elim (eq seen current) [
            | true ↦ (Outcome.returns r, a, others)
            | false ↦ retry others seen
          ]
        ]

    -- Linearizability: whatever the other threads write, the loop ends, and it does what the
    -- indivisible operation does at one moment between their writes.
    abbrev pub Linearizes : Others A → A → Type ℓ
    Linearizes others word =
        (before : Others A) × (after : Others A) × (others ≡ before ++ after)
        × (retry others word ≡ atomically (interfere_all before word) after)

    pub retry-Linearizes :
        ((a b : A) → eq a b ≡ true → a ≡ b)
        → (others : Others A) (word : A) → Linearizes others word
    unfolding retry
    retry-Linearizes sound [] word = ([], [], refl, refl)
    retry-Linearizes sound (o ∷ []) word = (o ∷ [], [], refl, refl)
    retry-Linearizes sound (o ∷ o' ∷ others) word =
        let current = interfere o word in
        let seen = interfere o' current in
        elim (Attempt-cases (body current)) [
          | inl (e, gives) ↦ (o ∷ [], o' ∷ others, refl, rw (retry, atomically, gives))
          | inr (a, r, gives) ↦ elim (Bool-cases (eq seen current)) [
            | inl same ↦
                let again : body seen ≡ Attempt.write a r =
                  ap body (sound seen current same) ∙ gives in
                (o ∷ o' ∷ [], others, refl, rw (retry, atomically, gives, same, again))
            | inr other ↦
                let (before, after, split, run) = retry-Linearizes sound others seen in
                (o ∷ o' ∷ before, after, ap (λ l. o ∷ o' ∷ l) split, rw (retry, gives, other) run)
          ]
        ]
