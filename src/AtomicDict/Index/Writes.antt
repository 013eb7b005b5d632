-- ===== src/AtomicDict/Index/Writes.antt =====
-- What a write under one key does to the contents of an index, and what lookups see of it.
use cereggii.Common.{
  ℕ, true, false, Option, some, none, ◌≡◌, ◌≢◌, refl, sym, ap, ◌∙◌, ◌⊎◌, inl, inr,
}
use mathlib.Core.Path.{subst}
use cereggii.AtomicDict.Runtime.{Object, Runtime, IsLawful, Meta}
use cereggii.AtomicDict.Index.{entry_at, Holds, IsIndexed}
use cereggii.AtomicDict.Lookup.{SearchResult, lookup}
use cereggii.AtomicDict.Lookup.Correct.{lookup_correct}

option_ext :
    (a b : Option Object)
    → ((v : Object) → a ≡ some v → b ≡ some v)
    → ((v : Object) → b ≡ some v → a ≡ some v)
    → a ≡ b
option_ext none none f g = refl
option_ext none (some b) f g = g b refl
option_ext (some a) b f g = sym (f a refl)

-- The value that a search returns.
abbrev pub value_of : SearchResult → Option Object
value_of SearchResult.error = none
value_of SearchResult.not_found = none
value_of (SearchResult.found _ _ _ e) = e.value

-- From `m` to `m'` the key gets the value `new` in the slot `p`, or loses its value, and the other
-- keys keep theirs.
pub record Changes (py : Runtime) (m m' : Meta) (key : Object) (new : Option Object) (p : ℕ)
    : Type 0 where
  pub sound :
      (k v q : ℕ)
      → Holds py m' k v q
      → ((py.rich_eq key k ≡ some true) × (new ≡ some v) × (q ≡ p))
        ⊎ ((py.rich_eq key k ≢ some true) × Holds py m k v q)
  pub self : (v : Object) → new ≡ some v → Holds py m' key v p
  pub others : (k v q : ℕ) → py.rich_eq key k ≢ some true → Holds py m k v q → Holds py m' k v q

module _ (py : Runtime) (lawful : IsLawful py) where
  pub Holds-congr :
      (m : Meta) (key k v p : ℕ)
      → py.rich_eq key k ≡ some true
      → Holds py m key v p
      → Holds py m k v p
  Holds-congr m key k v p e h = record {
    live = h.live;
    stored_key = h.stored_key;
    has_key = h.has_key;
    equal = lawful.eq_trans h.stored_key key k h.equal e;
    has_value = h.has_value;
  }

  -- Two keys held in one slot are equal.
  pub Holds-same_key :
      (m : Meta) (key k v v' p : ℕ)
      → Holds py m key v p
      → Holds py m k v' p
      → py.rich_eq key k ≡ some true
  Holds-same_key m key k v v' p h h' =
      let same : h.stored_key ≡ h'.stored_key = cc (h.has_key, h'.has_key) in
      let there : py.rich_eq h.stored_key k ≡ some true = rw same h'.equal in
      lawful.eq_trans key h.stored_key k (lawful.eq_symm h.stored_key key h.equal) there

  pub Changes-unique :
      {m m' : Meta} {key : Object} {new : Option Object} {p : ℕ}
      → IsIndexed py m
      → Changes py m m' key new p
      → (a b k v v' : ℕ) → Holds py m' k v a
      → Holds py m' k v' b
      → a ≡ b
  Changes-unique good c a b k v v' h h' = elim (c.sound k v a h) [
    | inl (same, _, here) ↦ elim (c.sound k v' b h') [
      | inl (_, _, there) ↦ here ∙ sym there
      | inr (differ, _) ↦ absurd (differ same)
    ]
    | inr (differ, old) ↦ elim (c.sound k v' b h') [
      | inl (same, _, _) ↦ absurd (differ same)
      | inr (_, old') ↦ good.unique a b k v v' old old'
    ]
  ]

  module _ (m : Meta) (good : IsIndexed py m) (k hash : ℕ) (hashed : py.hash_of k ≡ some hash) where
    pub value-Holds :
        (v : Object) → value_of (lookup py m k hash) ≡ some v → (p : ℕ) × Holds py m k v p
    value-Holds v e = elim (lookup_correct py lawful m good k hash hashed) [
      | inl (p, v', h, run) ↦
          let same : v' ≡ v = cc (ap value_of run, e, h.has_value) in
          (p, subst (λ x. Holds py m k x p) same h)
      | inr (_, run) ↦ absurd (cc (ap value_of run, e))
    ]

    pub Holds-value : (v p : Object) → Holds py m k v p → value_of (lookup py m k hash) ≡ some v
    Holds-value v p h = elim (lookup_correct py lawful m good k hash hashed) [
      | inl (q, v', h', run) ↦
          let here : q ≡ p = good.unique q p k v' v h' h in
          ap value_of run ∙ ap (λ x. (entry_at m x).value) here ∙ h.has_value
      | inr (absent, _) ↦ absurd (absent v p h)
    ]

  -- A change under one key, seen through `lookup`: equal keys read the new value, and every other
  -- key reads what it read before.
  pub Changes-lookup :
      (m m' : Meta) (key : Object) (new : Option Object) (p : ℕ)
      → IsIndexed py m
      → IsIndexed py m'
      → Changes py m m' key new p
      → (k hash : ℕ) → py.hash_of k ≡ some hash
      → ((py.rich_eq key k ≡ some true) × (value_of (lookup py m' k hash) ≡ new))
        ⊎ ((py.rich_eq key k ≡ some false)
            × (value_of (lookup py m' k hash) ≡ value_of (lookup py m k hash)))
  Changes-lookup m m' key new p good good' c k hash hashed = elim (lawful.eq_decides key k) [
    | inl same ↦ inl (
      same,
      option_ext _ new
          (λ v e.
            let (q, h) = value-Holds m' good' k hash hashed v e in
            elim (c.sound k v q h) [ inl (_, is, _) ↦ is | inr (differ, _) ↦ absurd (differ same) ])
          (λ v e.
            Holds-value m' good' k hash hashed v p (Holds-congr m' key k v p same (c.self v e))),
    )
    | inr differ ↦
        let apart : py.rich_eq key k ≢ some true = λ same. cc (same, differ) in
        inr (
          differ,
          option_ext _ _
              (λ v e.
                let (q, h) = value-Holds m' good' k hash hashed v e in
                elim (c.sound k v q h) [
                  | inl (same, _, _) ↦ absurd (apart same)
                  | inr (_, old) ↦ Holds-value m good k hash hashed v q old
                ])
              (λ v e.
                let (q, h) = value-Holds m good k hash hashed v e in
                Holds-value m' good' k hash hashed v q (c.others k v q apart h)),
        )
  ]
