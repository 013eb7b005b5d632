-- ===== src/AtomicDict/Insert/Store.antt =====
-- Storing a value into the entry of a key that the index holds (insert.c, delete.c).
use cereggii.Common.{
  ℕ, ◌==◌, if◌then◌else◌, Option, some, ◌≡◌, ◌≢◌, refl, sym, ◌∙◌, ap, ◌⊎◌, inl, inr, arith,
}
use mathlib.Core.Path.{subst}
use native.Mathlib.Decide.{ℕ_discrete}
use cereggii.AtomicDict.Runtime.{Object, Runtime, IsLawful, Meta}
use cereggii.AtomicDict.Node.{parse_node_from_raw}
use cereggii.AtomicDict.Pages.{get_entry_at, set_value}
use cereggii.AtomicDict.Pages.Stores.{get_entry_at-set_value}
use cereggii.AtomicDict.Index.{node_at, entry_at, IsLive, Holds, IsIndexed}
use cereggii.AtomicDict.Index.Changes.{kept_live_back, kept_place, kept_Holds, kept_Holds_back}
use cereggii.AtomicDict.Index.Writes.{Changes, Changes-unique, Holds-same_key, Holds-congr}

module _ (py : Runtime) (lawful : IsLawful py) (m : Meta) (good : IsIndexed py m) (key old p : ℕ)
    (h : Holds py m key old p) (new : Option Object) where
  abbrev stored : Meta
  stored = set_value (node_at m p).index new m

  node_at-stored : (q : ℕ) → node_at stored q ≡ node_at m q
  unfolding set_value parse_node_from_raw
  node_at-stored q = refl

  entry_at-stored :
      (q : ℕ)
      → entry_at stored q ≡ (
          if (node_at m p).index == (node_at m q).index
          then record (entry_at m p) { value = new }
          else entry_at m q)
  entry_at-stored q =
      ap (λ n. get_entry_at n.index stored) (node_at-stored q)
      ∙ get_entry_at-set_value (node_at m p).index (node_at m q).index new m

  -- Two live slots share no entry.
  own_entry : (q : ℕ) → IsLive m q → (node_at m p).index ≡ (node_at m q).index → q ≡ p
  own_entry q live e =
      let same : entry_at m q ≡ entry_at m p = ap (λ i. get_entry_at i m) (sym e) in
      good.unique q p key old old
        (record {
          live = live;
          stored_key = h.stored_key;
          has_key = ap (λ x. x.key) same ∙ h.has_key;
          equal = h.equal;
          has_value = ap (λ x. x.value) same ∙ h.has_value;
        })
        h

  pub stored_key : (q : ℕ) → (entry_at stored q).key ≡ (entry_at m q).key
  stored_key q = ground (arith, entry_at-stored q)

  pub stored_hash : (q : ℕ) → (entry_at stored q).hash ≡ (entry_at m q).hash
  stored_hash q = ground (arith, entry_at-stored q)

  stored_value : (entry_at stored p).value ≡ new
  stored_value = ground (arith, entry_at-stored p)

  pub stored_other : (q : ℕ) → IsLive m q → q ≢ p → (entry_at stored q).value ≡ (entry_at m q).value
  stored_other q live ne = ground (arith, entry_at-stored q, own_entry q live)

module _ (py : Runtime) (lawful : IsLawful py) (m : Meta) (good : IsIndexed py m) (key old p : ℕ)
    (h : Holds py m key old p) (value : Object) where
  abbrev after : Meta
  after = set_value (node_at m p).index (some value) m

  after_value : (q : ℕ) → IsLive m q → (v : Object) × ((entry_at after q).value ≡ some v)
  after_value q live = elim (ℕ_discrete q p) [
    | yes e ↦ (
      value,
      ap (λ x. (entry_at after x).value) e ∙ stored_value py lawful m good key old p h (some value),
    )
    | no ne ↦ (
      (good.placed q live).value,
      stored_other py lawful m good key old p h (some value) q live ne
          ∙ (good.placed q live).has_value,
    )
  ]

  -- What is held after the store was held before, with its old value away from the written slot.
  Holds-before :
      (k v q : ℕ)
      → Holds py after k v q
      → (v' : Object) × Holds py m k v' q
        × (((q ≡ p) × (some value ≡ some v)) ⊎ ((q ≢ p) × (v' ≡ v)))
  unfolding set_value
  Holds-before k v q now =
      let live = kept_live_back py m m.index after.pages q refl now.live in
      let place = good.placed q live in
      let then_held =
        kept_Holds_back py m m.index after.pages q refl k v place.value
          (stored_key py lawful m good key old p h (some value) q) place.has_value now in
      (
        place.value,
        then_held,
        elim (ℕ_discrete q p) [
          | yes e ↦ inl (
            e,
            sym (stored_value py lawful m good key old p h (some value))
                ∙ sym (ap (λ x. (entry_at after x).value) e)
                ∙ now.has_value,
          )
          | no ne ↦
              let other = stored_other py lawful m good key old p h (some value) q live ne in
              inr (ne, cc (other, now.has_value, place.has_value))
        ],
      )

  pub set_value-Changes : Changes py m after key (some value) p
  unfolding set_value
  set_value-Changes = record {
    sound = λ k v q now.
        let (v', held, how) = Holds-before k v q now in
        elim how [
          | inl (e, is) ↦
              let both : Holds py m k v' p = subst (λ x. Holds py m k v' x) e held in
              inl (Holds-same_key py lawful m key k old v' p h both, is, e)
          | inr (ne, is) ↦ inr (
            λ same. ne (good.unique q p k v' old held (Holds-congr py lawful m key k old p same h)),
            subst (λ x. Holds py m k x q) is held,
          )
        ];
    self = λ v is.
        kept_Holds py m m.index after.pages p refl key old v
          (stored_key py lawful m good key old p h (some value) p)
          (stored_value py lawful m good key old p h (some value) ∙ is) h;
    others = λ k v q apart held.
        let ne : q ≢ p = λ e.
          apart
            (Holds-same_key py lawful m key k old v p h (subst (λ x. Holds py m k v x) e held)) in
        kept_Holds py m m.index after.pages q refl k v v
          (stored_key py lawful m good key old p h (some value) q)
          (stored_other py lawful m good key old p h (some value) q held.live ne ∙ held.has_value)
          held;
  }

  -- Replacing the value of a held key keeps the index well formed.
  pub set_value-IsIndexed : IsIndexed py after
  unfolding set_value parse_node_from_raw
  set_value-IsIndexed = record {
    small = good.small;
    words = good.words;
    placed = λ q live.
        let live' = kept_live_back py m m.index after.pages q refl live in
        let (v, has) = after_value q live' in
        kept_place py m m.index after.pages q refl v
          (stored_key py lawful m good key old p h (some value) q)
          (stored_hash py lawful m good key old p h (some value) q) has (λ _ _ filled. filled)
          (good.placed q live');
    unique = λ a b k v v'. Changes-unique py lawful good set_value-Changes a b k v v';
  }
