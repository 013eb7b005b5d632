-- ===== src/AtomicDict/Delete/Correct.antt =====
-- `delete_` removes exactly the key that it is given (delete.c).
use cereggii.Common.{
  ℕ, ◌<◌, ==_refl, true, false, some, none, ◌≡◌, ◌≢◌, refl, sym, ◌∙◌, ap, inl, inr, arith, update,
}
use mathlib.Core.Path.{subst}
use native.Mathlib.Decide.{ℕ_discrete}
use native.Mathlib.Nat.{one-le-pow}
use cereggii.AtomicDict.Runtime.{Object, Runtime, IsLawful, Node, Meta, size_of}
use cereggii.AtomicDict.Node.{
  parse_node_from_raw, compute_raw_node, write_raw_node_at, atomic_write_node_at, is_empty,
  is_tombstone,
}
use cereggii.AtomicDict.Node.Encoding.{compute-parse, raw-lt}
use cereggii.AtomicDict.Node.Hashing.{tombstone, tombstone_iff}
use cereggii.AtomicDict.Pages.{get_entry_at, set_value}
use cereggii.AtomicDict.Index.{node_at, entry_at, IsLive, IsPlaced, Holds, IsIndexed}
use cereggii.AtomicDict.Index.Changes.{kept_live_back, kept_place, kept_Holds, kept_Holds_back}
use cereggii.AtomicDict.Index.Writes.{Changes, Changes-unique, Holds-same_key, Holds-congr}
use cereggii.AtomicDict.Insert.Store.{stored_key, stored_hash, stored_other}
use cereggii.AtomicDict.Lookup.Correct.{lookup_correct}
use cereggii.AtomicDict.Delete.{Deletion, delete_found, delete_}

module _ (py : Runtime) (lawful : IsLawful py) (m : Meta) (good : IsIndexed py m) (key old p : ℕ)
    (h : Holds py m key old p) where
  abbrev grave : ℕ
  grave = (compute_raw_node (tombstone m) m).node

  abbrev index' : ℕ → ℕ
  index' = update m.index p grave

  abbrev cleared : Meta
  cleared = set_value (node_at m p).index none m

  abbrev pub after : Meta
  after = write_raw_node_at p grave cleared

  raw-cleared : (n : Node) → compute_raw_node n cleared ≡ compute_raw_node n m
  unfolding set_value compute_raw_node
  raw-cleared n = refl

  index-cleared : cleared.index p ≡ m.index p
  unfolding set_value
  index-cleared = refl

  pub delete_found-after : delete_found m p (node_at m p) (node_at m p).index ≡ after
  unfolding delete_found atomic_write_node_at
  delete_found-after =
      let same =
        compute-parse m (omega (arith, good.small)) (m.index p) (good.words p h.live.within) in
      rw (
        delete_found,
        atomic_write_node_at,
        raw-cleared (node_at m p),
        index-cleared,
        same,
        ==_refl,
        raw-cleared (tombstone m),
      )

  pub word_old : (q : ℕ) → q ≢ p → after.index q ≡ m.index q
  unfolding set_value
  word_old q ne = ground arith

  entry_old : (q : ℕ) → q ≢ p → entry_at after q ≡ entry_at cleared q
  unfolding set_value get_entry_at parse_node_from_raw
  entry_old q ne = rw (word_old q ne)

  node_grave : node_at after p ≡ parse_node_from_raw grave m
  unfolding set_value parse_node_from_raw
  node_grave = ap (λ x. parse_node_from_raw x m) (let e : after.index p ≡ grave = ground arith in e)

  is_grave : is_tombstone (node_at after p) ≡ true
  is_grave =
      ap (λ n. is_tombstone n) node_grave
      ∙ (tombstone_iff m (omega (arith, good.small))).1 (omega (arith, good.small))

  fills :
      (q : ℕ) → q < size_of m → is_empty (node_at m q) ≡ false → is_empty (node_at after q) ≡ false
  unfolding set_value parse_node_from_raw
  fills q lt filled = elim (ℕ_discrete q p) [
    | yes e ↦ rw e (ground (arith, is_grave))
    | no ne ↦ rw (word_old q ne) filled
  ]

  module _ (q : ℕ) (ne : q ≢ p) where
    pub old_live : IsLive after q → IsLive m q
    unfolding set_value
    old_live live = kept_live_back py m after.index after.pages q (word_old q ne) live

    old_key : (entry_at after q).key ≡ (entry_at m q).key
    old_key = ap (λ e. e.key) (entry_old q ne) ∙ stored_key py lawful m good key old p h none q

    old_hash : (entry_at after q).hash ≡ (entry_at m q).hash
    old_hash = ap (λ e. e.hash) (entry_old q ne) ∙ stored_hash py lawful m good key old p h none q

    old_value : IsLive m q → (entry_at after q).value ≡ (entry_at m q).value
    old_value live =
        ap (λ e. e.value) (entry_old q ne)
        ∙ stored_other py lawful m good key old p h none q live ne

    old_Holds : (k v : ℕ) → Holds py after k v q → Holds py m k v q
    unfolding set_value
    old_Holds k v now =
        kept_Holds_back py m after.index after.pages q (word_old q ne) k v v old_key
          (sym (old_value (old_live now.live)) ∙ now.has_value) now

    new_Holds : (k v : ℕ) → Holds py m k v q → Holds py after k v q
    unfolding set_value
    new_Holds k v held =
        kept_Holds py m after.index after.pages q (word_old q ne) k v v old_key
          (old_value held.live ∙ held.has_value) held

    old_place : IsLive after q → IsPlaced py after q
    unfolding set_value
    old_place live =
        let place = good.placed q (old_live live) in
        kept_place py m after.index after.pages q (word_old q ne) place.value old_key old_hash
          (old_value (old_live live) ∙ place.has_value) fills place

  pub gone : IsLive after p → ⊥
  gone live = cc (is_grave, live.kept)

  pub delete-Changes : Changes py m after key none p
  delete-Changes = record {
    sound = λ k v q now.
        let ne : q ≢ p = λ e. gone (subst (λ x. IsLive after x) e now.live) in
        let was = old_Holds q ne k v now in
        inr (
          λ same. ne (good.unique q p k v old was (Holds-congr py lawful m key k old p same h)),
          was,
        );
    self = λ v is. cc is;
    others = λ k v q apart held.
        let ne : q ≢ p = λ e.
          apart
            (Holds-same_key py lawful m key k old v p h (subst (λ x. Holds py m k v x) e held)) in
        new_Holds q ne k v held;
  }

  pub delete-IsIndexed : IsIndexed py after
  unfolding set_value
  delete-IsIndexed = record {
    small = good.small;
    words = λ q lt. elim (ℕ_discrete q p) [
      | yes e ↦ ground (
        arith,
        raw-lt m (omega (arith, good.small)) (tombstone m) (one-le-pow m.log_size 2 (omega arith)),
      )
      | no ne ↦ rw (word_old q ne) (good.words q lt)
    ];
    placed = λ q live. elim (ℕ_discrete q p) [
      | yes e ↦ absurd (gone (subst (λ x. IsLive after x) e live))
      | no ne ↦ old_place q ne live
    ];
    unique = λ a b k v v'. Changes-unique py lawful good delete-Changes a b k v v';
  }

-- The contract of a deletion.
abbrev pub Removes : Runtime → Meta → Object → Deletion → Type 0
Removes py m key Deletion.error = ⊥
Removes py m key Deletion.not_found = (v p : ℕ) → ¬ Holds py m key v p
Removes py m key (Deletion.deleted entry m') =
    (p : ℕ) × (v : ℕ) × Holds py m key v p
    × (entry ≡ entry_at m p)
    × IsIndexed py m'
    × Changes py m m' key none p

-- In a well-formed index where no comparison raises, `delete_` reports a missing key exactly when no slot holds it; otherwise it hands back the entry,
-- removes the key, keeps every other key, and leaves the index well formed.
pub delete_-Removes :
    (py : Runtime)
    → IsLawful py
    → (m : Meta) → IsIndexed py m
    → (key hash : ℕ) → py.hash_of key ≡ some hash
    → Removes py m key (delete_ py m key hash)
unfolding delete_
delete_-Removes py lawful m good key hash hashed =
    elim (lookup_correct py lawful m good key hash hashed) [
      | inl (p, v, h, run) ↦
          rw (delete_, run, delete_found-after py lawful m good key v p h)
            (
              p,
              v,
              h,
              refl,
              delete-IsIndexed py lawful m good key v p h,
              delete-Changes py lawful m good key v p h,
            )
      | inr (absent, run) ↦ rw (delete_, run) absent
    ]
