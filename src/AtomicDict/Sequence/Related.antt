-- ===== src/AtomicDict/Sequence/Related.antt =====
-- When a dictionary stands for a map, and the stores that keep it so.
use cereggii.Common.{
  ℕ, Bool, true, false, Option, none, some, ◌≡◌, sym, ap, ◌∙◌, inl, inr, Option-cases,
  if◌then◌else◌,
}
use cereggii.Common.Int.{ℤ, pos, ◌+ℤ◌}
use cereggii.AtomicDict.Runtime.{Object, Runtime, IsLawful, Meta}
use cereggii.AtomicDict.Index.{Holds}
use cereggii.AtomicDict.Index.Writes.{Changes, Holds-congr}
use cereggii.AtomicDict.Accessor.{Dictionary}
use cereggii.AtomicDict.Reservation.Invariant.{IsSound}
use cereggii.AtomicDict.CompareAndSet.Reserve.{SameContents}
use cereggii.AtomicDict.CompareAndSet.Contract.{Keeps}
use cereggii.AtomicDict.Length.Sums.{+ℤ_assoc, +ℤ_zero}
use cereggii.AtomicDict.Sequence.{Map, put}

-- A key has a value in the map exactly when a slot holds it.
pub record Represents (py : Runtime) (m : Meta) (value_at : Object → Option Object) : Type 0 where
  pub held : (key value : Object) → value_at key ≡ some value → (p : ℕ) × Holds py m key value p
  pub known : (key value p : ℕ) → Holds py m key value p → value_at key ≡ some value

-- The length counts what the map counts, and no change is outstanding unless it is marked.
pub record IsRelated (py : Runtime) (self : Dictionary) (map : Map) : Type 0 where
  pub sound : IsSound py self
  pub contents : Represents py (self.metadata) map.value_at
  pub size : self.len +ℤ self.storage.local_len ≡ map.size
  pub settled : self.len_dirty ≡ false → self.storage.local_len ≡ pos 0

module _ (py : Runtime) (key k : Object) (new : Option Object) (change : ℤ) (map : Map) where
  abbrev chosen : Option Bool → Option Object
  chosen answer = if elim answer [ none ↦ false | some a ↦ a ] then new else map.value_at k

  pub put_same : py.rich_eq key k ≡ some true → (put py key new change map).value_at k ≡ new
  put_same e = ap chosen e

  pub put_other :
      py.rich_eq key k ≡ some false → (put py key new change map).value_at k ≡ map.value_at k
  put_other e = ap chosen e

module _ (py : Runtime) (lawful : IsLawful py) where
  pub Represents-same :
      (m m' : Meta) (f : Object → Option Object)
      → SameContents py m m'
      → Represents py m f
      → Represents py m' f
  Represents-same m m' f same r = record {
    held = λ key value is. let (p, h) = r.held key value is in (p, (same key value p).0 h);
    known = λ key value p h. r.known key value p ((same key value p).1 h);
  }

  pub Represents-put :
      (m m' : Meta) (map : Map) (key : Object) (new : Option Object) (p : ℕ) (change : ℤ)
      → Changes py m m' key new p
      → Represents py m map.value_at
      → Represents py m' (put py key new change map).value_at
  Represents-put m m' map key new p change c r = record {
    held = λ k value is. elim (lawful.eq_decides key k) [
      | inl same ↦
          let there = sym (put_same py key k new change map same) ∙ is in
          (p, Holds-congr py lawful m' key k value p same (c.self value there))
      | inr differ ↦
          let there = sym (put_other py key k new change map differ) ∙ is in
          let (q, h) = r.held k value there in (q, c.others k value q (λ e. cc (e, differ)) h)
    ];
    known = λ k value q h. elim (c.sound k value q h) [
      | inl (same, is, _) ↦ put_same py key k new change map same ∙ is
      | inr (apart, h') ↦ elim (lawful.eq_decides key k) [
        | inl same ↦ absurd (apart same)
        | inr differ ↦ put_other py key k new change map differ ∙ r.known k value q h'
      ]
    ];
  }

  module _ (self : Dictionary) (map : Map) (rel : IsRelated py self map) where
    pub absent :
        (key : Object) → map.value_at key ≡ none → (v p : ℕ) → ¬ Holds py (self.metadata) key v p
    absent key missing v p h = cc (missing, rel.contents.known key v p h)

    pub unknown :
        (key : Object) → ((v p : ℕ) → ¬ Holds py (self.metadata) key v p) → map.value_at key ≡ none
    unknown key never = elim (Option-cases (map.value_at key)) [
      | inl missing ↦ missing
      | inr (v, is) ↦ let (p, h) = rel.contents.held key v is in absurd (never v p h)
    ]

    pub kept-IsRelated : (self' : Dictionary) → Keeps py self self' → IsRelated py self' map
    kept-IsRelated self' (sound, same, counts) = record {
      sound = sound;
      contents = Represents-same (self.metadata) (self'.metadata) map.value_at same rel.contents;
      size = ap (λ (c : Bool × ℤ × ℤ × ℤ × ℤ). c.1 +ℤ c.2) counts ∙ rel.size;
      settled = λ clean.
          ap (λ (c : Bool × ℤ × ℤ × ℤ × ℤ). c.2) counts
          ∙ rel.settled (sym (ap (λ (c : Bool × ℤ × ℤ × ℤ × ℤ). c.0) counts) ∙ clean);
    }

    -- A change of one key, with the counters that it leaves.
    pub changed-IsRelated :
        (self' : Dictionary) (key : Object) (new : Option Object) (p : ℕ) (change : ℤ)
        → IsSound py self'
        → Changes py (self.metadata) (self'.metadata) key new p
        → self'.len ≡ self.len
        → self'.storage.local_len ≡ self.storage.local_len +ℤ change
        → (self'.len_dirty ≡ false → (self.len_dirty ≡ false) × (change ≡ pos 0))
        → IsRelated py self' (put py key new change map)
    changed-IsRelated self' key new p change sound c len local dirty = record {
      sound = sound;
      contents =
          Represents-put (self.metadata) (self'.metadata) map key new p change c rel.contents;
      size =
          ap (λ n. n +ℤ self'.storage.local_len) len
          ∙ ap (λ n. self.len +ℤ n) local
          ∙ sym (+ℤ_assoc self.len (self.storage.local_len) change)
          ∙ ap (λ n. n +ℤ change) rel.size;
      settled = λ clean.
          let (was, still) = dirty clean in
          local
          ∙ ap (λ n. self.storage.local_len +ℤ n) still
          ∙ +ℤ_zero (self.storage.local_len)
          ∙ rel.settled was;
    }
