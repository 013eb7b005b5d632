-- ===== src/AtomicDict/CompareAndSet/Contract.antt =====
-- What `AtomicDict_CompareAndSet` promises (src/cereggii/atomic_dict/insert.c).
use cereggii.Common.{ℕ, ◌*◌, ◌/◌, Bool, true, false, Option, some, ◌≡◌, ◌⊎◌, inl, inr}
use cereggii.Common.Int.{ℤ, pos, ◌+ℤ◌, ◌≤ℤ◌, rem_ℤ}
use cereggii.AtomicDict.Runtime.{Object, Runtime, Meta, size_of}
use cereggii.AtomicDict.Index.{Holds}
use cereggii.AtomicDict.Index.Writes.{Changes}
use cereggii.AtomicDict.Insert.{Expected}
use cereggii.AtomicDict.Insert.Rounds.{MayInsert, Meets}
use cereggii.AtomicDict.Accessor.{Dictionary}
use cereggii.AtomicDict.Reservation.Invariant.{IsSound}
use cereggii.AtomicDict.CompareAndSet.{Setting}
use cereggii.AtomicDict.CompareAndSet.Reserve.{SameContents}

-- The counters of the accessor and the length.
abbrev pub counters : Dictionary → Bool × ℤ × ℤ × ℤ × ℤ
counters self = (
  self.len_dirty, self.len, self.storage.local_len, self.storage.local_inserted,
  self.storage.local_tombstones,
)

-- The same contents and counters, and still sound.
abbrev pub Keeps : Runtime → Dictionary → Dictionary → Type 0
Keeps py self self' =
    IsSound py self'
    × SameContents py (self.metadata) (self'.metadata)
    × (counters self' ≡ counters self)

-- When an insertion asks for a larger table: its count of insertions is a multiple of the binary logarithm of the size,
-- and at least two thirds of the size.
abbrev pub IsDue : Dictionary → Type 0
IsDue self =
    (rem_ℤ (self.storage.local_inserted) (pos self.metadata.log_size) ≡ pos 0)
    × (pos (size_of (self.metadata) * 2 / 3) ≤ℤ self.storage.local_inserted)

abbrev pub Tells : Bool → Dictionary → Type 0
Tells true self = IsDue self
Tells false self = ¬ IsDue self

-- The value under one key changed.
abbrev pub Puts : Runtime → Dictionary → Dictionary → Object → Object → Type 0
Puts py self self' key desired =
    IsSound py self' × ((p : ℕ) × Changes py (self.metadata) (self'.metadata) key (some desired) p)

-- The contract of a compare-and-set, by its result.
abbrev pub Compares : Runtime → Dictionary → Object → Expected → Object → Setting → Type 0
Compares py self key expected desired Setting.value_error = ⊥
Compares py self key expected desired (Setting.raised self') = ⊥
Compares py self key expected desired (Setting.contended self') = ⊥
Compares py self key expected desired (Setting.must_grow self') = Keeps py self self'
Compares py self key expected desired (Setting.expectation_failed self') =
    Keeps py self self'
    × (((v : ℕ) × (p : ℕ) × Holds py (self.metadata) key v p × (¬ Meets expected v))
        ⊎ ((¬ MayInsert expected) × ((v p : ℕ) → ¬ Holds py (self.metadata) key v p)))
Compares py self key expected desired (Setting.not_found grows self') =
    MayInsert expected
    × ((v p : ℕ) → ¬ Holds py (self.metadata) key v p)
    × Puts py self self' key desired
    × (counters self' ≡ (
      true,
      self.len,
      self.storage.local_len +ℤ pos 1,
      self.storage.local_inserted +ℤ pos 1,
      self.storage.local_tombstones,
    ))
    × Tells grows self'
Compares py self key expected desired (Setting.current old self') =
    Meets expected old
    × ((p : ℕ) × Holds py (self.metadata) key old p)
    × Puts py self self' key desired
    × (counters self' ≡ counters self)

module _ (py : Runtime) where
  pub Changes-around :
      (m m1 m2 m3 : Meta) (key : Object) (new : Option Object) (p : ℕ)
      → SameContents py m m1
      → Changes py m1 m2 key new p
      → SameContents py m2 m3
      → Changes py m m3 key new p
  Changes-around m m1 m2 m3 key new p before c after = record {
    sound = λ k v q h. elim (c.sound k v q ((after k v q).1 h)) [
      | inl here ↦ inl here
      | inr (differ, held) ↦ inr (differ, (before k v q).1 held)
    ];
    self = λ v is. (after key v p).0 (c.self v is);
    others = λ k v q differ held. (after k v q).0 (c.others k v q differ ((before k v q).0 held));
  }

  pub SameContents-refl : (m : Meta) → SameContents py m m
  SameContents-refl m key value q = (λ h. h, λ h. h)

  pub SameContents-trans :
      (m m' m'' : Meta) → SameContents py m m' → SameContents py m' m'' → SameContents py m m''
  SameContents-trans m m' m'' a b key value q =
      (λ h. (b key value q).0 ((a key value q).0 h), λ h. (a key value q).1 ((b key value q).1 h))

  -- Counters have no part in the invariant.
  pub IsSound-counts :
      (self : Dictionary)
      → IsSound py self
      → (n a b c : ℤ) (dirty : Bool)
      → IsSound py (record self {
        storage = record (self.storage) { local_len = a; local_inserted = b; local_tombstones = c };
        len = n;
        len_dirty = dirty;
      })
  IsSound-counts self s n a b c dirty = record {
    indexed = s.indexed;
    allocated = record {
      aligned = s.allocated.aligned;
      room = s.allocated.room;
      nonzero = s.allocated.nonzero;
      unpointed = s.allocated.unpointed;
      blank = s.allocated.blank;
      taken = s.allocated.taken;
      claimed = s.allocated.claimed;
    };
  }
