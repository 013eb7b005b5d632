-- ===== src/AtomicDict/Insert/Rounds.antt =====
-- The contract of `expected_insert_or_update`, and the rounds of its loop that end it (insert.c).
use cereggii.Common.{
  ℕ, ◌+◌, ◌%◌, ◌<◌, ==_refl, true, false, some, ◌≡◌, ◌≢◌, refl, ◌⊎◌, inl, inr, arith,
}
use native.Mathlib.Nat.{mod-lt, one-le-pow}
use native.Mathlib.Decide.{ℕ_discrete}
use cereggii.AtomicDict.Runtime.{Object, Runtime, IsLawful, Meta, size_of}
use cereggii.AtomicDict.Node.{
  is_empty, distance0_of, atomic_write_node_at, write_raw_node_at, compute_raw_node,
}
use cereggii.AtomicDict.Node.Encoding.{compute-parse}
use cereggii.AtomicDict.Pages.{get_entry_at, set_value}
use cereggii.AtomicDict.Index.{node_at, IsLive, Holds, IsIndexed}
use cereggii.AtomicDict.Index.Writes.{Changes}
use cereggii.AtomicDict.Insert.{Expected, update_value, Insertion, Round, insert_node}
use cereggii.AtomicDict.Insert.Visit.{settle}
use cereggii.AtomicDict.Insert.Store.{set_value-Changes, set_value-IsIndexed}
use cereggii.AtomicDict.Insert.NewNode.{IsReady, new_node, new_node-Changes, new_node-IsIndexed}

-- The entry at `location` was reserved and filled with the key, its hash and the new value, and no
-- slot points to it.
pub record IsReserved (py : Runtime) (m : Meta) (key value hash location : ℕ) : Type 0 where
  pub has_key : (get_entry_at location m).key ≡ some key
  pub has_hash : (get_entry_at location m).hash ≡ hash
  pub has_value : (get_entry_at location m).value ≡ some value
  pub nonzero : location ≢ 0
  pub fits : location < size_of m
  pub fresh : (q : ℕ) → IsLive m q → (node_at m q).index ≢ location

-- A call that expects NOT_FOUND or ANY may insert.
abbrev pub MayInsert : Expected → Type 0
MayInsert Expected.not_found = Unit
MayInsert Expected.any = Unit
MayInsert (Expected.object _) = ⊥

-- Whether a stored value meets the expectation.
abbrev pub Meets : Expected → Object → Type 0
Meets Expected.not_found v = ⊥
Meets Expected.any v = Unit
Meets (Expected.object x) v = v ≡ x

-- The table after the call: still well formed, with the desired value under the key and every other
-- key as it was.
abbrev pub Succeeds : Runtime → Meta → Meta → Object → Object → Type 0
Succeeds py m m' key desired = IsIndexed py m' × ((p : ℕ) × Changes py m m' key (some desired) p)

-- The contract, by the result of the call.
abbrev pub Contract : Runtime → Meta → Object → ℕ → Expected → Object → Insertion → Type 0
Contract py m key hash expected desired Insertion.raised = ⊥
Contract py m key hash expected desired Insertion.contended = ⊥
Contract py m key hash expected desired Insertion.must_grow =
    ((v p : ℕ) → ¬ Holds py m key v p)
    × ((j : ℕ)
        → j < size_of m
        → is_empty (node_at m ((distance0_of py hash m + j) % size_of m)) ≡ false)
Contract py m key hash expected desired Insertion.unexpected =
    ((v : ℕ) × (p : ℕ) × Holds py m key v p × (¬ Meets expected v))
    ⊎ ((¬ MayInsert expected) × ((v p : ℕ) → ¬ Holds py m key v p))
Contract py m key hash expected desired (Insertion.inserted m') =
    MayInsert expected × ((v p : ℕ) → ¬ Holds py m key v p) × Succeeds py m m' key desired
Contract py m key hash expected desired (Insertion.replaced old m') =
    Meets expected old × ((p : ℕ) × Holds py m key old p) × Succeeds py m m' key desired

module _ (py : Runtime) (lawful : IsLawful py) (m : Meta) (good : IsIndexed py m) (key hash : ℕ)
    (hashed : py.hash_of key ≡ some hash) (desired location : ℕ) where
  -- The loop ends in this round, as the contract says.
  abbrev pub Ends : Expected → Round → Type 0
  Ends expected r =
      (result : Insertion) × (r ≡ Round.done result)
      × Contract py m key hash expected desired result

  pub holder_round :
      (expected : Expected) (old p : ℕ)
      → Holds py m key old p
      → Ends expected (settle (update_value m (node_at m p).index old expected desired))
  unfolding update_value
  holder_round Expected.not_found old p h = (Insertion.unexpected, refl, inl (old, p, h, λ x. x))
  holder_round Expected.any old p h = (
    Insertion.replaced old _,
    refl,
    (
      tt,
      (p, h),
      (
        set_value-IsIndexed py lawful m good key old p h desired,
        (p, set_value-Changes py lawful m good key old p h desired),
      ),
    ),
  )
  holder_round (Expected.object x) old p h = elim (ℕ_discrete old x) [
    | yes same ↦ (
      Insertion.replaced old (set_value (node_at m p).index (some desired) m),
      ground arith,
      (
        same,
        (p, h),
        (
          set_value-IsIndexed py lawful m good key old p h desired,
          (p, set_value-Changes py lawful m good key old p h desired),
        ),
      ),
    )
    | no differ ↦ (Insertion.unexpected, ground arith, inl (old, p, h, differ))
  ]

  module _ (distance : ℕ) (small : distance < size_of m)
      (free : is_empty (node_at m ((distance0_of py hash m + distance) % size_of m)) ≡ true)
      (chain : (j : ℕ)
        → j < distance
        → is_empty (node_at m ((distance0_of py hash m + j) % size_of m)) ≡ false)
      (absent : (v p : ℕ) → ¬ Holds py m key v p) where
    abbrev slot : ℕ
    slot = (distance0_of py hash m + distance) % size_of m

    pub ready :
        IsReserved py m key desired hash location → IsReady py m key desired hash location distance
    ready r = record {
      hashed = hashed;
      has_key = r.has_key;
      has_hash = r.has_hash;
      has_value = r.has_value;
      nonzero = r.nonzero;
      fits = r.fits;
      fresh = r.fresh;
      absent = absent;
      distance_lt = small;
      free = free;
      chain = chain;
    }

    expected_word : (compute_raw_node (node_at m slot) m).node ≡ m.index slot
    expected_word =
        compute-parse m (omega (arith, good.small)) (m.index slot)
          (good.words slot (mod-lt _ (one-le-pow m.log_size 2 (omega arith))))

    abbrev linked : Meta
    linked = write_raw_node_at slot (compute_raw_node (new_node py hash location distance) m).node m

    inserts : IsReserved py m key desired hash location → Succeeds py m linked key desired
    inserts r = (
      new_node-IsIndexed py lawful m good key desired hash location distance (ready r),
      (slot, new_node-Changes py lawful m good key desired hash location distance (ready r)),
    )

    pub empty_round :
        (expected : Expected)
        → (MayInsert expected → IsReserved py m key desired hash location)
        → Ends expected
            (insert_node py key hash expected desired location m slot distance (node_at m slot))
    unfolding insert_node atomic_write_node_at
    empty_round Expected.not_found reserved = (
      Insertion.inserted linked,
      rw (expected_word, ==_refl),
      (tt, absent, inserts (reserved tt)),
    )
    empty_round Expected.any reserved = (
      Insertion.inserted linked,
      rw (expected_word, ==_refl),
      (tt, absent, inserts (reserved tt)),
    )
    empty_round (Expected.object x) reserved = (Insertion.unexpected, refl, inr (λ h. h, absent))
