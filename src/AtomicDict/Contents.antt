-- ===== src/AtomicDict/Contents.antt =====
-- What a reader finds after an insertion, an update or a deletion: the operations on one key
-- followed by a lookup of any key (src/cereggii/atomic_dict/insert.c, delete.c, lookup.c).
use cereggii.Common.{ℕ, Option, some, none, true, false, ◌≡◌, ◌⊎◌}
use cereggii.AtomicDict.Runtime.{Object, Runtime, IsLawful, Entry, Meta}
use cereggii.AtomicDict.Lookup.{lookup}
use cereggii.AtomicDict.Index.{IsIndexed}
use cereggii.AtomicDict.Index.Writes.{value_of, Changes-lookup}
use cereggii.AtomicDict.Insert.{Expected, Insertion, expected_insert_or_update}
use cereggii.AtomicDict.Insert.Rounds.{IsReserved, MayInsert, Contract, Succeeds}
use cereggii.AtomicDict.Insert.Correct.{expected_insert_or_update-Contract}
use cereggii.AtomicDict.Delete.{Deletion, delete_}
use cereggii.AtomicDict.Delete.Correct.{Removes, delete_-Removes}

-- A lookup of `k` reads `new` where `k` equals `key`, and otherwise what it read before.
abbrev pub Reads : Runtime → Meta → Meta → Object → Option Object → Type 0
Reads py m m' key new =
    (k hash : ℕ)
    → py.hash_of k ≡ some hash
    → ((py.rich_eq key k ≡ some true) × (value_of (lookup py m' k hash) ≡ new))
      ⊎ ((py.rich_eq key k ≡ some false)
          × (value_of (lookup py m' k hash) ≡ value_of (lookup py m k hash)))

-- The table that an insertion or update leaves.
abbrev pub table_after : Meta → Insertion → Meta
table_after m (Insertion.inserted m') = m'
table_after m (Insertion.replaced old m') = m'
table_after m Insertion.raised = m
table_after m Insertion.contended = m
table_after m Insertion.must_grow = m
table_after m Insertion.unexpected = m

abbrev pub Wrote : Insertion → Type 0
Wrote (Insertion.inserted m') = Unit
Wrote (Insertion.replaced old m') = Unit
Wrote Insertion.raised = ⊥
Wrote Insertion.contended = ⊥
Wrote Insertion.must_grow = ⊥
Wrote Insertion.unexpected = ⊥

module _ (py : Runtime) (lawful : IsLawful py) (m : Meta) (good : IsIndexed py m) (key hash : ℕ)
    (hashed : py.hash_of key ≡ some hash) where
  Succeeds-Reads :
      (m' : Meta) (desired : Object)
      → Succeeds py m m' key desired
      → Reads py m m' key (some desired)
  Succeeds-Reads m' desired (good', (p, changes)) =
      Changes-lookup py lawful m m' key (some desired) p good good' changes

  Wrote-Reads :
      (expected : Expected) (desired : Object) (r : Insertion)
      → Contract py m key hash expected desired r
      → Wrote r
      → Reads py m (table_after m r) key (some desired)
  Wrote-Reads expected desired (Insertion.inserted m') (_, _, ok) w = Succeeds-Reads m' desired ok
  Wrote-Reads expected desired (Insertion.replaced old m') (_, _, ok) w =
      Succeeds-Reads m' desired ok
  Wrote-Reads expected desired Insertion.raised c w = absurd w
  Wrote-Reads expected desired Insertion.contended c w = absurd w
  Wrote-Reads expected desired Insertion.must_grow c w = absurd w
  Wrote-Reads expected desired Insertion.unexpected c w = absurd w

  -- In a well-formed index where no comparison raises, with a filled entry in reserve where the call
  -- may insert, a call of `expected_insert_or_update`
  -- that inserts or replaces makes lookups of equal keys read the new value, and leaves what
  -- lookups of every other key read.
  pub insert-lookup :
      (expected : Expected) (desired location : ℕ)
      → (MayInsert expected → IsReserved py m key desired hash location)
      → Wrote (expected_insert_or_update py key hash expected desired location false m)
      → Reads py m
          (table_after m (expected_insert_or_update py key hash expected desired location false m))
          key
          (some desired)
  insert-lookup expected desired location reserved =
      Wrote-Reads expected desired
        (expected_insert_or_update py key hash expected desired location false m)
        (expected_insert_or_update-Contract py lawful m good key hash hashed desired location
          expected reserved)

  Removes-Reads :
      (r : Deletion)
      → Removes py m key r
      → (entry : Entry) (m' : Meta) → r ≡ Deletion.deleted entry m'
      → Reads py m m' key none
  Removes-Reads r removes entry m' is =
      let (p, v, h, _, good', changes) = rw is at removes in
      Changes-lookup py lawful m m' key none p good good' changes

  -- In a well-formed index where no comparison raises, when `delete_` finds the key, a lookup of an equal key afterwards reads
  -- no value, and lookups of every other key read what they read before.
  pub delete-lookup :
      (entry : Entry) (m' : Meta)
      → delete_ py m key hash ≡ Deletion.deleted entry m'
      → Reads py m m' key none
  delete-lookup =
      Removes-Reads (delete_ py m key hash) (delete_-Removes py lawful m good key hash hashed)
