-- ===== src/AtomicDict/Items/Correct.antt =====
-- What the item methods return and keep (src/cereggii/atomic_dict/lookup.c, delete.c).
use cereggii.Common.{ℕ, Option, none, some, true, ◌≡◌, refl, ◌⊎◌, inl, inr, ap}
use cereggii.Common.Int.{pos, negsuc, ◌+ℤ◌}
use mathlib.Core.Path.{subst}
use cereggii.AtomicDict.Runtime.{Object, Runtime, IsLawful, Entry, Meta}
use cereggii.AtomicDict.Index.{Holds, IsIndexed, entry_at}
use cereggii.AtomicDict.Index.Writes.{Changes}
use cereggii.AtomicDict.Lookup.{SearchResult, lookup}
use cereggii.AtomicDict.Lookup.Correct.{lookup_correct}
use cereggii.AtomicDict.Delete.{Deletion, delete_}
use cereggii.AtomicDict.Delete.Correct.{Removes, delete_-Removes}
use cereggii.AtomicDict.Accessor.{Dictionary, accessor_len_inc, accessor_tombstones_inc}
use cereggii.AtomicDict.Items.{
  Reply, get_item_or_default, get_item, reply_of, or_key_error, get_item_or_default_varargs,
  Removal, del_item,
}

Deletion-cases :
    (d : Deletion)
    → (d ≡ Deletion.error)
      ⊎ ((d ≡ Deletion.not_found) ⊎ ((entry : Entry) × (m : Meta) × (d ≡ Deletion.deleted entry m)))
Deletion-cases Deletion.error = inl refl
Deletion-cases Deletion.not_found = inr (inl refl)
Deletion-cases (Deletion.deleted entry m) = inr (inr (entry, m, refl))

module _ (py : Runtime) (lawful : IsLawful py) (self : Dictionary)
    (good : IsIndexed py (self.metadata)) (key hash : ℕ) (hashed : py.hash_of key ≡ some hash) where
  pub found_reply :
      (value p : ℕ)
      → Holds py (self.metadata) key value p
      → (default_value : Option Object)
      → get_item_or_default py self key default_value ≡ Reply.object value
  unfolding get_item_or_default
  found_reply value p h default_value =
      elim (lookup_correct py lawful (self.metadata) good key hash hashed) [
        | inl (q, other, h', run) ↦
            let here : q ≡ p = good.unique q p key other value h' h in
            let there : (entry_at self.metadata q).value ≡ some value = rw here h.has_value in
            rw (get_item_or_default, hashed, run, there) refl
        | inr (absent, run) ↦ absurd (absent value p h)
      ]

  pub missed_reply :
      lookup py (self.metadata) key hash ≡ SearchResult.not_found
      → (default_value : Option Object)
      → get_item_or_default py self key default_value ≡ reply_of default_value
  unfolding get_item_or_default
  missed_reply run default_value = rw (get_item_or_default, hashed, run) refl

  -- In a well-formed index where no comparison raises, and for a key that can be hashed: where a slot
  -- holds the key, the item methods return its value, with a default or without; where no slot
  -- does, `d[key]` raises KeyError, and `d.get(key)` returns the default, which is `None` if it
  -- is left out.
  pub get_item_correct :
      ((value p : ℕ) × Holds py (self.metadata) key value p
        × (get_item py self key ≡ Reply.object value)
        × ((py_none : Object) (default_value : Option Object)
            → get_item_or_default_varargs py py_none self key default_value ≡ Reply.object value))
      ⊎ (((value p : ℕ) → ¬ Holds py (self.metadata) key value p)
          × (get_item py self key ≡ Reply.key_error)
          × ((py_none : Object)
              → get_item_or_default_varargs py py_none self key none ≡ Reply.object py_none)
          × ((py_none other : Object)
              → get_item_or_default_varargs py py_none self key (some other) ≡ Reply.object other))
  unfolding get_item get_item_or_default_varargs
  get_item_correct = elim (lookup_correct py lawful (self.metadata) good key hash hashed) [
    | inl (p, value, h, run) ↦
        let reply = found_reply value p h in
        inl (
          value,
          p,
          h,
          ap or_key_error (reply none),
          λ py_none d.
              elim d
                as (λ k. get_item_or_default_varargs py py_none self key k ≡ Reply.object value) [
                  | none ↦ reply (some py_none)
                  | some other ↦ reply (some other)
                ],
        )
    | inr (absent, run) ↦
        let reply = missed_reply run in
        inr (
          absent,
          ap or_key_error (reply none),
          (λ py_none. reply (some py_none)),
          λ py_none other. reply (some other),
        )
  ]

  absent_key_error :
      ((value p : ℕ) → ¬ Holds py (self.metadata) key value p)
      → get_item py self key ≡ Reply.key_error
  unfolding get_item
  absent_key_error absent = elim (lookup_correct py lawful (self.metadata) good key hash hashed) [
    | inl (p, value, h, run) ↦ absurd (absent value p h)
    | inr (_, run) ↦ ap or_key_error (missed_reply run none)
  ]

-- A key that was removed is not held.
removed_absent :
    (py : Runtime)
    → IsLawful py
    → (m m' : Meta) (key p : ℕ) → Changes py m m' key none p
    → (value q : ℕ) → ¬ Holds py m' key value q
removed_absent py lawful m m' key p c value q h = elim (c.sound key value q h) [
  | inl (_, is, _) ↦ cc is
  | inr (differ, _) ↦ differ (lawful.eq_refl key)
]

module _ (py : Runtime) (lawful : IsLawful py) (self : Dictionary)
    (good : IsIndexed py (self.metadata)) (key hash : ℕ) (hashed : py.hash_of key ≡ some hash) where
  -- In a well-formed index where no comparison raises, and for a key that can be hashed: where no
  -- slot holds the key, `del d[key]` raises KeyError. Where a slot does, it removes the key, counts
  -- one key less and one tombstone more and marks the length as changed; `d[key]` then raises
  -- KeyError, the index is well formed, and every other key is held as before.
  pub del_item_correct :
      (((value p : ℕ) → ¬ Holds py (self.metadata) key value p)
        × (del_item py self key ≡ Removal.missing))
      ⊎ ((self' : Dictionary) × (p : ℕ) × (value : ℕ) × Holds py (self.metadata) key value p
          × (del_item py self key ≡ Removal.removed self')
          × (self'.storage.local_len ≡ self.storage.local_len +ℤ negsuc 0)
          × (self'.storage.local_tombstones ≡ self.storage.local_tombstones +ℤ pos 1)
          × (self'.len_dirty ≡ true)
          × (get_item py self' key ≡ Reply.key_error)
          × IsIndexed py (self'.metadata)
          × Changes py (self.metadata) (self'.metadata) key none p)
  unfolding del_item accessor_len_inc accessor_tombstones_inc
  del_item_correct =
      let removes = delete_-Removes py lawful (self.metadata) good key hash hashed in
      elim (Deletion-cases (delete_ py (self.metadata) key hash)) [
        | inl failed ↦ absurd (subst (Removes py (self.metadata) key) failed removes)
        | inr (inl missed) ↦ inl (
          subst (Removes py (self.metadata) key) missed removes,
          rw (del_item, hashed, missed) refl,
        )
        | inr (inr (entry, m', removed)) ↦
            let (p, value, h, _, good', changes) =
              subst (Removes py (self.metadata) key) removed removes in
            let self' =
              accessor_tombstones_inc (pos 1)
                (accessor_len_inc (negsuc 0) (record self { metadata = m' })) in
            inr (
              self',
              p,
              value,
              h,
              rw (del_item, hashed, removed) refl,
              refl,
              refl,
              refl,
              absent_key_error py lawful self' good' key hash hashed
                  (removed_absent py lawful (self.metadata) m' key p changes),
              good',
              changes,
            )
      ]
