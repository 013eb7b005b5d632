-- ===== src/AtomicDict/Insert/Visit.antt =====
-- One round of the insertion loop, by what the slot holds (insert.c).
use cereggii.Common.{ℕ, ◌<◌, true, false, some, ◌≡◌, ◌⊎◌, inl, inr, arith, Bool-cases}
use cereggii.AtomicDict.Runtime.{Object, Runtime, IsLawful, Meta, size_of}
use cereggii.AtomicDict.Node.{is_empty, is_tombstone, check_tag}
use cereggii.AtomicDict.Pages.{read_entry}
use cereggii.AtomicDict.Index.{node_at, IsLive, Holds, IsIndexed}
use cereggii.AtomicDict.Lookup.Correct.{Holds-hash}
use cereggii.AtomicDict.Insert.{
  Expected, Update, update_value, expected_update_entry, Insertion, Round, visit,
}

-- The end of the loop at the entry that has the key.
abbrev pub settle : Update → Round
settle Update.raised = Round.done Insertion.raised
settle Update.skipped = Round.next
settle Update.unexpected = Round.done Insertion.unexpected
settle (Update.replaced current m) = Round.done (Insertion.replaced current m)

module _ (py : Runtime) (lawful : IsLawful py) (m : Meta) (good : IsIndexed py m) (key hash : ℕ)
    (hashed : py.hash_of key ≡ some hash) (expected : Expected) (desired location : ℕ) where
  pub visit_holder :
      (old p ix distance : ℕ)
      → Holds py m key old p
      → visit py key hash expected desired location false m ix distance (node_at m p)
        ≡ settle (update_value m (node_at m p).index old expected desired)
  unfolding visit expected_update_entry read_entry
  visit_holder old p ix distance h =
      let place = good.placed p h.live in
      let same = Holds-hash py lawful m good key hash hashed old p h in
      let tagged : check_tag py hash (node_at m p) m ≡ true = rw (← same) place.tagged in
      let key_eq : py.rich_eq h.stored_key key ≡ some true = h.equal in
      ground (arith, tagged, h.live.filled, h.live.kept, h.has_key, h.has_value, key_eq, same)

  pub visit_cases :
      (q ix distance : ℕ)
      → q < size_of m
      → is_empty (node_at m q) ≡ false
      → (visit py key hash expected desired location false m ix distance (node_at m q) ≡ Round.next)
        ⊎ ((value : Object) × Holds py m key value q)
  unfolding visit expected_update_entry read_entry
  visit_cases q ix distance lt filled = elim (Bool-cases (is_tombstone (node_at m q))) [
    | inl gone ↦ inl (ground arith)
    | inr kept ↦
        let live : IsLive m q = record { within = lt; filled = filled; kept = kept } in
        let place = good.placed q live in
        elim (lawful.eq_decides place.key key) [
          | inl equal ↦ inr (
            place.value,
            record {
              live = live;
              stored_key = place.key;
              has_key = place.has_key;
              equal = equal;
              has_value = place.has_value;
            },
          )
          | inr differ ↦ inl (ground (arith, place.has_key, place.has_value, lawful.eq_refl key))
        ]
  ]
