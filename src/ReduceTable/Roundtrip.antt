-- ===== src/ReduceTable/Roundtrip.antt =====
-- A lookup after a set finds what was set (src/include/cereggii/internal/reduce_table.h).
use cereggii.Common.{
  ℕ, zero, suc, ◌+◌, ◌*◌, ◌/◌, ◌%◌, bit_and, Option, none, some, false, ==_refl, ltb, ◌≡◌, ◌≢◌,
  refl, sym, ap, ◌∙◌, ◌⊎◌, inl, inr, arith,
}
use cereggii.Common.Bits.{and_mask}
use cereggii.AtomicDict.Runtime.{Object, Runtime, IsLawful}
use cereggii.ReduceTable.{
  ReduceTable, ReduceTableEntry, reduce_table_size, reduce_table_mask, reduce_table_hash_to_index,
  probe, append, appended, Match, match_entry, Position, lookup_loop, reduce_table_lookup,
  with_values, set_resized, reduce_table_set, Values, reduce_table_get,
}
use cereggii.ReduceTable.Round.{turn-no_failure, search-turn, same_search}
use cereggii.ReduceTable.Search.{slot, HasRoom, inserts}

Position-cases :
    (p : Position)
    → (p ≡ Position.missing) ⊎ ((p ≡ Position.failed) ⊎ ((i : ℕ) × (p ≡ Position.entry_at i)))
Position-cases Position.missing = inl refl
Position-cases Position.failed = inr (inl refl)
Position-cases (Position.entry_at i) = inr (inr (i, refl))

module _ (py : Runtime) (lawful : IsLawful py) (key hash : ℕ) (table : ReduceTable) where
  no_raise : (entry : ReduceTableEntry) → match_entry py key hash entry ≢ Match.raised
  unfolding match_entry
  no_raise entry raised = elim (lawful.eq_decides entry.key key) [
    | inl same ↦ ground (arith, same, raised)
    | inr differ ↦ ground (arith, differ, raised)
  ]

  no_failure :
      (start_ix rounds ix : ℕ) → lookup_loop py table key hash start_ix rounds ix ≢ Position.failed
  unfolding lookup_loop
  no_failure start_ix zero ix failed = cc failed
  no_failure start_ix (suc rounds) ix failed =
      let next_ix = bit_and (ix + 1) (reduce_table_mask table) in
      let later = no_failure start_ix rounds next_ix in
      let raise = no_raise (table.entries (table.index ix)) in
      turn-no_failure (table.index ix) _ _ _ raise later
        (sym (search-turn py key hash start_ix table rounds ix) ∙ failed)

  first_slot : reduce_table_hash_to_index hash table ≡ slot table hash 0
  unfolding reduce_table_hash_to_index
  first_slot =
      and_mask table.log_size hash ∙ ap (λ (k : ℕ). k % reduce_table_size table) (omega arith)

  module _ (room : HasRoom table hash) (expected desired : Object) where
    abbrev entry_set : ReduceTableEntry
    entry_set = record { hash = hash; key = key; expected = expected; desired = desired }

    abbrev Sets : Option ReduceTable → Type 0
    Sets set =
        (table' : ReduceTable) × (set ≡ some table')
        × (reduce_table_get py table' key hash ≡ Values.values expected desired)

    entry_set-match : match_entry py key hash entry_set ≡ Match.hit
    unfolding match_entry
    entry_set-match = rw (==_refl hash, ==_refl key) refl

    get_of :
        (table' : ReduceTable) (i : ℕ)
        → reduce_table_lookup py table' key hash ≡ Position.entry_at i
        → reduce_table_get py table' key hash
          ≡ Values.values ((table'.entries i).expected) ((table'.entries i).desired)
    unfolding reduce_table_get
    get_of table' i looked = rw (reduce_table_get, looked) refl

    never : reduce_table_lookup py table key hash ≢ Position.failed
    unfolding reduce_table_lookup
    never failed =
        no_failure (reduce_table_hash_to_index hash table) (reduce_table_size table)
          (reduce_table_hash_to_index hash table) failed

    insert_new :
        reduce_table_lookup py table key hash ≡ Position.missing → Sets (appended table entry_set)
    unfolding reduce_table_lookup reduce_table_hash_to_index appended
    insert_new missing =
        let (ix, probed, _, finds) =
          inserts py key hash table room entry_set entry_set-match room.steps 0
            (reduce_table_size table) (omega arith) room.steps_lt
            (ap (λ (k : ℕ). lookup_loop py table key hash k (reduce_table_size table) k)
                (sym first_slot)
              ∙ missing) in
        let table' = append table entry_set ix in
        let looked : reduce_table_lookup py table' key hash ≡ Position.entry_at table.used =
          ap (λ (k : ℕ). lookup_loop py table' key hash k (reduce_table_size table) k) first_slot
          ∙ finds in
        let stored : table'.entries table.used ≡ entry_set = rw (==_refl (table.used)) refl in
        (
          table',
          ap
              (λ p. elim p as (λ _. Option ReduceTable) [
                | none ↦ none
                | some k ↦ some (append table entry_set k)
              ])
              (ap (probe table.index (reduce_table_mask table) (reduce_table_size table)) first_slot
                ∙ probed),
          get_of table' table.used looked ∙ ap (λ x. Values.values (x.expected) (x.desired)) stored,
        )

    update_old :
        (i : ℕ)
        → reduce_table_lookup py table key hash ≡ Position.entry_at i
        → Sets (some (with_values table i expected desired))
    unfolding reduce_table_lookup reduce_table_hash_to_index
    update_old i found =
        let table' = with_values table i expected desired in
        let looked : reduce_table_lookup py table' key hash ≡ Position.entry_at i =
          same_search py key hash (reduce_table_hash_to_index hash table) table i expected desired
            (reduce_table_size table) (reduce_table_hash_to_index hash table)
          ∙ found in
        let stored : table'.entries i
            ≡ record (table.entries i) { expected = expected; desired = desired } =
          rw (==_refl i) refl in
        (
          table',
          refl,
          get_of table' i looked ∙ ap (λ x. Values.values (x.expected) (x.desired)) stored,
        )

    -- Where the table needs no resize, has an empty slot, and no comparison raises, a set of a key
    -- ends, and a lookup of that key then gives the values that were set, for a new key and for
    -- one that was there.
    pub get-set :
        ltb (reduce_table_size table * 2 / 3) table.used ≡ false
        → Sets (reduce_table_set py table key hash expected desired)
    unfolding reduce_table_set set_resized
    get-set fits = elim (Position-cases (reduce_table_lookup py table key hash)) [
      | inl missing ↦ rw (reduce_table_set, fits, set_resized, missing) (insert_new missing)
      | inr (inl failed) ↦ absurd (never failed)
      | inr (inr (i, found)) ↦ rw (reduce_table_set, fits, set_resized, found) (update_old i found)
    ]
