-- ===== src/ReduceTable/Search.antt =====
-- What a search does on the slots that a set changes (src/include/cereggii/internal/reduce_table.h).
use cereggii.Common.{
  ℕ, zero, suc, ◌+◌, ◌-◌, ◌%◌, ◌<◌, bit_and, some, false, ◌==◌, ==_refl, ◌≡◌, ◌≢◌, refl, sym, ap,
  ◌∙◌, ◌⊎◌, inl, inr, arith, Bool-cases,
}
use cereggii.Common.Bits.{and_mask, ring_injective}
use native.Mathlib.Nat.{mod-add-mod}
use native.Mathlib.Decide.{ℕ_discrete}
use cereggii.AtomicDict.Runtime.{Runtime}
use cereggii.ReduceTable.{
  ReduceTable, ReduceTableEntry, reduce_table_size, reduce_table_mask, empty_entry, probe, append,
  Match, match_entry, Position, lookup_loop,
}
use cereggii.ReduceTable.Round.{turn, search-turn, turn-missing, turn-on}

-- The cells of the index are empty or positions of entries, and some slot is empty.
pub record HasRoom (table : ReduceTable) (hash : ℕ) : Type 0 where
  pub cells : (ix : ℕ) → (table.index ix ≡ empty_entry) ⊎ (table.index ix < table.used)
  pub small : table.used < empty_entry
  pub steps : ℕ
  pub steps_lt : steps < reduce_table_size table
  pub free : table.index ((hash + steps) % reduce_table_size table) ≡ empty_entry

-- The slots from the first one of the hash on, around the index.
abbrev pub slot : ReduceTable → ℕ → ℕ → ℕ
slot table hash j = (hash + j) % reduce_table_size table

slot-next :
    (table : ReduceTable) (hash j : ℕ)
    → bit_and (slot table hash j + 1) (reduce_table_mask table) ≡ slot table hash (j + 1)
slot-next table hash j =
    and_mask table.log_size (slot table hash j + 1)
    ∙ mod-add-mod (hash + j) (reduce_table_size table) 1
    ∙ ap (λ (k : ℕ). k % reduce_table_size table) (omega arith)

module _ (py : Runtime) (key hash : ℕ) (table : ReduceTable) (room : HasRoom table hash)
    (new_entry : ReduceTableEntry) (matches : match_entry py key hash new_entry ≡ Match.hit) where
  -- From the slot `j` on: a search that finds nothing stops at the empty slot where the probe for
  -- the insertion stops, and finds the new entry there after the insertion.
  abbrev Inserts : ℕ → ℕ → ℕ → Type 0
  Inserts probes rounds j =
      (ix : ℕ) × (probe table.index (reduce_table_mask table) probes (slot table hash j) ≡ some ix)
      × (table.index ix ≡ empty_entry)
      × (lookup_loop py (append table new_entry ix) key hash (slot table hash 0) rounds
            (slot table hash j)
          ≡ Position.entry_at table.used)

  found_here :
      (ix rounds start_ix : ℕ)
      → lookup_loop py (append table new_entry ix) key hash start_ix (suc rounds) ix
        ≡ Position.entry_at table.used
  found_here ix rounds start_ix =
      let after = append table new_entry ix in
      let next_ix = bit_and (ix + 1) (reduce_table_mask after) in
      let rest = lookup_loop py after key hash start_ix rounds next_ix in
      let wrapped = next_ix == start_ix in
      let cell : after.index ix ≡ table.used = rw (==_refl ix) refl in
      let entry : after.entries table.used ≡ new_entry = rw (==_refl (table.used)) refl in
      let filled : (table.used == empty_entry) ≡ false = ground (arith, room.small) in
      search-turn py key hash start_ix after rounds ix
      ∙ ap (λ (c : ℕ). turn c (match_entry py key hash (after.entries c)) wrapped rest) cell
      ∙ ap (λ x. turn table.used (match_entry py key hash x) wrapped rest) entry
      ∙ ap (λ m. turn table.used m wrapped rest) matches
      ∙ rw filled refl

  -- A slot in use before the one that is filled now looks as it did.
  passed :
      (ix j rounds start_ix : ℕ)
      → (ix == j) ≡ false
      → (table.index j == empty_entry) ≡ false
      → (bit_and (j + 1) (reduce_table_mask table) == start_ix) ≡ false
      → match_entry py key hash (table.entries (table.index j)) ≡ Match.differs
      → lookup_loop py (append table new_entry ix) key hash start_ix (suc rounds) j
        ≡ lookup_loop py
            (append table new_entry ix)
            key
            hash
            start_ix
            rounds
            (bit_and (j + 1) (reduce_table_mask table))
  passed ix j rounds start_ix apart filled on differs =
      let after = append table new_entry ix in
      let next_ix = bit_and (j + 1) (reduce_table_mask table) in
      let rest = lookup_loop py after key hash start_ix rounds next_ix in
      let wrapped = next_ix == start_ix in
      let cell : after.index j ≡ table.index j = rw apart refl in
      let below : table.index j < table.used = elim (room.cells j) [
        | inl empty ↦ absurd (ground (arith, empty, filled))
        | inr lt ↦ lt
      ] in
      let other : (table.used == table.index j) ≡ false = ground (arith, below) in
      let entry : after.entries (table.index j) ≡ table.entries (table.index j) = rw other refl in
      search-turn py key hash start_ix after rounds j
      ∙ ap (λ (c : ℕ). turn c (match_entry py key hash (after.entries c)) wrapped rest) cell
      ∙ ap (λ x. turn (table.index j) (match_entry py key hash x) wrapped rest) entry
      ∙ turn-on (table.index j) _ wrapped rest filled on differs

  pub inserts :
      (gap j rounds : ℕ)
      → j + gap ≡ room.steps
      → gap < rounds
      → lookup_loop py table key hash (slot table hash 0) rounds (slot table hash j)
        ≡ Position.missing
      → Inserts rounds rounds j
  unfolding probe
  inserts gap j zero e lt missing = absurd (omega arith)
  inserts gap j (suc rounds) e lt missing =
      elim (Bool-cases (table.index (slot table hash j) == empty_entry)) [
        | inl empty ↦
            let is : table.index (slot table hash j) ≡ empty_entry = ground arith in
            (
              slot table hash j,
              rw (probe, empty) refl,
              is,
              found_here (slot table hash j) rounds (slot table hash 0),
            )
        | inr filled ↦ elim (ℕ_discrete gap 0) [
          | yes last ↦
              let here : j ≡ room.steps = omega arith in
              let is : table.index (slot table hash j) ≡ empty_entry = rw here room.free in
              absurd (ground (arith, is, filled))
          | no more ↦
              let away : slot table hash (j + 1) ≢ slot table hash 0 = λ back.
                let zero_steps : j + 1 ≡ 0 =
                  ring_injective (reduce_table_size table) hash (j + 1) 0
                    (omega (arith, room.steps_lt)) (omega (arith, room.steps_lt)) back in
                omega arith in
              let on' : (slot table hash (j + 1) == slot table hash 0) ≡ false =
                ground (arith, away) in
              let on : (bit_and (slot table hash j + 1) (reduce_table_mask table)
                    == slot table hash 0)
                  ≡ false =
                ap (λ (k : ℕ). k == slot table hash 0) (slot-next table hash j) ∙ on' in
              let (differs, rest) = turn-missing (table.index (slot table hash j)) _ _ _ filled on (
                sym (search-turn py key hash (slot table hash 0) table rounds (slot table hash j))
                ∙ missing) in
              let (ix, probed, empty, finds) =
                inserts (gap - 1) (j + 1) rounds (omega arith) (omega arith) (
                  ap (λ (k : ℕ). lookup_loop py table key hash (slot table hash 0) rounds k)
                    (sym (slot-next table hash j))
                  ∙ rest) in
              let apart : (ix == slot table hash j) ≡ false =
                let differ : ix ≢ slot table hash j =
                  λ same. absurd (ground (arith, ap table.index same, empty, filled)) in
                ground (arith, differ) in
              (
                ix,
                rw (probe, filled)
                    (ap (probe table.index (reduce_table_mask table) rounds)
                        (slot-next table hash j)
                      ∙ probed),
                empty,
                passed ix (slot table hash j) rounds (slot table hash 0) apart filled on differs
                    ∙ ap
                        (lookup_loop py (append table new_entry ix) key hash (slot table hash 0)
                          rounds)
                        (slot-next table hash j)
                    ∙ finds,
              )
        ]
      ]
