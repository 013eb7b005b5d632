-- ===== src/ReduceTable/Round.antt =====
-- One round of a search, and searches after a change of values
-- (src/include/cereggii/internal/reduce_table.h).
use cereggii.Common.{
  ℕ, zero, suc, ◌+◌, bit_and, true, false, ◌==◌, ◌≡◌, ◌≢◌, refl, sym, ap, ◌∙◌, ◌⊎◌, inl, inr, arith,
  Bool-cases, Bool, if◌then◌else◌,
}
use native.Mathlib.Decide.{ℕ_discrete}
use cereggii.AtomicDict.Runtime.{Runtime}
use cereggii.ReduceTable.{
  ReduceTable, reduce_table_mask, empty_entry, Match, match_entry, Position, lookup_loop,
  with_values,
}

-- One round of the search, with the result of the later rounds.
abbrev pub turn : ℕ → Match → Bool → Position → Position
turn cell m wrapped rest = if cell == empty_entry then Position.missing else elim m [
  | Match.hit ↦ Position.entry_at cell
  | Match.raised ↦ Position.failed
  | Match.differs ↦ if wrapped then Position.missing else rest
]

module _ (py : Runtime) (key hash start_ix : ℕ) where
  pub search-turn :
      (table : ReduceTable) (rounds ix : ℕ)
      → let next_ix = bit_and (ix + 1) (reduce_table_mask table) in
        lookup_loop py table key hash start_ix (suc rounds) ix
        ≡ turn
            (table.index ix)
            (match_entry py key hash (table.entries (table.index ix)))
            (next_ix == start_ix)
            (lookup_loop py table key hash start_ix rounds next_ix)
  unfolding lookup_loop
  search-turn table rounds ix = refl

  module _ (table : ReduceTable) where
    same_match :
        (entry_ix expected desired cell : ℕ)
        → match_entry py key hash ((with_values table entry_ix expected desired).entries cell)
          ≡ match_entry py key hash (table.entries cell)
    unfolding match_entry
    same_match entry_ix expected desired cell = elim (ℕ_discrete entry_ix cell) [
      | yes here ↦
          let test : (entry_ix == cell) ≡ true = ground arith in
          ap
            (λ b. match_entry py key hash (
              if b
              then record (table.entries entry_ix) { expected = expected; desired = desired }
              else table.entries cell))
            test
          ∙ ap (λ k. match_entry py key hash (table.entries k)) here
      | no there ↦
          let test : (entry_ix == cell) ≡ false = ground arith in
          ap
            (λ b. match_entry py key hash (
              if b
              then record (table.entries entry_ix) { expected = expected; desired = desired }
              else table.entries cell))
            test
    ]

    -- Other values under an entry change no search.
    pub same_search :
        (entry_ix expected desired rounds ix : ℕ)
        → lookup_loop py (with_values table entry_ix expected desired) key hash start_ix rounds ix
          ≡ lookup_loop py table key hash start_ix rounds ix
    unfolding lookup_loop
    same_search entry_ix expected desired zero ix = refl
    same_search entry_ix expected desired (suc rounds) ix =
        let next_ix = bit_and (ix + 1) (reduce_table_mask table) in
        let rest = same_search entry_ix expected desired rounds next_ix in
        search-turn (with_values table entry_ix expected desired) rounds ix
        ∙ ap
            (λ m. turn (table.index ix) m (next_ix == start_ix) (
              lookup_loop py (with_values table entry_ix expected desired) key hash start_ix rounds
                next_ix))
            (same_match entry_ix expected desired (table.index ix))
        ∙ ap
            (turn (table.index ix) (match_entry py key hash (table.entries (table.index ix)))
              (next_ix == start_ix))
            rest
        ∙ sym (search-turn table rounds ix)

Match-cases : (m : Match) → (m ≡ Match.hit) ⊎ ((m ≡ Match.raised) ⊎ (m ≡ Match.differs))
Match-cases Match.hit = inl refl
Match-cases Match.raised = inr (inl refl)
Match-cases Match.differs = inr (inr refl)

-- A round that ends without a find on a slot in use found another key there.
pub turn-missing :
    (cell : ℕ) (m : Match) (wrapped : Bool) (rest : Position)
    → (cell == empty_entry) ≡ false
    → wrapped ≡ false
    → turn cell m wrapped rest ≡ Position.missing
    → (m ≡ Match.differs) × (rest ≡ Position.missing)
turn-missing cell m wrapped rest filled on missing = elim (Match-cases m) [
  | inl hit ↦ absurd (cc (rw (hit, filled) at missing))
  | inr (inl raised) ↦ absurd (cc (rw (raised, filled) at missing))
  | inr (inr differs) ↦ (differs, rw (differs, filled, on) at missing)
]

pub turn-no_failure :
    (cell : ℕ) (m : Match) (wrapped : Bool) (rest : Position)
    → m ≢ Match.raised
    → rest ≢ Position.failed
    → turn cell m wrapped rest ≢ Position.failed
turn-no_failure cell m wrapped rest raise later failed = elim (Bool-cases (cell == empty_entry)) [
  | inl empty ↦ cc (rw empty at failed)
  | inr filled ↦ elim (Match-cases m) [
    | inl hit ↦ cc (rw (filled, hit) at failed)
    | inr (inl raised) ↦ raise raised
    | inr (inr differs) ↦ elim (Bool-cases wrapped) [
      | inl back ↦ cc (rw (filled, differs, back) at failed)
      | inr on ↦ later (rw (filled, differs, on) at failed)
    ]
  ]
]

pub turn-on :
    (cell : ℕ) (m : Match) (wrapped : Bool) (rest : Position)
    → (cell == empty_entry) ≡ false
    → wrapped ≡ false
    → m ≡ Match.differs
    → turn cell m wrapped rest ≡ rest
turn-on cell m wrapped rest filled on differs = rw (differs, filled, on) refl
