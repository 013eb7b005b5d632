-- ===== src/AtomicDict/Flush/Correct.antt =====
-- A flush combines each key's value with what the dictionary has
-- (src/cereggii/atomic_dict/insert.c).
use cereggii.Common.{
  ℕ, zero, suc, ◌+◌, ◌%◌, ◌≤◌, ◌<◌, some, ◌≡◌, sym, ap, arith, if◌then◌else◌, ◌==◌, inl, inr,
  Bool-cases,
}
use mathlib.Core.Path.{subst}
use native.Mathlib.Nat.{mod-lt}
use cereggii.Common.Bits.{ring_injective}
use cereggii.AtomicDict.Runtime.{Object, Runtime, IsLawful}
use cereggii.AtomicDict.Accessor.{Dictionary}
use cereggii.AtomicDict.Sequence.{Map}
use cereggii.AtomicDict.Sequence.Related.{IsRelated}
use cereggii.AtomicDict.Flush.{Flushed, flush_entries, reduce_flush}
use cereggii.AtomicDict.Flush.Single.{flush_one-Combines, combined, aggregate_of, Combines}

-- The map after so many entries of the local table, from a place on.
module _ (py : Runtime) (combine : Object → Object → Object → Object)
    (entries : ℕ → Object × Object) (used start : ℕ) where
  abbrev pub combined_entries : ℕ → ℕ → Map → Map
  combined_entries zero i map = map
  combined_entries (suc left) i map =
      let (key, new) = entries ((start + i) % used) in
      combined_entries left (i + 1) (combined py combine key new map)

  -- The end of a flush: all entries are combined, or those before one that asked for a larger table first, or
  -- those up to one whose insertion did.
  abbrev pub CombinesAll : ℕ → ℕ → Map → Flushed → Type 0
  CombinesAll left i map (Flushed.flushed self') = IsRelated py self' (combined_entries left i map)
  CombinesAll left i map (Flushed.must_grow self') =
      (n : ℕ) × (n < left) × IsRelated py self' (combined_entries n i map)
  CombinesAll left i map (Flushed.inserted_must_grow self') =
      (n : ℕ) × (0 < n) × (n ≤ left) × IsRelated py self' (combined_entries n i map)
  CombinesAll left i map (Flushed.raised self') = ⊥
  CombinesAll left i map Flushed.unfinished = ⊥

  module _ (lawful : IsLawful py) (py_none : Object)
      (hashed : (i : ℕ) → i < used → (hash : ℕ) × (py.hash_of (entries i).0 ≡ some hash))
      (filled : 0 < used) where
    -- What follows one key.
    one_more :
        (left i : ℕ) (map : Map) (r : Flushed)
        → Combines py map
            (combined py combine
              (entries ((start + i) % used)).0
              (entries ((start + i) % used)).1
              map)
            r
        → ((self' : Dictionary) (map' : Map)
            → IsRelated py self' map'
            → CombinesAll left
                (i + 1)
                map'
                (flush_entries py (aggregate_of combine) entries used start left (i + 1) self'))
        → CombinesAll (suc left) i map (elim r [
          | Flushed.flushed self' ↦
              flush_entries py (aggregate_of combine) entries used start left (i + 1) self'
          | Flushed.raised self' ↦ Flushed.raised self'
          | Flushed.must_grow self' ↦ Flushed.must_grow self'
          | Flushed.inserted_must_grow self' ↦ Flushed.inserted_must_grow self'
          | Flushed.unfinished ↦ Flushed.unfinished
        ])
    one_more left i map (Flushed.raised self') c later = c
    one_more left i map Flushed.unfinished c later = c
    one_more left i map (Flushed.must_grow self') c later = (0, omega arith, c)
    one_more left i map (Flushed.inserted_must_grow self') c later =
        (1, omega arith, omega arith, c)
    one_more left i map (Flushed.flushed self') c later =
        widen (flush_entries py (aggregate_of combine) entries used start left (i + 1) self')
          (later self' _ c)
      where
        widen :
            (r : Flushed)
            → CombinesAll left
                (i + 1)
                (combined py combine
                  (entries ((start + i) % used)).0
                  (entries ((start + i) % used)).1
                  map)
                r
            → CombinesAll (suc left) i map r
        widen (Flushed.flushed last) all = all
        widen (Flushed.must_grow last) (n, lt, some_of) = (suc n, omega arith, some_of)
        widen (Flushed.inserted_must_grow last) (n, some_n, le, some_of) =
            (suc n, omega arith, omega arith, some_of)
        widen (Flushed.raised last) all = all
        widen Flushed.unfinished all = all

    flush_entries-CombinesAll :
        (left i : ℕ) (self : Dictionary) (map : Map)
        → IsRelated py self map
        → CombinesAll left i map
            (flush_entries py (aggregate_of combine) entries used start left i self)
    unfolding flush_entries
    flush_entries-CombinesAll zero i self map rel = rel
    flush_entries-CombinesAll (suc left) i self map rel =
        let (hash, h) = hashed ((start + i) % used) (mod-lt (start + i) filled) in
        one_more left i map _
          (flush_one-Combines py lawful combine py_none self map rel
            (entries ((start + i) % used)).0 hash h (entries ((start + i) % used)).1)
          (λ self' map' rel'. flush_entries-CombinesAll left (i + 1) self' map' rel')

-- For a dictionary that stands for a map, where no comparison raises, the keys have hashes, no other thread
-- writes and the aggregate returns objects: the flush of a local table ends. Either the dictionary stands for the map with all entries
-- combined, from a place on around the table, or an entry asks for a larger table, and it stands
-- for the map with the entries before that one combined, and with that one where its insertion asks. Around the table no entry comes twice.
pub reduce_flush-CombinesAll :
    (py : Runtime)
    → IsLawful py
    → (combine : Object → Object → Object → Object) (entries : ℕ → Object × Object) (used start : ℕ)
    → ((i : ℕ) → i < used → (hash : ℕ) × (py.hash_of (entries i).0 ≡ some hash))
    → (self : Dictionary) (map : Map) → IsRelated py self map
    → CombinesAll py combine entries used start used 0 map
        (reduce_flush py (aggregate_of combine) entries used start self)
      × ((i j : ℕ) → i < used → j < used → (start + i) % used ≡ (start + j) % used → i ≡ j)
unfolding reduce_flush
reduce_flush-CombinesAll py lawful combine entries used start hashed self map rel = (
  elim (Bool-cases (used == 0)) [
    | inl nothing ↦
        let zero_used : used ≡ 0 = ground (arith, nothing) in
        subst (CombinesAll py combine entries used start used 0 map)
          (sym (
            ap
              (λ b.
                if b
                then Flushed.flushed self
                else flush_entries py (aggregate_of combine) entries used start used 0 self)
              nothing))
          (subst
            (λ (n : ℕ). IsRelated py self (combined_entries py combine entries used start n 0 map))
            (sym zero_used) rel)
    | inr something ↦
        let filled : 0 < used = ground (arith, something) in
        subst (CombinesAll py combine entries used start used 0 map)
          (sym (
            ap
              (λ b.
                if b
                then Flushed.flushed self
                else flush_entries py (aggregate_of combine) entries used start used 0 self)
              something))
          (flush_entries-CombinesAll py combine entries used start lawful 0 hashed filled used 0
            self map rel)
  ],
  λ i j a b e. ring_injective used start i j a b e,
)
