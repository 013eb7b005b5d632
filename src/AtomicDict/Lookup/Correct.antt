-- ===== src/AtomicDict/Lookup/Correct.antt =====
-- `lookup` finds a key exactly where the index holds it (lookup.c).
use cereggii.Common.{
  ℕ, zero, suc, ◌+◌, ◌%◌, ◌≤◌, ◌<◌, true, false, some, ◌≡◌, refl, sym, ap, ◌∙◌, ◌⊎◌, inl, inr,
  arith, Bool-cases,
}
use cereggii.Common.Bits.{and_mask, ring_injective}
use mathlib.Core.Path.{subst}
use native.Mathlib.Decide.{dec_lt}
use native.Mathlib.Nat.{mod-lt, one-le-pow, le_refl}
use cereggii.AtomicDict.Runtime.{Object, Runtime, IsLawful, Meta, size_of}
use cereggii.AtomicDict.Node.{
  parse_node_from_raw, read_node_at, read_raw_node_at, is_empty, is_tombstone, check_tag,
  distance0_of,
}
use cereggii.AtomicDict.Pages.{read_entry}
use cereggii.AtomicDict.Index.{node_at, entry_at, IsLive, Holds, IsIndexed}
use cereggii.AtomicDict.Lookup.{SearchResult, Verdict, examine, lookup_loop, lookup}

-- Every read of the index is taken modulo its size.
pub read_node_at-mod : (ix : ℕ) (m : Meta) → read_node_at ix m ≡ node_at m (ix % size_of m)
unfolding read_node_at read_raw_node_at
read_node_at-mod ix m = ap (λ (t : ℕ). parse_node_from_raw (m.index t) m) (and_mask m.log_size ix)

module _ (py : Runtime) (lawful : IsLawful py) (m : Meta) (good : IsIndexed py m) where
  module _ (key : Object) (hash : ℕ) (hashed : py.hash_of key ≡ some hash) where
    -- A holder's entry has the hash of the key that is looked for.
    pub Holds-hash : (value p : ℕ) → Holds py m key value p → (entry_at m p).hash ≡ hash
    Holds-hash value p h =
        let place = good.placed p h.live in
        let same : place.key ≡ h.stored_key = cc (place.has_key, h.has_key) in
        let law = lawful.eq_hash h.stored_key key h.equal in cc (place.hashed, law, hashed, same)

    examine-hit :
        (value p : ℕ)
        → Holds py m key value p
        → examine py m key hash (node_at m p) ≡ Verdict.hit (entry_at m p)
    unfolding examine read_entry
    examine-hit value p h =
        let place = good.placed p h.live in
        let same = Holds-hash value p h in
        let tagged : check_tag py hash (node_at m p) m ≡ true = rw (← same) place.tagged in
        ground (arith, tagged, h.live.filled, h.live.kept, h.has_key, h.has_value, h.equal, same)

    examine-stop :
        (p : ℕ) → is_empty (node_at m p) ≡ true → examine py m key hash (node_at m p) ≡ Verdict.stop
    unfolding examine
    examine-stop p empty = ground arith

    examine_cases :
        (p : ℕ)
        → p < size_of m
        → is_empty (node_at m p) ≡ false
        → (examine py m key hash (node_at m p) ≡ Verdict.next)
          ⊎ ((value : Object) × Holds py m key value p)
    unfolding examine read_entry
    examine_cases p lt filled = elim (Bool-cases (is_tombstone (node_at m p))) [
      | inl gone ↦ inl (ground arith)
      | inr kept ↦
          let live : IsLive m p = record { within = lt; filled = filled; kept = kept } in
          let place = good.placed p live in
          let holds : py.rich_eq place.key key ≡ some true
              → (value : Object) × Holds py m key value p =
            λ equal. (
              place.value,
              record {
                live = live;
                stored_key = place.key;
                has_key = place.has_key;
                equal = equal;
                has_value = place.has_value;
              },
            ) in
          elim (lawful.eq_decides place.key key) [
            | inl equal ↦ inr (holds equal)
            | inr differ ↦ inl (ground (arith, place.has_key, place.has_value, lawful.eq_refl key))
          ]
    ]

    -- A slot is inspected for the key; then all slots below a bound are.
    holder_at :
        (p : ℕ)
        → p < size_of m
        → ((value : ℕ) × Holds py m key value p) ⊎ ((value : ℕ) → ¬ Holds py m key value p)
    holder_at p within = elim (Bool-cases (is_empty (node_at m p))) [
      | inl empty ↦ inr (λ value h. cc (empty, h.live.filled))
      | inr filled ↦ elim (examine_cases p within filled) [
        | inl next ↦ inr (λ value h. cc (next, examine-hit value p h))
        | inr held ↦ inl held
      ]
    ]

    pub search_holder :
        (n : ℕ)
        → n ≤ size_of m
        → ((p : ℕ) × (value : ℕ) × Holds py m key value p)
          ⊎ ((p value : ℕ) → p < n → ¬ Holds py m key value p)
    search_holder zero le = inr (λ p value lt. absurd (omega arith))
    search_holder (suc n) le = elim (holder_at n le) [
      | inl (value, h) ↦ inl (n, value, h)
      | inr here ↦ elim (search_holder n (omega arith)) [
        | inl found ↦ inl found
        | inr below ↦ inr λ p value lt h. elim (dec_lt p n) [
          | yes under ↦ below p value under h
          | no at ↦
              let last : p ≡ n = omega arith in
              here value (subst (λ q. Holds py m key value q) last h)
        ]
      ]
    ]

    -- With a holder `gap` slots ahead and no reason to stop before it, the loop finds it.
    lookup_loop-finds :
        (value p : ℕ) (h : Holds py m key value p) (gap distance rounds : ℕ)
        → distance + gap ≡ (good.placed p h.live).steps
        → gap < rounds
        → lookup_loop py m key hash rounds distance
          ≡ SearchResult.found p (node_at m p) (node_at m p).index (entry_at m p)
    unfolding lookup_loop
    lookup_loop-finds value p h zero distance (suc rounds) e lt =
        let same = Holds-hash value p h in
        let slot : (distance0_of py hash m + distance) % size_of m ≡ p =
          ground (arith, (good.placed p h.live).arrives, same) in
        rw (lookup_loop, read_node_at-mod, slot, examine-hit value p h)
          (rw (and_mask, read_node_at-mod, slot))
    lookup_loop-finds value p h (suc gap) distance (suc rounds) e lt =
        let place = good.placed p h.live in
        let same = Holds-hash value p h in
        let q = (distance0_of py hash m + distance) % size_of m in
        let within : q < size_of m = mod-lt _ (one-le-pow m.log_size 2 (omega arith)) in
        let filled : is_empty (node_at m q) ≡ false =
          rw same at (place.chain distance (omega arith)) in
        let back : q ≡ p → distance ≡ place.steps = λ meet.
          ring_injective (size_of m) (distance0_of py hash m) distance place.steps
            (omega (arith, place.steps_lt)) place.steps_lt
            (meet ∙ sym (rw same at place.arrives)) in
        elim (examine_cases q within filled) [
          | inl next ↦
              rw (lookup_loop, read_node_at-mod, next)
                (lookup_loop-finds value p h gap (distance + 1) rounds (omega arith) (omega arith))
          | inr (other, held) ↦
              absurd (omega (arith, back (good.unique q p key other value held h)))
        ]
    lookup_loop-finds value p h gap distance zero e lt = absurd (omega arith)

    -- Without a holder the loop ends with nothing found.
    lookup_loop-misses :
        ((value p : ℕ) → ¬ Holds py m key value p)
        → (rounds distance : ℕ) → lookup_loop py m key hash rounds distance ≡ SearchResult.not_found
    unfolding lookup_loop
    lookup_loop-misses absent zero distance = refl
    lookup_loop-misses absent (suc rounds) distance =
        let q = (distance0_of py hash m + distance) % size_of m in
        let within : q < size_of m = mod-lt _ (one-le-pow m.log_size 2 (omega arith)) in
        elim (Bool-cases (is_empty (node_at m q))) [
          | inl empty ↦ rw (lookup_loop, read_node_at-mod, examine-stop q empty)
          | inr filled ↦ elim (examine_cases q within filled) [
            | inl next ↦
                rw (lookup_loop, read_node_at-mod, next)
                  (lookup_loop-misses absent rounds (distance + 1))
            | inr (value, held) ↦ absurd (absent value q held)
          ]
        ]

  -- With a well-formed index and comparisons that do not raise, `lookup` returns the slot, the node
  -- and the entry of the one slot that holds the key; or no slot holds the key, and it reports
  -- that nothing was found.
  pub lookup_correct :
      (key hash : ℕ)
      → py.hash_of key ≡ some hash
      → ((p : ℕ) × (value : ℕ) × Holds py m key value p
          × (lookup py m key hash
              ≡ SearchResult.found p (node_at m p) (node_at m p).index (entry_at m p)))
        ⊎ (((value p : ℕ) → ¬ Holds py m key value p)
            × (lookup py m key hash ≡ SearchResult.not_found))
  unfolding lookup
  lookup_correct key hash hashed = elim (search_holder key hash hashed (size_of m) (le_refl _)) [
    | inl (p, value, h) ↦ inl (
      p,
      value,
      h,
      lookup_loop-finds key hash hashed value p h (good.placed p h.live).steps 0 (size_of m)
          (omega arith) (good.placed p h.live).steps_lt,
    )
    | inr none_below ↦
        let absent : (value p : ℕ) → ¬ Holds py m key value p =
          λ value p h. none_below p value h.live.within h in
        inr (absent, lookup_loop-misses key hash hashed absent (size_of m) 0)
  ]
