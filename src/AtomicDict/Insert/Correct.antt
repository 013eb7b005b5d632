-- ===== src/AtomicDict/Insert/Correct.antt =====
-- `expected_insert_or_update` meets the contract of a compare-and-set on one key (insert.c).
use cereggii.Common.{
  ℕ, zero, suc, ◌+◌, ◌%◌, ◌<◌, false, some, ◌≡◌, sym, ◌∙◌, inl, inr, arith, Bool-cases,
}
use cereggii.Common.Bits.{and_mask, ring_injective}
use native.Mathlib.Nat.{mod-lt, one-le-pow, mod-mod, le_refl}
use native.Mathlib.Decide.{dec_lt}
use cereggii.AtomicDict.Runtime.{Runtime, IsLawful, Meta, size_of}
use cereggii.AtomicDict.Node.{is_empty, distance0_of}
use cereggii.AtomicDict.Index.{node_at, Holds, IsIndexed}
use cereggii.AtomicDict.Lookup.Correct.{Holds-hash, read_node_at-mod, search_holder}
use cereggii.AtomicDict.Insert.{
  Expected, Insertion, Round, visit, insert_loop, expected_insert_or_update,
}
use cereggii.AtomicDict.Insert.Visit.{visit_holder, visit_cases}
use cereggii.AtomicDict.Insert.Rounds.{IsReserved, MayInsert, Contract, holder_round, empty_round}

module _ (py : Runtime) (lawful : IsLawful py) (m : Meta) (good : IsIndexed py m) (key hash : ℕ)
    (hashed : py.hash_of key ≡ some hash) (desired location : ℕ) where
  module _ (expected : Expected)
      (reserved : MayInsert expected → IsReserved py m key desired hash location) where
    abbrev loop : ℕ → ℕ → Insertion
    loop = insert_loop py key hash expected desired location false m

    abbrev MeetsContract : Insertion → Type 0
    MeetsContract = Contract py m key hash expected desired

    -- One turn of the loop, with the slot named.
    loop-suc :
        (rounds distance : ℕ)
        → let slot = (distance0_of py hash m + distance) % size_of m in
          loop (suc rounds) distance
          ≡ elim (visit py key hash expected desired location false m slot distance
              (node_at m slot)) [
                | Round.next ↦ loop rounds (distance + 1)
                | Round.done result ↦ result
              ]
    unfolding insert_loop
    loop-suc rounds distance = rw (insert_loop, and_mask, read_node_at-mod, mod-mod)

    slot-lt : (distance : ℕ) → (distance0_of py hash m + distance) % size_of m < size_of m
    slot-lt distance = mod-lt _ (one-le-pow m.log_size 2 (omega arith))

    -- With a holder `gap` slots ahead, the loop ends there.
    loop-holder :
        (old p : ℕ) (h : Holds py m key old p) (gap distance rounds : ℕ)
        → distance + gap ≡ (good.placed p h.live).steps
        → gap < rounds
        → MeetsContract (loop rounds distance)
    loop-holder old p h zero distance (suc rounds) e lt =
        let same = Holds-hash py lawful m good key hash hashed old p h in
        let slot : (distance0_of py hash m + distance) % size_of m ≡ p =
          ground (arith, (good.placed p h.live).arrives, same) in
        let (result, ends, meets) =
          holder_round py lawful m good key hash hashed desired location expected old p h in
        rw
          (
            loop-suc rounds distance,
            slot,
            visit_holder py lawful m good key hash hashed expected desired location old p p distance
                h,
            ends,
          )
          meets
    loop-holder old p h (suc gap) distance (suc rounds) e lt =
        let place = good.placed p h.live in
        let same = Holds-hash py lawful m good key hash hashed old p h in
        let q = (distance0_of py hash m + distance) % size_of m in
        let filled : is_empty (node_at m q) ≡ false =
          rw same at (place.chain distance (omega arith)) in
        let back : q ≡ p → distance ≡ place.steps = λ meet.
          ring_injective (size_of m) (distance0_of py hash m) distance place.steps
            (omega (arith, place.steps_lt)) place.steps_lt
            (meet ∙ sym (rw same at place.arrives)) in
        elim (visit_cases py lawful m good key hash hashed expected desired location q q distance
          (slot-lt distance) filled) [
            | inl next ↦
                rw (loop-suc rounds distance, next)
                  (loop-holder old p h gap (distance + 1) rounds (omega arith) (omega arith))
            | inr (other, held) ↦
                absurd (omega (arith, back (good.unique q p key other old held h)))
          ]
    loop-holder old p h gap distance zero e lt = absurd (omega arith)

    -- Without a holder it ends at the first empty slot, or after all of them.
    loop-absent :
        ((v p : ℕ) → ¬ Holds py m key v p)
        → (rounds distance : ℕ) → rounds + distance ≡ size_of m
        → ((j : ℕ)
            → j < distance
            → is_empty (node_at m ((distance0_of py hash m + j) % size_of m)) ≡ false)
        → MeetsContract (loop rounds distance)
    unfolding visit insert_loop
    loop-absent absent zero distance e chain = (absent, λ j lt. chain j (omega arith))
    loop-absent absent (suc rounds) distance e chain =
        let q = (distance0_of py hash m + distance) % size_of m in
        elim (Bool-cases (is_empty (node_at m q))) [
          | inl free ↦
              let (result, ends, meets) =
                empty_round py lawful m good key hash hashed desired location distance (omega arith)
                  free chain absent expected reserved in
              rw (loop-suc rounds distance, free, ends) meets
          | inr filled ↦
              elim (visit_cases py lawful m good key hash hashed expected desired location q q
                distance (slot-lt distance) filled) [
                  | inl next ↦
                      rw (loop-suc rounds distance, next)
                        (loop-absent absent rounds (distance + 1) (omega arith) λ j lt.
                          elim (dec_lt j distance) [
                            | yes before ↦ chain j before
                            | no at ↦ let last : j ≡ distance = omega arith in rw last filled
                          ])
                  | inr (value, held) ↦ absurd (absent value q held)
                ]
        ]

    -- In a well-formed index where no comparison raises, and with a filled entry in reserve where
    -- the call may insert, it never raises or loses its swap; it inserts, replaces, refuses or asks for a larger
    -- table exactly as the contract says, and keeps the index well formed.
    pub expected_insert_or_update-Contract :
        MeetsContract (expected_insert_or_update py key hash expected desired location false m)
    unfolding expected_insert_or_update
    expected_insert_or_update-Contract =
        elim (search_holder py lawful m good key hash hashed (size_of m) (le_refl _)) [
          | inl (p, old, h) ↦
              loop-holder old p h (good.placed p h.live).steps 0 (size_of m) (omega arith)
                (good.placed p h.live).steps_lt
          | inr none_below ↦
              loop-absent (λ v p h. none_below p v h.live.within h) (size_of m) 0 (omega arith)
                (λ j lt. absurd (omega arith))
        ]
