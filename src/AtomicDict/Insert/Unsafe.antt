-- ===== src/AtomicDict/Insert/Unsafe.antt =====
-- `unsafe_insert` links a new key as the concurrent path does (atomic_dict.c).
use cereggii.Common.{
  ℕ, zero, suc, ◌+◌, ◌%◌, ◌<◌, false, some, none, Option, ◌≡◌, inl, inr, arith, Bool-cases,
}
use cereggii.Common.Bits.{and_mask}
use native.Mathlib.Decide.{dec_lt}
use cereggii.AtomicDict.Runtime.{Object, Runtime, IsLawful, Meta, size_of}
use cereggii.AtomicDict.Node.{is_empty, distance0_of, write_node_at}
use cereggii.AtomicDict.Index.{node_at, Holds, IsIndexed}
use cereggii.AtomicDict.Lookup.Correct.{read_node_at-mod}
use cereggii.AtomicDict.Insert.{unsafe_insert_loop, unsafe_insert}
use cereggii.AtomicDict.Insert.NewNode.{new_node-Changes, new_node-IsIndexed}
use cereggii.AtomicDict.Insert.Rounds.{IsReserved, Succeeds, ready}

-- What `unsafe_insert` promises: the key is linked, or every slot is in use.
abbrev pub Links : Runtime → Meta → Object → Object → ℕ → Option Meta → Type 0
Links py m key value hash (some m') = Succeeds py m m' key value
Links py m key value hash none =
    (j : ℕ)
    → j < size_of m
    → is_empty (node_at m ((distance0_of py hash m + j) % size_of m)) ≡ false

module _ (py : Runtime) (lawful : IsLawful py) (m : Meta) (good : IsIndexed py m)
    (key hash value pos : ℕ) (hashed : py.hash_of key ≡ some hash)
    (reserved : IsReserved py m key value hash pos)
    (absent : (v p : ℕ) → ¬ Holds py m key v p) where
  loop-Links :
      (rounds distance : ℕ)
      → rounds + distance ≡ size_of m
      → ((j : ℕ)
          → j < distance
          → is_empty (node_at m ((distance0_of py hash m + j) % size_of m)) ≡ false)
      → Links py m key value hash (unsafe_insert_loop py m hash pos rounds distance)
  unfolding unsafe_insert_loop write_node_at
  loop-Links zero distance e chain = λ j lt. chain j (omega arith)
  loop-Links (suc rounds) distance e chain =
      let q = (distance0_of py hash m + distance) % size_of m in
      elim (Bool-cases (is_empty (node_at m q))) [
        | inl free ↦
            let r =
              ready py lawful m good key hash hashed value pos distance (omega arith) free chain
                absent reserved in
            rw (read_node_at-mod, free, and_mask)
              (
                new_node-IsIndexed py lawful m good key value hash pos distance r,
                (q, new_node-Changes py lawful m good key value hash pos distance r),
              )
        | inr filled ↦
            rw (read_node_at-mod, filled)
              (loop-Links rounds (distance + 1) (omega arith) λ j lt. elim (dec_lt j distance) [
                | yes before ↦ chain j before
                | no at ↦ let last : j ≡ distance = omega arith in rw last filled
              ])
      ]

  -- In a well-formed index where no comparison raises, for a key that the index does not hold, and a filled entry that no slot points to,
  -- `unsafe_insert` links the key and keeps the index well formed, or every slot is in use.
  pub unsafe_insert-Links : Links py m key value hash (unsafe_insert py m hash pos)
  unfolding unsafe_insert
  unsafe_insert-Links = loop-Links (size_of m) 0 (omega arith) (λ j lt. absurd (omega arith))
