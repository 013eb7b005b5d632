-- ===== src/AtomicDict/Batch/Ring.antt =====
-- The ring of a chunk (src/cereggii/atomic_dict/lookup.c).
use cereggii.Common.{
  ℕ, ◌+◌, ◌*◌, ◌/◌, ◌%◌, ◌<◌, ◌==◌, ◌≡◌, ◌⊎◌, refl, sym, ap, ◌∙◌, inl, inr, arith, some, List, [],
  ◌∷◌, ◌++◌, Bool-cases, true, false,
}
use native.Mathlib.Nat.{mod-eq_of_lt, mod-lt, div-add-mod, add-mul-mod_self_left, mod_self}
use native.Mathlib.Decide.{dec_lt}
use cereggii.AtomicDict.Runtime.{Object, Runtime}
use cereggii.AtomicDict.Batch.{Chunk, length, read_key, next_chunk}

-- The keys of a batch have hashes.
abbrev pub AllHashed : Runtime → List Object → Type 0
AllHashed py [] = Unit
AllHashed py (key ∷ rest) = ((hash : ℕ) × (py.hash_of key ≡ some hash)) × AllHashed py rest

module _ (py : Runtime) (chunk_size : ℕ) (some_size : 0 < chunk_size) where
  -- The ring holds the keys and their hashes from position `i` on.
  abbrev pub Window : Chunk → ℕ → List Object → Type 0
  Window c i [] = Unit
  Window c i (key ∷ rest) =
      (c.keys (i % chunk_size) ≡ key)
      × (py.hash_of key ≡ some (c.hashes (i % chunk_size)))
      × Window c (i + 1) rest

  -- The chunk that was read, and what is left.
  pub record Gathered (left : List Object) (c c' : Chunk) (left' : List Object) : Type 0 where
    pub taken : List Object
    pub split : left ≡ taken ++ left'
    pub window : Window c' c.chunk_end taken
    pub count : c'.chunk_end ≡ c.chunk_end + length taken
    pub progress : (left ≡ []) ⊎ (0 < length taken)
    pub kept :
        (slot : ℕ)
        → slot < c.chunk_end % chunk_size
        → (c'.keys slot ≡ c.keys slot) × (c'.hashes slot ≡ c.hashes slot)
    pub hashed : AllHashed py left'

  next_slot :
      (e : ℕ) → ((e + 1) % chunk_size == 0) ≡ false → (e + 1) % chunk_size ≡ e % chunk_size + 1
  next_slot e within =
      let r = e % chunk_size in
      let q = e / chunk_size in
      let split : e + 1 ≡ r + 1 + chunk_size * q = omega (arith, div-add-mod e chunk_size) in
      let same : (e + 1) % chunk_size ≡ (r + 1) % chunk_size =
        ap (λ (t : ℕ). t % chunk_size) {x = e + 1} {y = r + 1 + chunk_size * q} split
        ∙ add-mul-mod_self_left (r + 1) chunk_size q in
      elim (dec_lt (r + 1) chunk_size) [
        | yes lt ↦ same ∙ mod-eq_of_lt lt
        | no ge ↦
            let last : r + 1 ≡ chunk_size = omega (arith, mod-lt e some_size) in
            let zero_then : (e + 1) % chunk_size ≡ 0 =
              same
              ∙ ap (λ (t : ℕ). t % chunk_size) {x = r + 1} {y = chunk_size} last
              ∙ mod_self chunk_size in
            absurd (ground (arith, zero_then, within))
      ]

  pub next_chunk-Gathered :
      (left : List Object) (c : Chunk)
      → AllHashed py left
      → (c' : Chunk) × (left' : List Object) × (next_chunk py chunk_size left c ≡ some (c', left'))
        × Gathered left c c' left'
  unfolding next_chunk length
  next_chunk-Gathered [] c hashed = (
    c,
    [],
    refl,
    record {
      taken = [];
      split = refl;
      window = tt;
      count = omega arith;
      progress = inl refl;
      kept = λ slot lt. (refl, refl);
      hashed = tt;
    },
  )
  next_chunk-Gathered (key ∷ rest) c ((hash, is), hashed) =
      let c1 = read_key chunk_size hash key c in
      let here : (c.chunk_end % chunk_size == c.chunk_end % chunk_size) ≡ true = ground arith in
      elim (Bool-cases (c1.chunk_end % chunk_size == 0)) [
        | inl full ↦ (
          c1,
          rest,
          rw (next_chunk, is, full) refl,
          record {
            taken = key ∷ [];
            split = refl;
            window = (rw here refl, rw here is, tt);
            count = omega arith;
            progress = inr (omega arith);
            kept = λ slot lt.
                let other : (c.chunk_end % chunk_size == slot) ≡ false = ground arith in
                (rw other refl, rw other refl);
            hashed = hashed;
          },
        )
        | inr within ↦
            let (c2, left', run, g) = next_chunk-Gathered rest c1 hashed in
            let next = next_slot c.chunk_end within in
            let at = g.kept (c.chunk_end % chunk_size) (omega (arith, next)) in
            (
              c2,
              left',
              rw (next_chunk, is, within) run,
              record {
                taken = key ∷ g.taken;
                split = ap (λ l. key ∷ l) g.split;
                window = (at.0 ∙ rw here refl, is ∙ sym (ap some (at.1 ∙ rw here refl)), g.window);
                count = omega (arith, g.count);
                progress = inr (omega arith);
                kept = λ slot lt.
                    let other : (c.chunk_end % chunk_size == slot) ≡ false = ground arith in
                    let same = g.kept slot (omega (arith, next)) in
                    (same.0 ∙ rw other refl, same.1 ∙ rw other refl);
                hashed = g.hashed;
              },
            )
      ]
