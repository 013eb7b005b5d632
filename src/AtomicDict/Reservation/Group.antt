-- ===== src/AtomicDict/Reservation/Group.antt =====
-- The groups of a page: which entries a group has, and where the search finds one
-- (src/cereggii/atomic_dict/pages.c).
use cereggii.Common.{
  ℕ, zero, suc, ◌+◌, ◌-◌, ◌*◌, ◌/◌, ◌%◌, ◌^◌, ◌≤◌, ◌<◌, bit_and, some, ◌==◌, ◌≡◌, sym, ap, ◌∙◌,
  arith, ltb, Bool-cases, inl, inr,
}
use cereggii.Common.Bits.{pow_add, div_unique, mod_unique, and_field}
use native.Mathlib.Nat.{
  mod-lt, one-le-pow, mul_comm, mul_assoc, mul-sub, add-mul, mul-le-mul_right, mod-add-div,
}
use mathlib.Core.Path.{subst}
use cereggii.AtomicDict.Runtime.{Meta}
use cereggii.AtomicDict.Pages.{page_of, get_entry_at, entries_in_page}
use cereggii.AtomicDict.Reservation.{insert_position, find_group}
use cereggii.AtomicDict.Reservation.Invariant.{leader}

-- A group of `size` entries in a page: its place in the page, and the page.
pub record IsGroup (size page location : ℕ) : Type 0 where
  pub place : ℕ
  pub at : location ≡ page * 128 + place * size
  pub inside : place * size + size ≤ 128

module _ (k : ℕ) (small : k ≤ 6) where
  abbrev c : ℕ
  c = 2 ^ (7 - k)

  whole : 2 ^ k * c ≡ 128
  whole = sym (pow_add k (7 - k)) ∙ ap (λ (n : ℕ). 2 ^ n) {y = 7} (omega arith)

  -- The search starts at a multiple of the size.
  pub start-multiple : (hash : ℕ) → (i : ℕ) × (insert_position (2 ^ k) hash ≡ i * 2 ^ k)
  start-multiple hash =
      let mask : 2 ^ 64 - 2 ^ k ≡ (2 ^ (64 - k) - 1) * 2 ^ k = omega (
        arith,
        pow_add (64 - k) k,
        ap (λ (n : ℕ). 2 ^ n) {x = 64 - k + k} {y = 64} (omega arith),
        mul-sub (2 ^ k) (2 ^ (64 - k)) 1,
        mul_comm (2 ^ (64 - k) - 1) (2 ^ k),
        mul_comm (2 ^ (64 - k)) (2 ^ k),
      ) in
      (
        _,
        ap (bit_and (bit_and hash (entries_in_page - 1))) mask
            ∙ and_field k (64 - k) (bit_and hash (entries_in_page - 1)),
      )

  pub group-leader :
      (page location l : ℕ)
      → IsGroup (2 ^ k) page location
      → location ≤ l
      → l < location + 2 ^ k
      → (leader (2 ^ k) l ≡ location) × (page_of l ≡ page)
  unfolding page_of
  group-leader page location l g low high =
      let s = 2 ^ k in
      let q = page * c + g.place in
      let r = l - location in
      let scaled : q * s ≡ page * 128 + g.place * s = omega (
        arith,
        add-mul (page * c) g.place s,
        mul_assoc page c s,
        ap (λ (n : ℕ). page * n) (mul_comm c s ∙ whole),
      ) in
      let split : l ≡ r + s * q = omega (arith, g.at, scaled, mul_comm q s) in
      let split' : l ≡ g.place * s + r + 128 * page = omega (arith, g.at) in
      (
        ap (λ (n : ℕ). n / s * s) split
            ∙ ap (λ (n : ℕ). n * s) (div_unique s q r (omega arith))
            ∙ scaled
            ∙ sym g.at,
        ap (λ (n : ℕ). n / 128) split'
            ∙ div_unique 128 page (g.place * s + r) (omega (arith, g.inside)),
      )

  -- Where a step of the search looks is the start of a group.
  step-IsGroup :
      (page hash j : ℕ)
      → IsGroup (2 ^ k) page (page * 128 + (insert_position (2 ^ k) hash + j * 2 ^ k) % 128)
  step-IsGroup page hash j =
      let s = 2 ^ k in
      let (i, start) = start-multiple hash in
      let n = i + j in
      let x = n % c in
      let below : x < c = mod-lt n (one-le-pow (7 - k) 2 (omega arith)) in
      let top : x * s + s ≤ 128 = omega (
        arith,
        mul-le-mul_right {m = x + 1} {n = c} s (omega arith),
        add-mul x 1 s,
        mul_comm c s,
        whole,
      ) in
      let split : n * s ≡ x * s + 128 * (n / c) =
        ap (λ (t : ℕ). t * s) (sym (mod-add-div n c))
        ∙ add-mul x (c * (n / c)) s
        ∙ ap (λ (t : ℕ). x * s + t)
            (mul_comm (c * (n / c)) s
              ∙ sym (mul_assoc s c (n / c))
              ∙ ap (λ (t : ℕ). t * (n / c)) whole) in
      let pos : (insert_position s hash + j * s) % 128 ≡ x * s =
        ap (λ (t : ℕ). (t + j * s) % 128) start
        ∙ ap (λ (t : ℕ). t % 128) (sym (add-mul i j s) ∙ split)
        ∙ mod_unique 128 (n / c) (x * s) (omega (arith, one-le-pow k 2 (omega arith), top)) in
      record { place = x; at = ap (λ (t : ℕ). page * 128 + t) pos; inside = top }

  -- What the search finds is the start of a group that is not reserved.
  pub find_group-IsGroup :
      (hash page : ℕ) (m : Meta) (rounds j location : ℕ)
      → find_group (2 ^ k) hash page m rounds (j * 2 ^ k) ≡ some location
      → IsGroup (2 ^ k) page location × ((get_entry_at location m).flags ≡ 0)
  unfolding find_group
  find_group-IsGroup hash page m zero j location found = absurd (cc found)
  find_group-IsGroup hash page m (suc rounds) j location found =
      let here = page * 128 + (insert_position (2 ^ k) hash + j * 2 ^ k) % 128 in
      let next : j * 2 ^ k + 2 ^ k ≡ (j + 1) * 2 ^ k = omega (arith, add-mul j 1 (2 ^ k)) in
      elim (Bool-cases (ltb (j * 2 ^ k) 128)) [
        | inr out ↦ absurd (cc (rw (find_group, out) at found))
        | inl in_page ↦ elim (Bool-cases ((get_entry_at here m).flags == 0)) [
          | inl free ↦
              let same : here ≡ location = cc (rw (in_page, free) at found) in
              let zero_flags : (get_entry_at here m).flags ≡ 0 = ground arith in
              (
                subst (IsGroup (2 ^ k) page) same (step-IsGroup page hash j),
                subst (λ (t : ℕ). (get_entry_at t m).flags ≡ 0) same zero_flags,
              )
          | inr claimed ↦ find_group-IsGroup hash page m rounds (j + 1) location (
              ap (find_group (2 ^ k) hash page m rounds) (sym next)
              ∙ rw (in_page, claimed) at found)
        ]
      ]
