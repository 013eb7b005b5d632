-- ===== src/AtomicDict/Resize/Target.antt =====
-- Where the probe of a migrated node starts in the new index, when places are counted on past the
-- end of the index (resize.c).
use cereggii.Common.{ℕ, ◌+◌, ◌-◌, ◌*◌, ◌/◌, ◌%◌, ◌^◌, ◌≤◌, ◌<◌, ◌≡◌, sym, ap, ◌∙◌, true, arith}
use cereggii.Common.Bits.{mod_unique, pow_add}
use native.Mathlib.Nat.{
  add-mod_right, mod-add-mod, mod-eq_of_lt, mul_assoc, div-add-mod, pow-le-pow_right,
}
use native.Mathlib.Decide.{dec_lt}
use cereggii.AtomicDict.Runtime.{Runtime, Meta, size_of}
use cereggii.AtomicDict.Node.{is_empty, distance0_of}
use cereggii.AtomicDict.Node.Hashing.{distance0_of-lt}
use cereggii.AtomicDict.Pages.{get_entry_at}
use cereggii.AtomicDict.Index.{node_at, entry_at, IsLive, IsPlaced, IsIndexed}
use cereggii.AtomicDict.Resize.{migrate_node_d0}
use cereggii.AtomicDict.Resize.Distance.{next_d0, digit-lt}

-- Steps of the same length on a ring can be taken back.
pub mod_cancel : (n x y c : ℕ) → c ≤ n → (x + c) % n ≡ (y + c) % n → x % n ≡ y % n
mod_cancel n x y c le e =
    let round : (z : ℕ) → ((z + c) % n + (n - c)) % n ≡ z % n = λ z.
      mod-add-mod (z + c) n (n - c)
      ∙ ap (λ (t : ℕ). t % n) {x = z + c + (n - c)} {y = z + n} (omega arith)
      ∙ add-mod_right z n in
    sym (round x) ∙ ap (λ (t : ℕ). (t + (n - c)) % n) e ∙ round y

pub double : (m m' : Meta) → m'.log_size ≡ m.log_size + 1 → size_of m' ≡ 2 * size_of m
double m m' e = ap (λ (k : ℕ). 2 ^ k) e ∙ pow_add m.log_size 1 ∙ omega arith

module _ (py : Runtime) (m m' : Meta) (good : IsIndexed py m) (grown : m'.log_size ≡ m.log_size + 1)
    (small : m.log_size < 30) (empty place : ℕ)
    (free : is_empty (node_at m (empty % size_of m)) ≡ true) (after : empty < place)
    (near : place < empty + size_of m) (below : place < 2 * size_of m)
    (live : IsLive m (place % size_of m))
    (kept : (get_entry_at (node_at m (place % size_of m)).index m').hash
      ≡ (entry_at m (place % size_of m)).hash) where
  abbrev n : ℕ
  n = size_of m

  abbrev at : IsPlaced py m (place % size_of m)
  at = good.placed (place % size_of m) live

  abbrev d0 : ℕ
  d0 = distance0_of py (entry_at m (place % size_of m)).hash m

  abbrev bit : ℕ
  bit = (node_at m (place % size_of m)).tag / 2 ^ (64 - m.log_size - 1)

  -- The empty slot is not among those between the first slot of the hash and this one.
  steps_fit : at.steps < place - empty
  steps_fit = elim (dec_lt at.steps (place - empty)) [
    | yes fits ↦ fits
    | no over ↦
        let j = at.steps - (place - empty) in
        let same : (d0 + j + (place - empty)) % n ≡ (empty + (place - empty)) % n =
          ap (λ (t : ℕ). t % n) {x = d0 + j + (place - empty)} {y = d0 + at.steps} (omega arith)
          ∙ at.arrives
          ∙ ap (λ (t : ℕ). t % n) {x = place} {y = empty + (place - empty)} (omega arith) in
        let here = mod_cancel n (d0 + j) empty (place - empty) (omega arith) same in
        let chain = at.chain j (omega arith) in
        absurd (cc (ap (λ q. is_empty (node_at m q)) here, chain, free))
  ]

  abbrev first : ℕ
  first = place - at.steps

  first-mod : first % n ≡ d0
  first-mod =
      mod_cancel n first d0 at.steps (omega (arith, at.steps_lt)) (
        ap (λ (t : ℕ). t % n) {x = first + at.steps} {y = place} (omega (arith, steps_fit))
        ∙ sym at.arrives)
      ∙ mod-eq_of_lt (distance0_of-lt py _ m (omega arith))

  abbrev target : ℕ
  target = 2 * first + bit

  bit-lt : bit < 2
  bit-lt = digit-lt py m m' (place % n) at (omega arith) grown

  target-mod : target % size_of m' ≡ distance0_of py (entry_at m (place % size_of m)).hash m'
  target-mod =
      let split : first ≡ n * (first / n) + d0 =
        sym (div-add-mod first n) ∙ ap (λ (t : ℕ). n * (first / n) + t) first-mod in
      let next = next_d0 py m m' (place % n) at (omega arith) grown in
      let lt = distance0_of-lt py (entry_at m (place % n)).hash m' (omega arith) in
      let q = first / n in
      let whole : target ≡ distance0_of py (entry_at m (place % n)).hash m' + size_of m' * q =
        rw (double m m' grown) (omega (arith, split, next, mul_assoc 2 n q)) in
      ap (λ (t : ℕ). t % size_of m') whole ∙ mod_unique (size_of m') q _ lt

  -- The probe of a placed node starts, up to full rounds, at a place that lies after those of the
  -- empty slot and not after those of its own.
  pub target_lem :
      (start : ℕ) × (2 * empty + 2 ≤ start)
      × (start ≤ 2 * place + 1)
      × (start % size_of m' ≡ distance0_of py (entry_at m (place % size_of m)).hash m')
      × ((j : ℕ)
          → (migrate_node_d0 py (node_at m (place % size_of m)) place m m' + j) % size_of m'
            ≡ (start + j) % size_of m')
  unfolding migrate_node_d0
  target_lem =
      let fit = steps_fit in
      let digit = bit-lt in
      let size : n ≤ 2 ^ 30 = pow-le-pow_right (omega arith) {j = 30} (omega arith) in
      (
        target,
        omega arith,
        omega arith,
        target-mod,
        λ j. elim (dec_lt (node_at m (place % n)).distance 255) [
          | yes exact ↦
              let same : (node_at m (place % n)).distance ≡ at.steps = omega (arith, at.near) in
              let computed : migrate_node_d0 py (node_at m (place % n)) place m m' ≡ target =
                ground (arith, same, size, digit, fit) in
              ap (λ (t : ℕ). (t + j) % size_of m') computed
          | no capped ↦
              let computed : migrate_node_d0 py (node_at m (place % n)) place m m'
                  ≡ target % size_of m' =
                ground (arith, kept, target-mod) in
              ap (λ (t : ℕ). (t + j) % size_of m') computed ∙ mod-add-mod target (size_of m') j
        ],
      )
