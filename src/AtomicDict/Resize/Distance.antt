-- ===== src/AtomicDict/Resize/Distance.antt =====
-- The first slot of a migrated node is the one that its hash has in the new index (resize.c).
use cereggii.Common.{ℕ, ◌+◌, ◌-◌, ◌*◌, ◌/◌, ◌%◌, ◌^◌, ◌≤◌, ◌<◌, ◌≡◌, sym, ap, ◌∙◌, arith, bit_and}
use cereggii.Common.Bits.{pow_add}
use native.Mathlib.Nat.{
  one-le-pow, div-add-mod, add-mul-div_left, div-div-eq-div-mul, mul_assoc, mul_comm,
  mul-div-mul_right, pow-le-pow_right, mod-lt, div-lt_iff_lt-mul,
}
use native.Mathlib.Decide.{dec_lt}
use cereggii.AtomicDict.Runtime.{Runtime, Meta}
use cereggii.AtomicDict.Node.{rehash, distance0_of, check_tag, tag_mask, parse_node_from_raw}
use cereggii.AtomicDict.Node.Encoding.{tag_part, and_tag_idem}
use cereggii.AtomicDict.Node.Hashing.{distance0_of-lt}
use cereggii.AtomicDict.Pages.{get_entry_at}
use cereggii.AtomicDict.Index.{node_at, entry_at, IsPlaced}
use cereggii.AtomicDict.Resize.{migrate_node_d0}

-- One more digit of a quotient.
div_digit : (x w : ℕ) → 0 < w → x / w ≡ x / (w * 2) * 2 + x % (w * 2) / w
div_digit x w h =
    let q = x / (w * 2) in
    let r = x % (w * 2) in
    let split : x ≡ r + w * (q * 2) =
      omega (arith, div-add-mod x (w * 2), mul_assoc w 2 q, mul_comm 2 q) in
    ap (λ (t : ℕ). t / w) {x = x} {y = r + w * (q * 2)} split
    ∙ add-mul-div_left r (q * 2) h
    ∙ omega arith

module _ (py : Runtime) (m m' : Meta) (p : ℕ) (place : IsPlaced py m p) (room : m.log_size < 56)
    (grown : m'.log_size ≡ m.log_size + 1) where
  abbrev pub hash : ℕ
  hash = (entry_at m p).hash

  -- The word of a placed node carries the tag digits of its hash.
  pub tag_digits : (node_at m p).tag ≡ bit_and (rehash py hash) (tag_mask m)
  unfolding parse_node_from_raw check_tag
  tag_digits =
      let same : bit_and (bit_and (m.index p) (tag_mask m)) (tag_mask m)
          ≡ bit_and (rehash py hash) (tag_mask m) =
        ground (arith, place.tagged) in
      sym (and_tag_idem m (omega arith) (m.index p)) ∙ same

  abbrev half : ℕ
  half = 2 ^ (55 - m.log_size)

  half_shape :
      (2 ^ (56 - m.log_size) ≡ half * 2)
      × (2 ^ (64 - m.log_size - 1) ≡ half * 256)
      × (2 ^ (64 - m.log_size) ≡ half * 2 * 256)
      × (2 ^ (64 - m'.log_size) ≡ half * 256)
  half_shape = (
    ap (λ (k : ℕ). 2 ^ k) {y = 55 - m.log_size + 1} (omega arith) ∙ pow_add (55 - m.log_size) 1,
    ap (λ (k : ℕ). 2 ^ k) {y = 55 - m.log_size + 8} (omega arith) ∙ pow_add (55 - m.log_size) 8,
    ap (λ (k : ℕ). 2 ^ k) {y = 55 - m.log_size + 9} (omega arith)
        ∙ pow_add (55 - m.log_size) 9
        ∙ omega arith,
    ap (λ (k : ℕ). 2 ^ k) {y = 55 - m.log_size + 8} (omega arith) ∙ pow_add (55 - m.log_size) 8,
  )

  digit : (node_at m p).tag / 2 ^ (64 - m.log_size - 1) ≡ rehash py hash / 256 % (half * 2) / half
  digit =
      let q = rehash py hash / 256 in
      let shape = half_shape in
      let tag : (node_at m p).tag ≡ q % (half * 2) * 256 =
        tag_digits
        ∙ tag_part m (omega arith) (rehash py hash)
        ∙ ap (λ (t : ℕ). q % t * 256) shape.0 in
      ap (λ (t : ℕ). t / 2 ^ (64 - m.log_size - 1)) tag
      ∙ ap (λ (t : ℕ). q % (half * 2) * 256 / t) shape.1
      ∙ mul-div-mul_right (q % (half * 2)) half (omega arith)

  half_pos : 0 < half
  half_pos = one-le-pow (55 - m.log_size) 2 (omega arith)

  -- It is a binary digit.
  pub digit-lt : (node_at m p).tag / 2 ^ (64 - m.log_size - 1) < 2
  digit-lt = rw digit (
      (div-lt_iff_lt-mul half_pos).1 (
        omega (
          arith,
          mul_comm half 2,
          mod-lt (rehash py hash / 256) {m = half * 2} (omega (arith, half_pos)),
        )))

  pub next_d0 :
      distance0_of py hash m'
      ≡ distance0_of py hash m * 2 + (node_at m p).tag / 2 ^ (64 - m.log_size - 1)
  unfolding distance0_of
  next_d0 =
      let r = rehash py hash in
      let q = r / 256 in
      let shape = half_shape in
      let over : (w : ℕ) → r / (w * 256) ≡ q / w =
        λ w. ap (λ (t : ℕ). r / t) (mul_comm w 256) ∙ sym (div-div-eq-div-mul r 256 w) in
      let before : r / 2 ^ (64 - m.log_size) ≡ q / (half * 2) =
        ap (λ (t : ℕ). r / t) shape.2 ∙ over (half * 2) in
      let next : r / 2 ^ (64 - m'.log_size) ≡ q / half =
        ap (λ (t : ℕ). r / t) shape.3 ∙ over half in
      omega (
        arith,
        digit,
        before,
        next,
        div_digit q half (one-le-pow (55 - m.log_size) 2 (omega arith)),
      )

  -- In an index of fewer than 2 ^ 56 slots and one of twice the size, for a placed node that is read `steps` slots past its first slot, and pages that keep its hash,
  -- `migrate_node_d0` is the first slot of its hash in the doubled index, on both branches.
  pub migrate_node_d0-eq :
      (get_entry_at (node_at m p).index m').hash ≡ hash
      → migrate_node_d0 py (node_at m p) (distance0_of py hash m + place.steps) m m'
        ≡ distance0_of py hash m'
  unfolding migrate_node_d0
  migrate_node_d0-eq kept =
      let d = (node_at m p).distance in
      let first = distance0_of-lt py hash m' (omega arith) in
      let size : 2 ^ m'.log_size ≤ 2 ^ 57 = pow-le-pow_right (omega arith) {j = 57} (omega arith) in
      elim (dec_lt d 255) [
        | yes exact ↦
            let same : d ≡ place.steps = omega (arith, place.near) in
            ground (arith, next_d0, first, size, same)
        | no capped ↦ ground (arith, kept)
      ]
