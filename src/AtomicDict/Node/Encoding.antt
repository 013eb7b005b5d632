-- ===== src/AtomicDict/Node/Encoding.antt =====
-- The fields of an index word are read back as they were written (node_ops.c).
use cereggii.Common.{
  ℕ, ◌+◌, ◌-◌, ◌*◌, ◌/◌, ◌%◌, ◌^◌, ◌≤◌, ◌<◌, min, ltb, if◌then◌else◌, bit_and, ◌≡◌, sym, ap, ◌∙◌,
  arith,
}
use cereggii.Common.Bits.{and_mask, and_field, or_disjoint, pow_add, div_unique, mod_unique}
use cereggii.AtomicDict.Runtime.{Node, Meta}
use cereggii.AtomicDict.Node.{tag_mask, compute_raw_node, parse_node_from_raw}
use native.Mathlib.Nat.{
  one-le-pow, mod-eq_of_lt, div-add-mod, mod-lt, div-div-eq-div-mul, mod-mod, mul_assoc, mul_comm,
  div-lt_iff_lt-mul, mul-div_cancel, le_trans, le_of_eq, mul-le-mul_right,
}

module _ (m : Meta) (fits : m.log_size ≤ 56) where
  abbrev pub width : ℕ
  width = 2 ^ (56 - m.log_size)

  pub width_pos : 1 ≤ width
  width_pos = one-le-pow (56 - m.log_size) 2 (omega arith)

  -- Below the index lie the tag and the eight binary digits of the distance.
  pub low_part : 2 ^ (64 - m.log_size) ≡ width * 256
  low_part =
      ap (λ (k : ℕ). 2 ^ k) (let e : 64 - m.log_size ≡ 56 - m.log_size + 8 = omega arith in e)
      ∙ pow_add (56 - m.log_size) 8

  pub whole_word : 2 ^ m.log_size * (width * 256) ≡ 2 ^ 64
  whole_word =
      ap (λ (t : ℕ). 2 ^ m.log_size * t) (sym low_part)
      ∙ sym (pow_add m.log_size (64 - m.log_size))
      ∙ ap (λ (k : ℕ). 2 ^ k) {y = 64} (omega arith)

  pub tag_mask-eq : tag_mask m ≡ (width - 1) * 2 ^ 8
  tag_mask-eq = rw low_part (omega (arith, width_pos))

  pub tag_part : (x : ℕ) → bit_and x (tag_mask m) ≡ x / 256 % width * 256
  tag_part x = rw tag_mask-eq (and_field 8 (56 - m.log_size) x)

  tag_bound : (x : ℕ) → x / 256 % width * 256 < 2 ^ (64 - m.log_size)
  tag_bound x = rw low_part (omega (arith, mod-lt (x / 256) width_pos))

  index_bound : (i : ℕ) → i < 2 ^ m.log_size → i * 2 ^ (64 - m.log_size) < 2 ^ 64
  index_bound i h = rw (← whole_word, low_part) (grind (arith, width_pos))

  -- The word in arithmetic.
  pub raw-eq :
      (n : Node)
      → n.index < 2 ^ m.log_size
      → (compute_raw_node n m).node
        ≡ min n.distance 255 + 256 * (n.tag / 256 % width + width * n.index)
  unfolding compute_raw_node
  raw-eq n h =
      let t = n.tag / 256 % width in
      let upper : n.index * 2 ^ (64 - m.log_size) + t * 256 ≡ (n.index * width + t) * 2 ^ 8 =
        rw low_part (ground (arith, mul_assoc n.index width 256)) in
      let near : (if ltb 255 n.distance then 255 else n.distance) ≡ min n.distance 255 =
        ground arith in
      rw
        (
          tag_part n.tag,
          mod-eq_of_lt (index_bound n.index h),
          or_disjoint (64 - m.log_size) n.index (t * 256) (tag_bound n.tag),
          upper,
          near,
          or_disjoint 8 (n.index * width + t) (min n.distance 255) (omega arith),
        )
        (ground (arith, mul_comm n.index width))

  -- With at most 2 ^ 56 slots and an index that fits, reading back the word of a node gives its
  -- index, its tag under the mask, and its distance up to 255.
  pub parse-compute :
      (n : Node)
      → n.index < 2 ^ m.log_size
      → let back = parse_node_from_raw (compute_raw_node n m).node m in
        (back.index ≡ n.index)
        × (back.tag ≡ bit_and n.tag (tag_mask m))
        × (back.distance ≡ min n.distance 255)
  unfolding parse_node_from_raw
  parse-compute n h =
      let t = n.tag / 256 % width in
      let d = min n.distance 255 in
      let low : d < 256 = omega arith in
      let mid : t < width = mod-lt (n.tag / 256) width_pos in
      let above : (d + 256 * (t + width * n.index)) / 256 ≡ t + width * n.index =
        div_unique 256 _ d low in
      rw (raw-eq n h) (
        rw (low_part, mul_comm width 256, ← div-div-eq-div-mul, above)
            (div_unique width n.index t mid),
        rw (tag_part, tag_part, above, mod_unique width n.index t mid),
        and_mask 8 _ ∙ mod_unique 256 _ d low,
      )

  -- With at most 2 ^ 56 slots, a 64-bit word is rebuilt from its fields, so a compare-and-swap
  -- expects just the word that was read.
  pub compute-parse :
      (raw : ℕ) → raw < 2 ^ 64 → (compute_raw_node (parse_node_from_raw raw m) m).node ≡ raw
  unfolding parse_node_from_raw
  compute-parse raw h =
      let n = parse_node_from_raw raw m in
      let index : n.index ≡ raw / 256 / width =
        ap (λ (t : ℕ). raw / t) (low_part ∙ mul_comm width 256)
        ∙ sym (div-div-eq-div-mul raw 256 width) in
      let small : n.index < 2 ^ m.log_size =
        (div-lt_iff_lt-mul (rw low_part (omega (arith, width_pos)))).1
          (rw (low_part, whole_word) h) in
      let tag : n.tag / 256 ≡ raw / 256 % width = rw tag_part (mul-div_cancel _ (omega arith)) in
      let distance : n.distance ≡ raw % 256 = and_mask 8 raw in
      rw (raw-eq n small, tag, mod-mod, index)
        (omega (arith, distance, div-add-mod (raw / 256) width))

  pub raw-lt : (n : Node) → n.index < 2 ^ m.log_size → (compute_raw_node n m).node < 2 ^ 64
  raw-lt n h =
      let room : (n.index + 1) * (width * 256) ≤ 2 ^ 64 =
        le_trans
          (mul-le-mul_right (width * 256)
            (let up : n.index + 1 ≤ 2 ^ m.log_size = omega arith in up))
          (le_of_eq whole_word) in
      let mid : n.tag / 256 % width < width = mod-lt (n.tag / 256) width_pos in
      rw (raw-eq n h)
        (omega (arith, mul_assoc (n.index + 1) width 256, room, mul_comm width n.index))

  -- Taking the tag digits twice changes nothing.
  pub and_tag_idem :
      (x : ℕ) → bit_and (bit_and x (tag_mask m)) (tag_mask m) ≡ bit_and x (tag_mask m)
  and_tag_idem x = rw (
    tag_part (bit_and x (tag_mask m)),
    tag_part x,
    mul-div_cancel (x / 256 % width) {n = 256} (omega arith),
    mod-mod,
  )
