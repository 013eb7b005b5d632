-- ===== src/AtomicDict/Node/Hashing.antt =====
-- The range of rehashed values and of first slots, and tombstones (node_ops.c, atomic_dict.h).
use cereggii.Common.{ℕ, ◌+◌, ◌-◌, ◌*◌, ◌/◌, ◌^◌, ◌≤◌, ◌<◌, true, ◌≡◌, ◌↔◌, sym, ap, ◌∙◌, arith}
use cereggii.Common.Bits.{or_disjoint_low, pow_add}
use cereggii.AtomicDict.Runtime.{Runtime, Node, Meta, size_of}
use cereggii.AtomicDict.Node.{
  tombstone_tag, compute_raw_node, parse_node_from_raw, rehash, distance0_of, is_tombstone,
}
use cereggii.AtomicDict.Node.Encoding.{raw-eq, parse-compute, width, width_pos, low_part}
use native.Mathlib.Nat.{div-lt_iff_lt-mul, one-le-pow, mod-eq_of_lt}
use native.Mathlib.Decide.{dec_lt}

pub rehash-lt : (py : Runtime) (hash : ℕ) → rehash py hash < 2 ^ 64
unfolding rehash
rehash-lt py hash = rw (or_disjoint_low 32 _ _ (py.crc32_width hash _)) (
    omega
      (arith, py.crc32_width hash 7467732452331123588, py.crc32_width hash 12923598712359872066))

-- With at most 2 ^ 64 slots, the first slot of a hash lies in the index.
pub distance0_of-lt :
    (py : Runtime) (hash : ℕ) (m : Meta) → m.log_size ≤ 64 → distance0_of py hash m < size_of m
unfolding distance0_of
distance0_of-lt py hash m h =
    let whole : 2 ^ m.log_size * 2 ^ (64 - m.log_size) ≡ 2 ^ 64 =
      sym (pow_add m.log_size (64 - m.log_size)) ∙ ap (λ (k : ℕ). 2 ^ k) {y = 64} (omega arith) in
    (div-lt_iff_lt-mul (one-le-pow (64 - m.log_size) 2 (omega arith))).1
      (rw whole (rehash-lt py hash))

-- The node that `delete_` writes.
abbrev pub tombstone : Meta → Node
tombstone m = record { node = 0; index = 0; tag = tombstone_tag m; distance = 0 }

tombstone-raw :
    (m : Meta) (h : m.log_size ≤ 56)
    → (compute_raw_node (tombstone m) m).node ≡ 256 * (width m h - 1)
tombstone-raw m h =
    let w = width m h in
    let tag : (2 ^ (64 - m.log_size) - 1 - 255) / 256 ≡ w - 1 =
      rw (low_part m h) (omega (arith, width_pos m h)) in
    let small : w - 1 < w = omega (arith, width_pos m h) in
    rw (raw-eq m h (tombstone m) (one-le-pow m.log_size 2 (omega arith)), tag, mod-eq_of_lt small)
      (omega arith)

-- There are tag digits exactly below the greatest size.
two-le-width : (m : Meta) (h : m.log_size ≤ 56) → (2 ≤ width m h) ↔ (m.log_size < 56)
two-le-width m h = (
  λ wide. elim (dec_lt m.log_size 56) [
    | yes below ↦ below
    | no at ↦
        let none_left : width m h ≡ 1 = ap (λ (k : ℕ). 2 ^ k) {y = 0} (omega arith) in
        absurd (omega arith)
  ],
  λ below.
      let e : width m h ≡ 2 ^ 1 * 2 ^ (55 - m.log_size) =
        ap (λ (k : ℕ). 2 ^ k) {y = 1 + (55 - m.log_size)} (omega arith)
        ∙ pow_add 1 (55 - m.log_size) in
      omega (arith, one-le-pow (55 - m.log_size) 2),
)

-- With at most 2 ^ 56 slots, a tombstone reads back as one exactly when the table has fewer than 2^56 slots: at the greatest
-- size the tag has no digits, and the word of a tombstone is that of an empty slot.
pub tombstone_iff :
    (m : Meta)
    → m.log_size ≤ 56
    → (is_tombstone (parse_node_from_raw (compute_raw_node (tombstone m) m).node m) ≡ true)
      ↔ (m.log_size < 56)
unfolding parse_node_from_raw
tombstone_iff m h =
    let raw = tombstone-raw m h in
    let index = (parse-compute m h (tombstone m) (one-le-pow m.log_size 2 (omega arith))).0 in
    let wide = two-le-width m h in
    (λ t. wide.0 (ground (arith, raw, index)), λ below. ground (arith, raw, index, wide.1 below))
