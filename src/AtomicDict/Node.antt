-- ===== src/AtomicDict/Node.antt =====
-- Operations on index words: src/cereggii/atomic_dict/node_ops.c.
pub mod Encoding
pub mod Hashing
use cereggii.Common.{
  ℕ, ◌+◌, ◌-◌, ◌*◌, ◌/◌, ◌%◌, ◌^◌, Bool, true, false, not, ◌&&◌, ltb, ◌==◌, if◌then◌else◌, bit_and,
  bit_or, update,
}
use cereggii.AtomicDict.Runtime.{Runtime, Node, Meta}

-- `NODE_SIZE`.
abbrev pub node_size : ℕ
node_size = 64

-- `DISTANCE_MASK`.
abbrev pub distance_mask : ℕ
distance_mask = 2 ^ 8 - 1

-- `TAG_MASK`; every table has `log_size ≤ 56`, so neither difference is negative.
abbrev pub tag_mask : Meta → ℕ
tag_mask m = 2 ^ (node_size - m.log_size) - 1 - distance_mask

-- `TOMBSTONE`.
abbrev pub tombstone_tag : Meta → ℕ
tombstone_tag m = tag_mask m

-- `UPPER_SEED` and `LOWER_SEED`.
abbrev pub upper_seed : ℕ
upper_seed = 12923598712359872066

abbrev pub lower_seed : ℕ
lower_seed = 7467732452331123588

-- `REHASH`.
unfoldable pub rehash : Runtime → ℕ → ℕ
rehash py hash = bit_or (py.crc32 hash lower_seed) (py.crc32 hash upper_seed * 2 ^ 32)

-- The word of a node. A distance above `UINT8_MAX` is stored as `UINT8_MAX`.
unfoldable pub compute_raw_node : Node → Meta → Node
compute_raw_node n m =
    let distance = if ltb 255 n.distance then 255 else n.distance in
    record n {
      node =
          bit_or
            (bit_or (n.index * 2 ^ (node_size - m.log_size) % 2 ^ 64) (bit_and n.tag (tag_mask m)))
            distance;
    }

unfoldable pub check_tag : Runtime → ℕ → Node → Meta → Bool
check_tag py hash n m = bit_and n.tag (tag_mask m) == bit_and (rehash py hash) (tag_mask m)

-- The slot where a hash wants to be: its most significant bits.
unfoldable pub distance0_of : Runtime → ℕ → Meta → ℕ
distance0_of py hash m = rehash py hash / 2 ^ (64 - m.log_size)

unfoldable pub parse_node_from_raw : ℕ → Meta → Node
parse_node_from_raw raw m = record {
  node = raw;
  index = raw / 2 ^ (node_size - m.log_size);
  tag = bit_and raw (tag_mask m);
  distance = bit_and raw distance_mask;
}

-- The mask `(1 << log_size) - 1` is an `int` in the source, defined for `log_size ≤ 30`.
unfoldable pub read_raw_node_at : ℕ → Meta → ℕ
read_raw_node_at ix m = m.index (bit_and ix (2 ^ m.log_size - 1))

abbrev pub is_empty : Node → Bool
is_empty n = n.node == 0

abbrev pub is_tombstone : Node → Bool
is_tombstone n = not (n.node == 0) && n.index == 0

unfoldable pub read_node_at : ℕ → Meta → Node
read_node_at ix m = parse_node_from_raw (read_raw_node_at ix m) m

abbrev pub write_raw_node_at : ℕ → ℕ → Meta → Meta
write_raw_node_at ix raw m = record m { index = update m.index ix raw }

unfoldable pub write_node_at : ℕ → Node → Meta → Meta
write_node_at ix n m = write_raw_node_at ix (compute_raw_node n m).node m

-- The compare-and-swap on an index word, with whether it was made.
unfoldable pub atomic_write_node_at : ℕ → Node → Node → Meta → Bool × Meta
atomic_write_node_at ix expected desired m =
    if m.index ix == (compute_raw_node expected m).node
    then (true, write_raw_node_at ix (compute_raw_node desired m).node m)
    else (false, m)
