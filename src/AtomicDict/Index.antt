-- ===== src/AtomicDict/Index.antt =====
-- When an index is well formed: the invariant that probing relies on (atomic_dict.h).
pub mod Changes
pub mod Writes
pub mod Entries
use cereggii.Common.{ℕ, ◌+◌, ◌%◌, ◌^◌, ◌≤◌, ◌<◌, true, false, some, ◌≡◌, min}
use cereggii.AtomicDict.Runtime.{Object, Runtime, Entry, Node, Meta, size_of}
use cereggii.AtomicDict.Node.{parse_node_from_raw, is_empty, is_tombstone, check_tag, distance0_of}
use cereggii.AtomicDict.Pages.{get_entry_at}

-- The node in a slot, and the entry that it points to.
abbrev pub node_at : Meta → ℕ → Node
node_at m p = parse_node_from_raw (m.index p) m

abbrev pub entry_at : Meta → ℕ → Entry
entry_at m p = get_entry_at (node_at m p).index m

-- A slot in use that is no tombstone.
pub record IsLive (m : Meta) (p : ℕ) : Type 0 where
  pub within : p < size_of m
  pub filled : is_empty (node_at m p) ≡ false
  pub kept : is_tombstone (node_at m p) ≡ false

-- The entry of a live slot is complete, its node carries the tag of the hash, and every slot
-- between the first slot of the hash and this one is in use.
pub record IsPlaced (py : Runtime) (m : Meta) (p : ℕ) : Type 0 where
  pub key : Object
  pub value : Object
  pub has_key : (entry_at m p).key ≡ some key
  pub has_value : (entry_at m p).value ≡ some value
  pub hashed : py.hash_of key ≡ some (entry_at m p).hash
  pub tagged : check_tag py (entry_at m p).hash (node_at m p) m ≡ true
  pub steps : ℕ
  pub steps_lt : steps < size_of m
  pub arrives : (distance0_of py (entry_at m p).hash m + steps) % size_of m ≡ p
  pub near : (node_at m p).distance ≡ min steps 255
  pub chain :
      (j : ℕ)
      → j < steps
      → is_empty (node_at m ((distance0_of py (entry_at m p).hash m + j) % size_of m)) ≡ false

-- The slot holds the value under a key that is equal to the given one.
pub record Holds (py : Runtime) (m : Meta) (key value : Object) (p : ℕ) : Type 0 where
  pub live : IsLive m p
  pub stored_key : Object
  pub has_key : (entry_at m p).key ≡ some stored_key
  pub equal : py.rich_eq stored_key key ≡ some true
  pub has_value : (entry_at m p).value ≡ some value

-- `log_size` stays in the range where `1 << log_size` is defined for an `int`.
pub record IsIndexed (py : Runtime) (m : Meta) : Type 0 where
  pub small : m.log_size ≤ 30
  pub words : (p : ℕ) → p < size_of m → m.index p < 2 ^ 64
  pub placed : (p : ℕ) → IsLive m p → IsPlaced py m p
  pub unique :
      (p q : ℕ) (key value value' : Object)
      → Holds py m key value p
      → Holds py m key value' q
      → p ≡ q
