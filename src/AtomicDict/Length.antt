-- ===== src/AtomicDict/Length.antt =====
-- The length of a dictionary, counted by accessors (src/cereggii/atomic_dict/atomic_dict.c,
-- accessor_storage.c). The counters are exact integers. Calls that change them hold the locks that
-- `AtomicDict_Len` takes, so they are steps one after another.
-- `AtomicDict_ApproxLen` takes no lock and is left out.
pub mod Sums
pub mod Correct
use cereggii.Common.{ℕ, zero, suc, Bool, true, false, List, [], ◌∷◌, if◌then◌else◌}
use cereggii.Common.Int.{ℤ, pos, ◌+ℤ◌}
use cereggii.AtomicDict.Accessor.{Storage, Dictionary}

-- What the length is kept in: the parts of an `AtomicDict` and the list of its accessors.
pub record Lengths : Type 0 where
  pub len : ℤ
  pub len_dirty : Bool
  pub accessors : List Storage

-- The loops over the accessors.
unfoldable pub sum_of_accessors_len : List Storage → ℤ
sum_of_accessors_len [] = pos 0
sum_of_accessors_len (storage ∷ rest) = storage.local_len +ℤ sum_of_accessors_len rest

unfoldable pub clear_local_len : List Storage → List Storage
clear_local_len [] = []
clear_local_len (storage ∷ rest) = record storage { local_len = pos 0 } ∷ clear_local_len rest

-- The length with what the accessors count and no call has gathered.
unfoldable pub total : Lengths → ℤ
total self = self.len +ℤ sum_of_accessors_len (self.accessors)

unfoldable pub len_impl : Lengths → ℤ × Lengths
len_impl self =
    let len = self.len +ℤ sum_of_accessors_len (self.accessors) in
    if self.len_dirty
    then (
      len,
      record { len = len; len_dirty = false; accessors = clear_local_len (self.accessors) },
    )
    else (self.len, self)

-- `accessor_len_inc` by the accessor at a place of the list, if there is one.
unfoldable pub inc_local_len : ℕ → ℤ → List Storage → List Storage
inc_local_len ix inc [] = []
inc_local_len zero inc (storage ∷ rest) =
    record storage { local_len = storage.local_len +ℤ inc } ∷ rest
inc_local_len (suc ix) inc (storage ∷ rest) = storage ∷ inc_local_len ix inc rest

unfoldable pub len_inc : ℕ → ℤ → Lengths → Lengths
len_inc ix inc self = record self {
  accessors = inc_local_len ix inc (self.accessors);
  len_dirty = true;
}

-- A new accessor is appended, with counters of 0.
unfoldable pub append_accessor : Storage → List Storage → List Storage
append_accessor storage [] = storage ∷ []
append_accessor storage (first ∷ rest) = first ∷ append_accessor storage rest

-- The length of a dictionary with one accessor.
abbrev pub lengths_of : Dictionary → Lengths
lengths_of self = record {
  len = self.len;
  len_dirty = self.len_dirty;
  accessors = self.storage ∷ [];
}
