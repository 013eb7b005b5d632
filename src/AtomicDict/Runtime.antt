-- ===== src/AtomicDict/Runtime.antt =====
-- What the table takes from outside the repository, and the records that it keeps
-- (src/include/cereggii/internal/atomic_dict.h). A `PyObject *` is an address, `none` is NULL; a
-- `Py_hash_t` is its 64-bit pattern.
use cereggii.Common.{ℕ, ◌^◌, ◌<◌, ◌≡◌, ◌⊎◌, Bool, true, false, Option, some}
use cereggii.Common.Int.{ℤ}

abbrev pub Object : Type 0
Object = ℕ

-- The crc32 instruction on an accumulator and a word, and CPython's calls on objects. A hash of
-- `none` and a comparison of `none` are a raised exception.
pub record Runtime : Type 0 where
  pub crc32 : ℕ → ℕ → ℕ
  pub hash_of : Object → Option ℕ
  pub rich_eq : Object → Object → Option Bool
  -- The instruction leaves a 32-bit checksum.
  pub crc32_width : (acc word : ℕ) → crc32 acc word < 2 ^ 32

-- The documented behaviour of keys, where no comparison raises: equality is an equivalence, and
-- equal keys have equal hashes.
pub record IsLawful (py : Runtime) : Type 0 where
  pub eq_decides : (a b : Object) → (py.rich_eq a b ≡ some true) ⊎ (py.rich_eq a b ≡ some false)
  pub eq_refl : (a : Object) → py.rich_eq a a ≡ some true
  pub eq_symm : (a b : Object) → py.rich_eq a b ≡ some true → py.rich_eq b a ≡ some true
  pub eq_trans :
      (a b c : Object)
      → py.rich_eq a b ≡ some true
      → py.rich_eq b c ≡ some true
      → py.rich_eq a c ≡ some true
  pub eq_hash : (a b : Object) → py.rich_eq a b ≡ some true → py.hash_of a ≡ py.hash_of b

-- `AtomicDictEntry`.
pub record Entry : Type 0 where
  pub flags : ℕ
  pub hash : ℕ
  pub key : Option Object
  pub value : Option Object

-- `AtomicDictNode`: the raw word and its fields.
pub record Node : Type 0 where
  pub node : ℕ
  pub index : ℕ
  pub tag : ℕ
  pub distance : ℕ

-- The part of `AtomicDictMeta` that one generation of the table works on: the index has
-- `2 ^ log_size` words, and a page has 128 entries.
pub record Meta : Type 0 where
  pub log_size : ℕ
  pub index : ℕ → ℕ
  pub pages : ℕ → ℕ → Entry
  pub greatest_allocated_page : ℤ

-- `SIZE_OF`.
abbrev pub size_of : Meta → ℕ
size_of m = 2 ^ m.log_size
