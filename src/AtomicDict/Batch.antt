-- ===== src/AtomicDict/Batch.antt =====
-- `AtomicDict_BatchGetItem` (src/cereggii/atomic_dict/lookup.c), while no resize runs: the second reading of
-- the metadata gives the same. The batch is a `dict`, given by its keys in the order of `PyDict_Next`
-- and by the calls of `PyDict_SetItem` made on it, which succeed and add no key. The prefetches are left out.
pub mod Ring
pub mod Correct
use cereggii.Common.{
  ℕ, zero, suc, ◌+◌, ◌-◌, ◌%◌, Bool, true, false, Option, none, some, List, [], ◌∷◌, ◌++◌, ◌==◌,
  update, if◌then◌else◌,
}
use cereggii.Common.Int.{ℤ, pos, pos_part, leb_ℤ}
use cereggii.AtomicDict.Runtime.{Object, Runtime}
use cereggii.AtomicDict.Lookup.{SearchResult, lookup}
use cereggii.AtomicDict.Accessor.{Dictionary}

-- What a key of the batch is set to.
pub data Item : Type 0 where
  not_found : Item
  value : Object → Item

abbrev pub Stores : Type 0
Stores = List (Object × Item)

-- The two arrays, used in a ring, and how many keys were read into them.
pub record Chunk : Type 0 where
  pub hashes : ℕ → ℕ
  pub keys : ℕ → Object
  pub chunk_end : ℕ

-- `PyDict_Size`.
unfoldable pub length : List Object → ℕ
length [] = 0
length (key ∷ rest) = suc (length rest)

-- A ValueError, another exception, the sets made till then, or all sets; or too few rounds.
pub data Batch : Type 0 where
  value_error endless : Batch
  failed filled : Stores → Batch

abbrev pub read_key : ℕ → ℕ → Object → Chunk → Chunk
read_key chunk_size hash key c = record {
  hashes = update c.hashes (c.chunk_end % chunk_size) hash;
  keys = update c.keys (c.chunk_end % chunk_size) key;
  chunk_end = c.chunk_end + 1;
}

module _ (py : Runtime) (chunk_size : ℕ) where
  -- The loop over `PyDict_Next`, with the keys that it leaves.
  unfoldable pub next_chunk : List Object → Chunk → Option (Chunk × List Object)
  next_chunk [] c = some (c, [])
  next_chunk (key ∷ rest) c = elim (py.hash_of key) [
    | none ↦ none
    | some hash ↦
        let c' = read_key chunk_size hash key c in
        let more = next_chunk rest c' in
        if c'.chunk_end % chunk_size == 0 then some (c', rest) else more
  ]

  module _ (self : Dictionary) where
    abbrev pub store : Object → Item → Bool × Stores → Bool × Stores
    store key item (ok, stores) = (ok, (key, item) ∷ stores)

    -- A value that is NULL is refused by `PyDict_SetItem`.
    abbrev pub set_found : Object → Option Object → Bool × Stores → Bool × Stores
    set_found key none rest = (false, [])
    set_found key (some v) rest = store key (Item.value v) rest

    -- The lookups from position `i` on, and whether all went well.
    unfoldable pub look_up_chunk : Chunk → ℕ → ℕ → Bool × Stores
    look_up_chunk c zero i = (true, [])
    look_up_chunk c (suc more) i =
        let hash = c.hashes (i % chunk_size) in
        let key = c.keys (i % chunk_size) in
        let rest = look_up_chunk c more (i + 1) in
        elim (lookup py (self.metadata) key hash) [
          | SearchResult.error ↦ (false, [])
          | SearchResult.not_found ↦ store key Item.not_found rest
          | SearchResult.found position node entry_p entry ↦ set_found key entry.value rest
        ]

    abbrev pub put_before : Stores → Batch → Batch
    put_before stores Batch.value_error = Batch.value_error
    put_before stores Batch.endless = Batch.endless
    put_before stores (Batch.failed later) = Batch.failed (stores ++ later)
    put_before stores (Batch.filled later) = Batch.filled (stores ++ later)

    abbrev pub chunk_done : Bool × Stores → Bool → Batch → Batch
    chunk_done (false, stores) last later = Batch.failed stores
    chunk_done (true, stores) true later = Batch.filled stores
    chunk_done (true, stores) false later = put_before stores later

    -- Chunk after chunk, until as many keys were read as the batch has.
    unfoldable pub chunks : ℕ → ℕ → List Object → Chunk → Batch
    chunks batch_size zero left c = Batch.endless
    chunks batch_size (suc rounds) left c = elim (next_chunk left c) [
      | none ↦ Batch.failed []
      | some (c', left') ↦
          let chunk_start = c.chunk_end in
          chunk_done (look_up_chunk c' (c'.chunk_end - chunk_start) chunk_start)
            (batch_size == c'.chunk_end) (chunks batch_size rounds left' c')
    ]

-- `memory` is what the two arrays hold before they are written. A round reads a key, if one is left.
unfoldable pub batch_get_item : Runtime → Chunk → Dictionary → List Object → ℤ → Batch
batch_get_item py memory self batch chunk_size =
    if leb_ℤ chunk_size (pos 0)
    then Batch.value_error
    else chunks py (pos_part chunk_size) self (length batch) (length batch + 1) batch
        (record memory { chunk_end = 0 })
