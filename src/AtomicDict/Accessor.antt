-- ===== src/AtomicDict/Accessor.antt =====
-- What a thread keeps for its own operations: counters, and a buffer of reserved entries
-- (src/cereggii/atomic_dict/accessor_storage.c).
pub mod Buffer
use cereggii.Common.{
  ℕ, ◌+◌, ◌-◌, Bool, true, Option, none, some, if◌then◌else◌, ◌==◌, ltb, leb, ◌&&◌,
}
use cereggii.Common.Int.{ℤ, ◌+ℤ◌}
use cereggii.AtomicDict.Runtime.{Meta}

-- `AtomicDictReservationBuffer`: the entries from `start` on, of which `used` are taken.
pub record ReservationBuffer : Type 0 where
  pub start : ℕ
  pub size : ℕ
  pub used : ℕ

-- `AtomicDictAccessorStorage`, without its lock and its links.
pub record Storage : Type 0 where
  pub local_len : ℤ
  pub local_inserted : ℤ
  pub local_tombstones : ℤ
  pub reservation_buffer : ReservationBuffer

-- The dictionary as its one accessor sees it while no resize runs.
pub record Dictionary : Type 0 where
  pub metadata : Meta
  pub storage : Storage
  pub len_dirty : Bool
  pub len : ℤ
  pub reservation_buffer_size : ℕ

-- The assertions of `reservation_buffer_put` on the sizes.
abbrev pub put_asserts : ReservationBuffer → ℕ → Bool
put_asserts rb n = ltb 0 n && leb n 64 && (rb.size == rb.used)

-- Where the assertions hold; Init tests them, and Reservation/Asserts has the puts of pages.c.
unfoldable pub reservation_buffer_put : ReservationBuffer → ℕ → ℕ → ReservationBuffer
reservation_buffer_put rb location n = record { start = location; size = n; used = 0 }

-- `used` is positive here: an assertion of the source.
unfoldable pub reservation_buffer_put_back_one : ReservationBuffer → ReservationBuffer
reservation_buffer_put_back_one rb = record rb { used = rb.used - 1 }

-- The location of the next entry, or none when the buffer is used up.
unfoldable pub reservation_buffer_pop : ReservationBuffer → Option ℕ × ReservationBuffer
reservation_buffer_pop rb =
    if rb.used == rb.size
    then (none, rb)
    else (some (rb.start + rb.used), record rb { used = rb.used + 1 })

unfoldable pub accessor_len_inc : ℤ → Dictionary → Dictionary
accessor_len_inc inc self = record self {
  storage = record (self.storage) { local_len = self.storage.local_len +ℤ inc };
  len_dirty = true;
}

unfoldable pub accessor_inserted_inc : ℤ → Dictionary → Dictionary
accessor_inserted_inc inc self = record self {
  storage = record (self.storage) { local_inserted = self.storage.local_inserted +ℤ inc };
}

unfoldable pub accessor_tombstones_inc : ℤ → Dictionary → Dictionary
accessor_tombstones_inc inc self = record self {
  storage = record (self.storage) { local_tombstones = self.storage.local_tombstones +ℤ inc };
}
