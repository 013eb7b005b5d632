-- ===== src/AtomicDict/Reservation.antt =====
-- Reservation of entries for new keys (src/cereggii/atomic_dict/pages.c). Without other threads the
-- swaps succeed and a page is reserved from, or allocated, in the first round; allocations succeed.
pub mod Invariant
pub mod Group
pub mod Grant
pub mod Page
pub mod Correct
mod Asserts
use cereggii.Common.{
  ℕ, zero, suc, ◌+◌, ◌-◌, ◌*◌, ◌/◌, ◌%◌, ◌^◌, bit_and, Option, none, some, if◌then◌else◌, ◌==◌, ltb,
  leb, update,
}
use cereggii.Common.Int.{ℤ, pos, pos_part}
use cereggii.AtomicDict.Runtime.{Object, Entry, Meta, size_of}
use cereggii.AtomicDict.Pages.{log_entries_in_page, entries_in_page, get_entry_at, set_entry}
use cereggii.AtomicDict.Accessor.{
  ReservationBuffer, Storage, Dictionary, reservation_buffer_put, reservation_buffer_pop,
}

-- `ENTRY_FLAGS_RESERVED`.
abbrev pub entry_flags_reserved : ℕ
entry_flags_reserved = 128

abbrev pub with_flags : ℕ → Entry → Entry
with_flags flags entry = record entry { flags = flags }

-- The group of entries at the hash in a page: `~(size - 1)` on a 64-bit integer.
abbrev pub insert_position : ℕ → ℕ → ℕ
insert_position reservation_buffer_size hash =
    bit_and (bit_and hash (entries_in_page - 1)) (2 ^ 64 - reservation_buffer_size)

-- The first group from `offset` on, in steps of the buffer's size, whose first entry is not
-- reserved. A page has no more groups than entries.
module _ (reservation_buffer_size hash inserting_page : ℕ) (m : Meta) where
  unfoldable pub find_group : ℕ → ℕ → Option ℕ
  find_group zero offset = none
  find_group (suc rounds) offset =
      let rest = find_group rounds (offset + reservation_buffer_size) in
      let location =
        inserting_page * 2 ^ log_entries_in_page
        + (insert_position reservation_buffer_size hash + offset) % entries_in_page in
      if ltb offset entries_in_page
      then if (get_entry_at location m).flags == 0 then some location else rest
      else none

-- The buffer takes the group, and its first entry is the one that is asked for.
abbrev pub put_and_pop : ℕ → Meta → Dictionary → Option ℕ × Dictionary
put_and_pop location m self =
    let rb =
      reservation_buffer_put (self.storage.reservation_buffer) location
        (self.reservation_buffer_size) in
    let (entry, rb') = reservation_buffer_pop rb in
    (
      entry,
      record self { metadata = m; storage = record (self.storage) { reservation_buffer = rb' } },
    )

unfoldable pub reserve_entry_in_inserting_page : ℕ → ℕ → Dictionary → Option ℕ × Dictionary
reserve_entry_in_inserting_page hash inserting_page self =
    let m = self.metadata in
    elim (find_group (self.reservation_buffer_size) hash inserting_page m entries_in_page 0) [
      | none ↦ (none, self)
      | some location ↦
          put_and_pop location
            (set_entry location (with_flags entry_flags_reserved (get_entry_at location m)) m) self
    ]

-- `AtomicDictPage_New`: a page of zeros.
abbrev pub new_page_entry : Entry
new_page_entry = record { flags = 0; hash = 0; key = none; value = none }

abbrev pub page_new : ℕ → Entry
page_new _ = new_page_entry

-- A page that is allocated for an entry, with its first group reserved.
abbrev pub new_page : ℕ → Entry
new_page = update page_new 0 (with_flags entry_flags_reserved new_page_entry)

unfoldable pub handle_page_allocated : (ℕ → Entry) → ℕ → Dictionary → Option ℕ × Dictionary
handle_page_allocated page greatest_allocated_page self =
    let m = self.metadata in
    let allocated = greatest_allocated_page + 1 in
    put_and_pop (allocated * 2 ^ log_entries_in_page)
      (record m { pages = update m.pages allocated page; greatest_allocated_page = pos allocated })
      self

-- No entry where the source asks for a larger table.
unfoldable pub reserve_entry : ℕ → Dictionary → Option ℕ × Dictionary
reserve_entry hash self =
    let greatest_allocated_page = pos_part (self.metadata.greatest_allocated_page) in
    let (entry, self') = reserve_entry_in_inserting_page hash greatest_allocated_page self in
    elim entry [
      | some location ↦ (some location, self')
      | none ↦
          if leb (size_of (self.metadata) / 2 ^ log_entries_in_page) (greatest_allocated_page + 1)
          then (none, self)
          else handle_page_allocated new_page greatest_allocated_page self
    ]

unfoldable pub get_empty_entry : ℕ → Dictionary → Option ℕ × Dictionary
get_empty_entry hash self =
    let (entry, rb) = reservation_buffer_pop (self.storage.reservation_buffer) in
    elim entry [
      | some location ↦ (
        some location,
        record self { storage = record (self.storage) { reservation_buffer = rb } },
      )
      | none ↦ reserve_entry hash self
    ]
