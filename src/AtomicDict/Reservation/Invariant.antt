-- ===== src/AtomicDict/Reservation/Invariant.antt =====
-- Which entries are still to be handed out, and the invariant of an allocation
-- (src/cereggii/atomic_dict/pages.c).
use cereggii.Common.{ℕ, ◌+◌, ◌*◌, ◌/◌, ◌^◌, ◌≤◌, ◌<◌, none, ◌≡◌, ◌≢◌, ◌⊎◌}
use cereggii.Common.Int.{pos_part}
use cereggii.AtomicDict.Runtime.{Runtime, Entry, Meta, size_of}
use cereggii.AtomicDict.Pages.{page_of, get_entry_at}
use cereggii.AtomicDict.Index.{node_at, IsLive, IsIndexed}
use cereggii.AtomicDict.Reservation.{entry_flags_reserved}
use cereggii.AtomicDict.Accessor.{ReservationBuffer, Dictionary}

-- The first entry of the group of an entry.
abbrev pub leader : ℕ → ℕ → ℕ
leader reservation_buffer_size location =
    location / reservation_buffer_size * reservation_buffer_size

-- In an allocated page, in a group that is not reserved.
abbrev pub IsFree : Meta → ℕ → ℕ → Type 0
IsFree m reservation_buffer_size location =
    (page_of location ≤ pos_part m.greatest_allocated_page)
    × ((get_entry_at (leader reservation_buffer_size location) m).flags ≡ 0)

-- In the buffer, and not taken from it.
abbrev pub IsBuffered : ReservationBuffer → ℕ → Type 0
IsBuffered rb location = (rb.start + rb.used ≤ location) × (location < rb.start + rb.size)

-- In a page that is not allocated.
abbrev pub IsBeyond : Meta → ℕ → Type 0
IsBeyond m location = pos_part m.greatest_allocated_page < page_of location

abbrev pub IsAvailable : Dictionary → ℕ → Type 0
IsAvailable self location =
    IsFree (self.metadata) (self.reservation_buffer_size) location
    ⊎ (IsBuffered (self.storage.reservation_buffer) location ⊎ IsBeyond (self.metadata) location)

abbrev pub IsBlank : Entry → Type 0
IsBlank entry = (entry.key ≡ none) × (entry.hash ≡ 0) × (entry.value ≡ none)

-- Groups are aligned in pages, the pages fit the index, entry 0 is taken, no live slot points to an
-- entry that is still to be handed out, those in allocated pages are blank, and what is in the buffer
-- is reserved.
pub record IsAllocated (self : Dictionary) : Type 0 where
  pub aligned : ((k : ℕ) × (k ≤ 6) × (self.reservation_buffer_size ≡ 2 ^ k))
  pub room : (pos_part (self.metadata.greatest_allocated_page) + 1) * 128 ≤ size_of (self.metadata)
  pub nonzero : IsAvailable self 0 → ⊥
  pub unpointed :
      (location : ℕ)
      → IsAvailable self location
      → (q : ℕ) → IsLive (self.metadata) q
      → (node_at (self.metadata) q).index ≢ location
  pub blank :
      (location : ℕ)
      → IsAvailable self location
      → page_of location ≤ pos_part (self.metadata.greatest_allocated_page)
      → IsBlank (get_entry_at location (self.metadata))
  pub taken : self.storage.reservation_buffer.used ≤ self.storage.reservation_buffer.size
  pub claimed :
      (location : ℕ)
      → IsBuffered (self.storage.reservation_buffer) location
      → (page_of location ≤ pos_part (self.metadata.greatest_allocated_page))
        × ((get_entry_at (leader (self.reservation_buffer_size) location) (self.metadata)).flags
            ≡ entry_flags_reserved)

-- What a dictionary keeps between the calls of its one accessor.
pub record IsSound (py : Runtime) (self : Dictionary) : Type 0 where
  pub indexed : IsIndexed py (self.metadata)
  pub allocated : IsAllocated self
