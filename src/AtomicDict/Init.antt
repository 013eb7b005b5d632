-- ===== src/AtomicDict/Init.antt =====
-- Construction of a dictionary (src/cereggii/atomic_dict/atomic_dict.c, meta.c). The arguments were
-- parsed to integers, `initial` is absent, allocations succeed, and this is the one thread that
-- initialises.
pub mod Sizes
pub mod Empty
pub mod Correct
use cereggii.Common.{
  ℕ, zero, suc, ◌+◌, ◌-◌, ◌*◌, ◌/◌, ◌%◌, ◌^◌, bit_or, Option, none, some, Bool, false, ◌||◌,
  if◌then◌else◌, ◌==◌, ltb, update,
}
use cereggii.Common.Int.{ℤ, pos, negsuc, ltb_ℤ, ◌==ℤ◌, pos_part}
use cereggii.AtomicDict.Runtime.{Entry, Meta}
use cereggii.AtomicDict.Pages.{entries_in_page, get_entry_at, set_entry}
use cereggii.AtomicDict.Accessor.{
  ReservationBuffer, Storage, Dictionary, put_asserts, reservation_buffer_put,
}
use cereggii.AtomicDict.Reservation.{entry_flags_reserved, with_flags, page_new}

-- `ATOMIC_DICT_MAX_LOG_SIZE`.
abbrev pub max_log_size : ℕ
max_log_size = 56

-- `while (size >>= 1) log_size++`. A 64-bit size is 0 after 64 rounds.
unfoldable pub halvings : ℕ → ℕ → ℕ → ℕ
halvings zero size log_size = log_size
halvings (suc rounds) size log_size =
    let rest = halvings rounds (size / 2) (log_size + 1) in if size / 2 == 0 then log_size else rest

unfoldable pub log_size_for : ℕ → ℕ
log_size_for size =
    let log_size = halvings 64 size 0 in if ltb (2 ^ log_size) size then log_size + 1 else log_size

-- The ValueErrors, by their messages.
pub data ArgumentError : Type 0 where
  min_size_negative min_size_large buffer_size_unknown : ArgumentError

abbrev pub is_buffer_size : ℤ → Bool
is_buffer_size size =
    (size ==ℤ pos 1)
    || (size ==ℤ pos 2)
    || (size ==ℤ pos 4)
    || (size ==ℤ pos 8)
    || (size ==ℤ pos 16)
    || (size ==ℤ pos 32)
    || (size ==ℤ pos 64)

unfoldable pub check_arguments : ℤ → ℤ → Option ArgumentError
check_arguments min_size buffer_size =
    if ltb_ℤ min_size (pos 0)
    then some ArgumentError.min_size_negative
    else if ltb_ℤ (pos (2 ^ max_log_size)) min_size
    then some ArgumentError.min_size_large
    else if is_buffer_size buffer_size
    then none
    else some ArgumentError.buffer_size_unknown

abbrev pub at_least_one_page : ℕ → ℕ
at_least_one_page min_size = if ltb min_size entries_in_page then entries_in_page else min_size

-- A new index is cleared, and no page is allocated: what an unallocated page holds is not read.
abbrev pub meta_new : ℕ → Meta
meta_new log_size = record {
  log_size = log_size;
  index = λ _. 0;
  pages = λ _. page_new;
  greatest_allocated_page = negsuc 0;
}

unfoldable pub allocate_pages : ℕ → ℕ → Meta → Meta
allocate_pages zero i m = m
allocate_pages (suc more) i m =
    allocate_pages more (i + 1)
      (record m { pages = update m.pages i page_new; greatest_allocated_page = pos i })

-- The pages for so many entries: one for each full page, and one for a rest.
abbrev pub pages_for : ℕ → ℕ
pages_for init_dict_size =
    init_dict_size / entries_in_page + (if init_dict_size % entries_in_page == 0 then 0 else 1)

-- Entry 0 is reserved, since tombstones point to it, and the rest of its group is for this thread.
unfoldable pub init_empty : ℕ → ℕ → Dictionary
init_empty log_size buffer_size =
    let m = allocate_pages (pages_for 1) 0 (meta_new log_size) in
    let entry = get_entry_at 0 m in
    let rb : ReservationBuffer = record { start = 0; size = 0; used = 0 } in
    record {
      metadata = set_entry 0 (with_flags (bit_or entry.flags entry_flags_reserved) entry) m;
      storage = record {
        local_len = pos 0;
        local_inserted = pos 0;
        local_tombstones = pos 0;
        reservation_buffer = reservation_buffer_put rb 1 (buffer_size - 1);
      };
      len_dirty = false;
      len = pos 0;
      reservation_buffer_size = buffer_size;
    }

-- The outcome of `AtomicDict(min_size=..., buffer_size=...)`. Where an assertion fails, a build with assertions
-- stops, and a build without them is not modelled.
pub data Initialised : Type 0 where
  value_error : ArgumentError → Initialised
  assertion_failed : Initialised
  dictionary : Dictionary → Initialised

unfoldable pub init : ℤ → ℤ → Initialised
init min_size buffer_size = elim (check_arguments min_size buffer_size) [
  | some error ↦ Initialised.value_error error
  | none ↦
      if put_asserts (record { start = 0; size = 0; used = 0 }) (pos_part buffer_size - 1)
      then Initialised.dictionary
          (init_empty (log_size_for (at_least_one_page (pos_part min_size))) (pos_part buffer_size))
      else Initialised.assertion_failed
]
