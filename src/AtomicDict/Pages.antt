-- ===== src/AtomicDict/Pages.antt =====
-- Entries and their pages: src/cereggii/atomic_dict/pages.c.
pub mod Stores
use cereggii.Common.{ℕ, ◌-◌, ◌/◌, ◌^◌, Option, none, some, bit_and, update}
use cereggii.AtomicDict.Runtime.{Object, Entry, Meta}

-- `ATOMIC_DICT_LOG_ENTRIES_IN_PAGE` and `ATOMIC_DICT_ENTRIES_IN_PAGE`.
abbrev pub log_entries_in_page : ℕ
log_entries_in_page = 7

abbrev pub entries_in_page : ℕ
entries_in_page = 2 ^ log_entries_in_page

unfoldable pub page_of : ℕ → ℕ
page_of entry_ix = entry_ix / 2 ^ log_entries_in_page

unfoldable pub position_in_page_of : ℕ → ℕ
position_in_page_of entry_ix = bit_and entry_ix (entries_in_page - 1)

unfoldable pub get_entry_at : ℕ → Meta → Entry
get_entry_at ix m = m.pages (page_of ix) (position_in_page_of ix)

-- A reader's copy of an entry. Without a value the key reads as NULL and the hash as -1.
unfoldable pub read_entry : Entry → Entry
read_entry e = elim e.value [
  | none ↦ record e { hash = 2 ^ 64 - 1; key = none; value = none }
  | some _ ↦ e
]

-- Stores into an entry.
unfoldable pub set_entry : ℕ → Entry → Meta → Meta
set_entry ix entry m =
    let page = m.pages (page_of ix) in
    record m { pages = update m.pages (page_of ix) (update page (position_in_page_of ix) entry) }

-- A store into the `value` field of an entry.
unfoldable pub set_value : ℕ → Option Object → Meta → Meta
set_value ix value m =
    let page = m.pages (page_of ix) in
    let entry = record (get_entry_at ix m) { value = value } in
    record m { pages = update m.pages (page_of ix) (update page (position_in_page_of ix) entry) }

-- The stores of a key, its hash and its value into a reserved entry.
unfoldable pub fill_entry : ℕ → Object → ℕ → Object → Meta → Meta
fill_entry ix key hash value m =
    let page = m.pages (page_of ix) in
    let entry = record (get_entry_at ix m) { key = some key; hash = hash; value = some value } in
    record m { pages = update m.pages (page_of ix) (update page (position_in_page_of ix) entry) }
