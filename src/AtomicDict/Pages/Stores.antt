-- ===== src/AtomicDict/Pages/Stores.antt =====
-- A store into one entry is read back there, and leaves every other entry alone (pages.c).
use cereggii.Common.{ℕ, ◌==◌, if◌then◌else◌, Option, some, ◌≡◌, arith}
use cereggii.Common.Bits.{and_mask}
use cereggii.AtomicDict.Runtime.{Object, Entry, Meta}
use cereggii.AtomicDict.Pages.{
  page_of, position_in_page_of, get_entry_at, set_value, set_entry, fill_entry,
}

-- A page and a position name one entry.
page-position_injective :
    (i j : ℕ) → page_of i ≡ page_of j → position_in_page_of i ≡ position_in_page_of j → i ≡ j
unfolding page_of position_in_page_of
page-position_injective i j p q = omega (arith, and_mask 7 i, and_mask 7 j)

pub get_entry_at-set_entry :
    (i j : ℕ) (entry : Entry) (m : Meta)
    → get_entry_at j (set_entry i entry m) ≡ (if i == j then entry else get_entry_at j m)
unfolding set_entry get_entry_at
get_entry_at-set_entry i j entry m = ground (arith, page-position_injective i j)

-- A store of a value changes the value of its own entry and nothing else, whatever page and position
-- the two entries have.
pub get_entry_at-set_value :
    (i j : ℕ) (value : Option Object) (m : Meta)
    → get_entry_at j (set_value i value m)
      ≡ (if i == j then record (get_entry_at i m) { value = value } else get_entry_at j m)
unfolding set_value get_entry_at
get_entry_at-set_value i j value m = ground (arith, page-position_injective i j)

pub get_entry_at-fill_entry :
    (i j : ℕ) (key : Object) (hash : ℕ) (value : Object) (m : Meta)
    → get_entry_at j (fill_entry i key hash value m) ≡ (
        if i == j
        then record (get_entry_at i m) { key = some key; hash = hash; value = some value }
        else get_entry_at j m)
unfolding fill_entry get_entry_at
get_entry_at-fill_entry i j key hash value m = ground (arith, page-position_injective i j)
