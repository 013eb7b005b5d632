-- ===== src/Tests/Tables.antt =====
-- A local table with one key, and the item methods on a small dictionary.
use cereggii.Common.{ℕ, Option, none, some, true, false, ◌≡◌, ◌⊎◌, refl, inl, arith}
use cereggii.Common.Int.{pos, negsuc, ◌+ℤ◌}
use cereggii.AtomicDict.Runtime.{Object}
use cereggii.AtomicDict.Index.{Holds, IsIndexed}
use cereggii.AtomicDict.Index.Writes.{Changes}
use cereggii.AtomicDict.Accessor.{ReservationBuffer, Dictionary}
use cereggii.AtomicDict.Items.{Reply, Removal, get_item, get_item_or_default_varargs, del_item}
use cereggii.AtomicDict.Items.Correct.{get_item_correct, del_item_correct}
use cereggii.ReduceTable.{ReduceTable, empty_entry, reduce_table_set, reduce_table_get, Values}
use cereggii.ReduceTable.Search.{HasRoom}
use cereggii.ReduceTable.Roundtrip.{get-set}
use cereggii.Tests.Dict.{toy, toy-IsLawful, linked, linked_well}

abbrev buffer : ReservationBuffer
buffer = record { start = 16; size = 4; used = 1 }

abbrev self : Dictionary
self = record {
  metadata = linked;
  storage = record {
    local_len = pos 1;
    local_inserted = pos 1;
    local_tombstones = pos 0;
    reservation_buffer = buffer;
  };
  len_dirty = false;
  len = pos 0;
  reservation_buffer_size = 4;
}

get_item_correct_example :
    ((value p : ℕ) × Holds toy linked 5 value p
      × (get_item toy self 5 ≡ Reply.object value)
      × ((py_none : Object) (default_value : Option Object)
          → get_item_or_default_varargs toy py_none self 5 default_value ≡ Reply.object value))
    ⊎ (((value p : ℕ) → ¬ Holds toy linked 5 value p)
        × (get_item toy self 5 ≡ Reply.key_error)
        × ((py_none : Object)
            → get_item_or_default_varargs toy py_none self 5 none ≡ Reply.object py_none)
        × ((py_none other : Object)
            → get_item_or_default_varargs toy py_none self 5 (some other) ≡ Reply.object other))
get_item_correct_example = get_item_correct toy toy-IsLawful self (linked_well.0) 5 202515 refl

del_item_correct_example :
    (((value p : ℕ) → ¬ Holds toy linked 5 value p) × (del_item toy self 5 ≡ Removal.missing))
    ⊎ ((self' : Dictionary) × (p : ℕ) × (value : ℕ) × Holds toy linked 5 value p
        × (del_item toy self 5 ≡ Removal.removed self')
        × (self'.storage.local_len ≡ pos 1 +ℤ negsuc 0)
        × (self'.storage.local_tombstones ≡ pos 0 +ℤ pos 1)
        × (self'.len_dirty ≡ true)
        × (get_item toy self' 5 ≡ Reply.key_error)
        × IsIndexed toy (self'.metadata)
        × Changes toy linked (self'.metadata) 5 none p)
del_item_correct_example = del_item_correct toy toy-IsLawful self (linked_well.0) 5 202515 refl

-- A table of 128 slots with nothing in it.
abbrev fresh : ReduceTable
fresh = record {
  log_size = 7;
  used = 0;
  index = λ _. empty_entry;
  entries = λ _. record { hash = 0; key = 0; expected = 0; desired = 0 };
}

fresh-HasRoom : HasRoom fresh 300
fresh-HasRoom = record {
  cells = λ ix. inl refl;
  small = omega arith;
  steps = 0;
  steps_lt = omega arith;
  free = refl;
}

get-set_example :
    (table' : ReduceTable) × (reduce_table_set toy fresh 9 300 1 2 ≡ some table')
    × (reduce_table_get toy table' 9 300 ≡ Values.values 1 2)
get-set_example = get-set toy toy-IsLawful 9 300 fresh fresh-HasRoom 1 2 refl
