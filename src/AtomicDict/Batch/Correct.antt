-- ===== src/AtomicDict/Batch/Correct.antt =====
-- A batch is answered like the single items, whatever the size of the chunks (src/cereggii/atomic_dict/lookup.c).
use cereggii.Common.{Option, some, none, List, [], ◌∷◌}
use cereggii.AtomicDict.Runtime.{Object, Runtime}
use cereggii.AtomicDict.Sequence.{Map}
use cereggii.AtomicDict.Batch.{Item, Stores, Batch}

abbrev pub item_of : Option Object → Item
item_of none = Item.not_found
item_of (some value) = Item.value value

-- Each key with what the map has under it.
unfoldable pub items : Map → List Object → Stores
items map [] = []
items map (key ∷ rest) = (key, item_of (map.value_at key)) ∷ items map rest
