-- ===== src/AtomicDict/Growth/Correct.antt =====
-- A growth keeps what the dictionary stands for (resize.c).
use cereggii.Common.{ℕ, ◌+◌, ◌%◌, ◌<◌, ◌≡◌, ap, ◌∙◌, true, false, ltb, arith}
use cereggii.Common.Int.{pos}
use native.Mathlib.Nat.{mod-eq_of_lt}
use cereggii.AtomicDict.Runtime.{Runtime, IsLawful, Meta, size_of}
use cereggii.AtomicDict.Node.{is_empty}
use cereggii.AtomicDict.Index.{node_at}
use cereggii.AtomicDict.Accessor.{Dictionary}
use cereggii.AtomicDict.Resize.Correct.{HasRoom, IsMoved, SameHeld}
use cereggii.AtomicDict.Resize.Alone.{migrate_nodes-Moves}
use cereggii.AtomicDict.Sequence.{Map}
use cereggii.AtomicDict.Sequence.Related.{Represents, IsRelated}
use cereggii.AtomicDict.Growth.{Memory, Growth, leader_resize, rounds_for, meta_copy_pages}
use cereggii.AtomicDict.Growth.Table.{target, target-IsMigration, grown-IsSound}

-- A dictionary that can grow: a page is allocated, and a slot is empty.
pub record CanGrow (self : Dictionary) : Type 0 where
  pub page : ℕ
  pub paged : self.metadata.greatest_allocated_page ≡ pos page
  pub free : ℕ
  pub within : free < size_of (self.metadata)
  pub is_free : is_empty (node_at (self.metadata) free) ≡ true

-- The dictionary after a growth: twice as large over the same pages, with two empty slots, and
-- standing for the same map.
pub record Grown (py : Runtime) (self self' : Dictionary) (map : Map) : Type 0 where
  pub related : IsRelated py self' map
  pub room : HasRoom (self'.metadata)
  pub larger : self'.metadata.log_size ≡ self.metadata.log_size + 1
  pub same_pages : self'.metadata.greatest_allocated_page ≡ self.metadata.greatest_allocated_page

abbrev pub Grows : Runtime → Dictionary → Map → Growth → Type 0
Grows py self map Growth.failed = ⊥
Grows py self map Growth.endless = ⊥
Grows py self map (Growth.grown self') = Grown py self self' map

module _ (py : Runtime) (lawful : IsLawful py) (memory : Memory) (self : Dictionary) (map : Map)
    (rel : IsRelated py self map) (can : CanGrow self) (small : self.metadata.log_size < 30) where
  abbrev m : Meta
  m = self.metadata

  abbrev new_meta : Meta
  new_meta = target py memory self rel.sound small can.page can.paged

  Represents-moved :
      (new : Meta)
      → SameHeld py m new
      → Represents py m map.value_at
      → Represents py new map.value_at
  Represents-moved new same r = record {
    held = λ key value is. (same key value).0 (r.held key value is);
    known = λ key value p h. let (q, h') = (same key value).1 (p, h) in r.known key value q h';
  }

  moved-Grows :
      (new : Meta) (count : ℕ)
      → IsMoved py m new_meta new
      → Grown py self
          (record self {
            metadata = new;
            storage = record (self.storage) { local_inserted = pos count };
          })
          map
  unfolding meta_copy_pages
  moved-Grows new count moved = record {
    related = record {
      sound = grown-IsSound py memory self rel.sound small can.page can.paged new moved (pos count);
      contents = Represents-moved new moved.same rel.contents;
      size = rel.size;
      settled = rel.settled;
    };
    room = moved.room;
    larger = ap (λ x. x.log_size) moved.shape;
    same_pages = ap (λ x. x.greatest_allocated_page) moved.shape;
  }

  -- For a dictionary that stands for a map, with an allocated page, an empty slot and a size below
  -- 2 ^ 30, where no comparison raises, and whatever the memory of the new index holds: a growth by one
  -- thread ends and succeeds. The dictionary is then twice as large over the same pages, has two
  -- empty slots, and stands for the same map.
  pub leader_resize-Grows : Grows py self map (leader_resize py memory self)
  unfolding leader_resize
  leader_resize-Grows =
      let free : is_empty (node_at m (can.free % size_of m)) ≡ true =
        ap (λ q. is_empty (node_at m q)) (mod-eq_of_lt can.within) ∙ can.is_free in
      let (n, new, count, ends, moved) =
        migrate_nodes-Moves py m new_meta can.free (rounds_for m) lawful
          (target-IsMigration py memory self rel.sound small can.page can.paged) can.within free
          (omega arith) in
      let test : ltb 56 (m.log_size + 1) ≡ false = ground arith in
      rw (test, ends) (moved-Grows new count moved)
