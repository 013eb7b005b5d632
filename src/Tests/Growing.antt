-- ===== src/Tests/Growing.antt =====
-- The new dictionary of 256 slots grows, into memory that was not cleared; and an insertion grows one of
-- 128 slots whose entries are all given away.
use cereggii.Common.{ℕ, ◌<◌, ◌≡◌, none, refl, inl, inr, arith, false}
use cereggii.Common.Int.{pos}
use cereggii.AtomicDict.Node.{parse_node_from_raw}
use cereggii.AtomicDict.Pages.{set_entry, get_entry_at, page_of, position_in_page_of}
use cereggii.AtomicDict.Index.{IsLive}
use cereggii.AtomicDict.Accessor.{Dictionary, reservation_buffer_pop}
use cereggii.AtomicDict.Reservation.{
  find_group, reserve_entry_in_inserting_page, reserve_entry, get_empty_entry,
}
use cereggii.AtomicDict.Insert.{Expected}
use cereggii.AtomicDict.CompareAndSet.{Setting, set_expected, set_reserved}
use cereggii.AtomicDict.Length.Sums.{+ℤ_zero}
use cereggii.AtomicDict.Sequence.{compared}
use cereggii.AtomicDict.Sequence.Related.{IsRelated}
use cereggii.AtomicDict.Resize.Correct.{HasRoom}
use cereggii.AtomicDict.Growth.Calls.{Answers, set_growing-Answers}
use cereggii.AtomicDict.Init.{init_empty, allocate_pages}
use cereggii.AtomicDict.Sequence.Runs.{empty_map, init_empty-IsRelated}
use cereggii.AtomicDict.Growth.{Memory, leader_resize, set_growing}
use cereggii.AtomicDict.Growth.Correct.{CanGrow, Grows, leader_resize-Grows}
use cereggii.Tests.Dict.{toy, toy-IsLawful}
use cereggii.Tests.Construction.{created}

abbrev uncleared : Memory
uncleared = record {
  words = λ _. 77;
  page_at = λ _ _. record { flags = 3; hash = 4; key = none; value = none };
}

can_grow : CanGrow created
unfolding init_empty allocate_pages set_entry parse_node_from_raw
can_grow = record { page = 0; paged = refl; free = 0; within = omega arith; is_free = refl }

small : created.metadata.log_size < 30
unfolding init_empty allocate_pages set_entry
small = omega arith

leader_resize-Grows_example : Grows toy created empty_map (leader_resize toy uncleared created)
leader_resize-Grows_example =
    leader_resize-Grows toy toy-IsLawful uncleared created empty_map
      (init_empty-IsRelated toy 8 (omega arith) (omega arith) 2 (omega arith)) can_grow small

-- Every group is reserved, and the buffer is used up.
abbrev used_up : Dictionary
used_up = record {
  metadata = record {
    log_size = 7;
    index = λ _. 0;
    pages = λ _ _. record { flags = 128; hash = 0; key = none; value = none };
    greatest_allocated_page = pos 0;
  };
  storage = record {
    local_len = pos 0;
    local_inserted = pos 0;
    local_tombstones = pos 0;
    reservation_buffer = record { start = 124; size = 4; used = 4 };
  };
  len_dirty = false;
  len = pos 0;
  reservation_buffer_size = 4;
}

no_live : (q : ℕ) → IsLive (used_up.metadata) q → ⊥
unfolding parse_node_from_raw
no_live q live = cc live.filled

used_up-IsRelated : IsRelated toy used_up empty_map
unfolding page_of get_entry_at
used_up-IsRelated = record {
  sound = record {
    indexed = record {
      small = omega arith;
      words = λ p lt. omega arith;
      placed = λ p live. absurd (no_live p live);
      unique = λ a b key v v' h h'. absurd (no_live a h.live);
    };
    allocated = record {
      aligned = (2, omega arith, refl);
      room = omega arith;
      nonzero = λ available. elim available [
        | inl (page, flags) ↦ omega (arith, flags)
        | inr (inl (low, high)) ↦ omega (arith, low)
        | inr (inr beyond) ↦ omega (arith, beyond)
      ];
      unpointed = λ l available q live e. no_live q live;
      blank = λ l available page. (refl, refl, refl);
      taken = omega arith;
      claimed = λ l b. absurd (omega (arith, b.0, b.1));
    };
  };
  contents = record {
    held = λ key value is. absurd (cc is);
    known = λ key value p h. absurd (no_live p h.live);
  };
  size = +ℤ_zero (pos 0);
  settled = λ _. refl;
}

used_up-HasRoom : HasRoom (used_up.metadata)
unfolding parse_node_from_raw
used_up-HasRoom = record {
  one = 0;
  other = 1;
  one_within = omega arith;
  other_within = omega arith;
  apart_from = omega arith;
  one_free = refl;
  other_free = refl;
}

set_growing-Answers_example :
    Answers toy
      (compared toy 5 Expected.not_found 50 empty_map none)
      (set_growing toy uncleared 5 202515 50 Expected.not_found 2 used_up)
set_growing-Answers_example =
    set_growing-Answers toy toy-IsLawful uncleared 5 202515 refl 50 Expected.not_found empty_map
      used_up used_up-IsRelated (0, refl) used_up-HasRoom (omega arith) 0

-- The first attempt of that insertion asks for a larger table.
refused : set_expected toy used_up 5 202515 50 Expected.not_found ≡ Setting.must_grow used_up
unfolding set_expected set_reserved get_empty_entry reservation_buffer_pop reserve_entry
    reserve_entry_in_inserting_page find_group get_entry_at page_of position_in_page_of
refused = refl
