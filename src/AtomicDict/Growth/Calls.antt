-- ===== src/AtomicDict/Growth/Calls.antt =====
-- A store that may grow the table answers as a map does (insert.c, resize.c).
use cereggii.Common.{ℕ, suc, ◌+◌, ◌*◌, ◌<◌, ◌≡◌, ap, ◌∙◌, true, false, arith, some}
use cereggii.Common.Int.{pos_part}
use cereggii.AtomicDict.Runtime.{Runtime, IsLawful, size_of}
use cereggii.AtomicDict.Accessor.{Dictionary}
use cereggii.AtomicDict.Insert.{Expected}
use cereggii.AtomicDict.CompareAndSet.{Setting, set_expected}
use cereggii.AtomicDict.CompareAndSet.Contract.{Compares}
use cereggii.AtomicDict.CompareAndSet.Correct.{set_expected-Compares}
use cereggii.AtomicDict.Resize.Target.{double}
use cereggii.AtomicDict.Resize.Correct.{HasRoom}
use cereggii.AtomicDict.Sequence.{Answer, Map, compared, setting_answer}
use cereggii.AtomicDict.Sequence.Related.{IsRelated}
use cereggii.AtomicDict.Sequence.Expectations.{Follows}
use cereggii.AtomicDict.Sequence.Correct.{setting_Follows}
use cereggii.AtomicDict.Growth.{
  Memory, Growth, Outcome, inserted_outcome, after_growth, finish, leader_resize, set_growing,
}
use cereggii.AtomicDict.Growth.Correct.{CanGrow, Grown, Grows, leader_resize-Grows}
use cereggii.AtomicDict.Growth.Room.{IsPaged, Tracked, set_expected-Tracked}

-- The answer of a map to a call, and a dictionary that stands for the map after it.
abbrev pub Answers : Runtime → Answer × Map → Outcome → Type 0
Answers py (answer, map) Outcome.value_error = ⊥
Answers py (answer, map) Outcome.resize_failed = ⊥
Answers py (answer, map) Outcome.endless = ⊥
Answers py (answer, map) Outcome.contended = ⊥
Answers py (answer, map) (Outcome.raised self) = ⊥
Answers py (answer, map) (Outcome.expectation_failed self) =
    (Answer.expectation_failed ≡ answer) × IsRelated py self map
Answers py (answer, map) (Outcome.not_found self) =
    (Answer.not_found ≡ answer) × IsRelated py self map
Answers py (answer, map) (Outcome.current old self) =
    (Answer.object old ≡ answer) × IsRelated py self map

module _ (py : Runtime) (lawful : IsLawful py) (memory : Memory) (key hash : ℕ)
    (hashed : py.hash_of key ≡ some hash) (desired : ℕ) (expected : Expected) (map : Map) where
  abbrev outcome : Answer × Map
  outcome = compared py key expected desired map (map.value_at key)

  -- After the growth that follows an insertion.
  inserted-Answers :
      (self : Dictionary) (after : Answer × Map) (growth : Growth)
      → (Answer.not_found ≡ after.0)
      → Grows py self (after.1) growth
      → Answers py after (inserted_outcome growth)
  inserted-Answers self after Growth.failed is grows = absurd grows
  inserted-Answers self after Growth.endless is grows = absurd grows
  inserted-Answers self after (Growth.grown self') is grows = (is, grows.related)

  module _ (again : Dictionary → Outcome) (self : Dictionary) (rel : IsRelated py self map)
      (small : self.metadata.log_size < 30) (room : HasRoom self.metadata) (paged : IsPaged self)
      (next : (size_of self.metadata < (pos_part self.metadata.greatest_allocated_page + 2) * 128)
        → (self' : Dictionary) → Grown py self self' map
        → Answers py outcome (again self')) where
    after_growth-Answers :
        (growth : Growth)
        → size_of self.metadata < (pos_part self.metadata.greatest_allocated_page + 2) * 128
        → Grows py self map growth
        → Answers py outcome (after_growth py memory key hash desired expected again growth)
    unfolding after_growth
    after_growth-Answers Growth.failed beyond grows = absurd grows
    after_growth-Answers Growth.endless beyond grows = absurd grows
    after_growth-Answers (Growth.grown self') beyond grows = next beyond self' grows

    can_grow : CanGrow self
    can_grow = record {
      page = paged.0;
      paged = paged.1;
      free = room.one;
      within = room.one_within;
      is_free = room.one_free;
    }

    finish-Answers :
        (s : Setting)
        → Tracked self s
        → Compares py self key expected desired s
        → Follows py map outcome (setting_answer self s)
        → Answers py outcome (finish py memory key hash desired expected again s)
    unfolding finish
    finish-Answers Setting.value_error t c f = absurd c
    finish-Answers (Setting.raised self') t c f = absurd c
    finish-Answers (Setting.contended self') t c f = absurd c
    finish-Answers (Setting.must_grow self') (same, beyond) c f = rw same (
        after_growth-Answers (leader_resize py memory self) beyond
          (leader_resize-Grows py lawful memory self map rel can_grow small))
    finish-Answers (Setting.expectation_failed self') t c f = f
    finish-Answers (Setting.not_found false self') t c f = f
    finish-Answers (Setting.not_found true self') (can, same_size) c (is, after) =
        inserted-Answers self' outcome (leader_resize py memory self') is
          (leader_resize-Grows py lawful memory self' (outcome.1) after can (rw same_size small))
    finish-Answers (Setting.current old self') t c f = f

    settled-Answers : Answers py outcome (
        finish py memory key hash desired expected again
          (set_expected py self key hash desired expected))
    settled-Answers =
        let c = set_expected-Compares py lawful self rel.sound key hash hashed desired expected in
        finish-Answers (set_expected py self key hash desired expected)
          (set_expected-Tracked py lawful self rel.sound key hash hashed desired room paged
            expected)
          c (setting_Follows py lawful 0 self map rel key expected desired _ c)

  -- After a growth no page is refused, since the table is twice as large.
  again-Answers :
      (self self' : Dictionary) (paged : IsPaged self)
      → IsRelated py self map
      → Grown py self self' map
      → self.metadata.log_size < 29
      → (rounds : ℕ)
      → Answers py outcome (set_growing py memory key hash desired expected (suc rounds) self')
  unfolding set_growing
  again-Answers self self' paged rel grown small rounds =
      settled-Answers _ self' grown.related (rw (grown.larger) (omega arith)) grown.room
        (paged.0, grown.same_pages ∙ paged.1)
        (λ beyond. absurd (
          omega (
            arith,
            beyond,
            rel.sound.allocated.room,
            ap pos_part grown.same_pages,
            double (self.metadata) (self'.metadata) grown.larger,
          )))

  -- For a dictionary that stands for a map, with an allocated page, two empty slots and fewer than
  -- 2 ^ 29 slots, where no comparison raises, for a key that can be hashed, and whatever the memory of
  -- a new index holds: a compare-and-set that grows the table where it must ends after at most one
  -- growth before the insertion and one after it. It gives the answer of the map, and the dictionary then stands for the
  -- map after the call.
  pub set_growing-Answers :
      (self : Dictionary)
      → IsRelated py self map
      → IsPaged self
      → HasRoom self.metadata
      → self.metadata.log_size < 29
      → (rounds : ℕ)
      → Answers py
          (compared py key expected desired map (map.value_at key))
          (set_growing py memory key hash desired expected (suc (suc rounds)) self)
  unfolding set_growing
  set_growing-Answers self rel paged room small rounds =
      settled-Answers _ self rel (omega arith) room paged
        (λ beyond self' grown. again-Answers self self' paged rel grown small rounds)
