-- ===== src/AtomicDict/Growth/Room.antt =====
-- When a store asks for a larger table, and that it finds what it needs there (insert.c, pages.c).
use cereggii.Common.{
  ℕ, ◌+◌, ◌-◌, ◌*◌, ◌/◌, ◌%◌, ◌^◌, ◌≤◌, ◌<◌, ◌≡◌, inl, inr, refl, sym, ap, ◌∙◌, true, false, leb,
  arith, Option, some, none, Option-cases, Bool-cases, ◌==◌,
}
use cereggii.Common.Int.{pos, pos_part}
use mathlib.Core.Path.{subst}
use native.Mathlib.Nat.{add-mod-mod, add-mod_right, mod-eq_of_lt, mod-lt}
use native.Mathlib.Decide.{ℕ_discrete}
use cereggii.AtomicDict.Runtime.{Object, Runtime, IsLawful, Meta, size_of}
use cereggii.AtomicDict.Node.{
  is_empty, distance0_of, parse_node_from_raw, write_raw_node_at, compute_raw_node,
}
use cereggii.AtomicDict.Node.Hashing.{distance0_of-lt}
use cereggii.AtomicDict.Pages.{fill_entry, set_entry, log_entries_in_page}
use cereggii.AtomicDict.Index.{node_at}
use cereggii.AtomicDict.Accessor.{
  Dictionary, accessor_len_inc, accessor_inserted_inc, reservation_buffer_pop,
}
use cereggii.AtomicDict.Reservation.{
  get_empty_entry, reserve_entry, reserve_entry_in_inserting_page, handle_page_allocated,
  find_group,
}
use cereggii.AtomicDict.Insert.{Expected, Insertion}
use cereggii.AtomicDict.Insert.NewNode.{new_node}
use cereggii.AtomicDict.Insert.Rounds.{Contract}
use cereggii.AtomicDict.CompareAndSet.{
  Setting, count_insert, settle_insertion, settle_granted, set_reserved, set_expected,
}
use cereggii.AtomicDict.CompareAndSet.Reserve.{Grants-IsHeld, fill-IsHeld, fill-IsReserved}
use cereggii.AtomicDict.Reservation.Invariant.{IsSound}
use cereggii.AtomicDict.Reservation.Grant.{Granted}
use cereggii.AtomicDict.Reservation.Correct.{get_empty_entry-Granted}
use cereggii.AtomicDict.Insert.Correct.{expected_insert_or_update-Contract}
use cereggii.AtomicDict.CompareAndSet.Shape.{Shape, expected_insert_or_update-Shape}
use cereggii.AtomicDict.Resize.Correct.{HasRoom}
use cereggii.AtomicDict.Growth.Correct.{CanGrow}

abbrev pub IsPaged : Dictionary → Type 0
IsPaged self = (page : ℕ) × (self.metadata.greatest_allocated_page ≡ pos page)

-- A request for an entry leaves a page allocated.
module _ (hash : ℕ) (self : Dictionary) (paged : IsPaged self) where
  in_page-IsPaged : (page : ℕ) → IsPaged ((reserve_entry_in_inserting_page hash page self).1)
  unfolding reserve_entry_in_inserting_page set_entry
  in_page-IsPaged page =
      elim (Option-cases (find_group self.reservation_buffer_size hash page self.metadata 128 0)) [
        | inl full ↦ rw (full, reserve_entry_in_inserting_page) paged
        | inr (location, found) ↦ rw (found, reserve_entry_in_inserting_page) paged
      ]

  reserve_entry-IsPaged : IsPaged ((reserve_entry hash self).1)
  unfolding reserve_entry handle_page_allocated
  reserve_entry-IsPaged =
      let gap = pos_part self.metadata.greatest_allocated_page in
      let before = in_page-IsPaged gap in
      elim (Option-cases ((reserve_entry_in_inserting_page hash gap self).0)) [
        | inl full ↦
            elim (Bool-cases (leb (size_of self.metadata / 2 ^ log_entries_in_page) (gap + 1))) [
              | inl last ↦ rw (full, last, reserve_entry) paged
              | inr more ↦ rw (full, more, reserve_entry) (gap + 1, refl)
            ]
        | inr (location, found) ↦ rw (found, reserve_entry) before
      ]

  pub get_empty_entry-IsPaged : IsPaged ((get_empty_entry hash self).1)
  unfolding get_empty_entry
  get_empty_entry-IsPaged =
      elim (Option-cases ((reservation_buffer_pop self.storage.reservation_buffer).0)) [
        | inl used_up ↦ rw (used_up, get_empty_entry) reserve_entry-IsPaged
        | inr (location, popped) ↦ rw (popped, get_empty_entry) paged
      ]

-- Every slot is on the way from the first one of a hash.
pub all_used :
    (py : Runtime) (m : Meta) (hash x : ℕ)
    → m.log_size ≤ 64
    → ((j : ℕ)
        → j < size_of m
        → is_empty (node_at m ((distance0_of py hash m + j) % size_of m)) ≡ false)
    → x < size_of m
    → is_empty (node_at m x) ≡ false
all_used py m hash x small used lt =
    let n = size_of m in
    let d0 = distance0_of py hash m in
    let first = distance0_of-lt py hash m small in
    let j = (x + (n - d0)) % n in
    let here : (d0 + j) % n ≡ x =
      add-mod-mod d0 (x + (n - d0)) n
      ∙ ap (λ (t : ℕ). t % n) {x = d0 + (x + (n - d0))} {y = x + n} (omega arith)
      ∙ add-mod_right x n
      ∙ mod-eq_of_lt lt in
    subst (λ y. is_empty (node_at m y) ≡ false) here (used j (mod-lt _ (omega arith)))

-- What a store does to the room of the table: it asks for a larger one only if no page fits, with
-- nothing changed, and an insertion leaves a slot empty.
abbrev pub Tracked : Dictionary → Setting → Type 0
Tracked self (Setting.must_grow self') =
    (self' ≡ self)
    × (size_of self.metadata < (pos_part self.metadata.greatest_allocated_page + 2) * 128)
Tracked self (Setting.not_found grows self') =
    CanGrow self' × (self'.metadata.log_size ≡ self.metadata.log_size)
Tracked self (Setting.raised self') = Unit
Tracked self Setting.value_error = Unit
Tracked self (Setting.contended self') = Unit
Tracked self (Setting.expectation_failed self') = Unit
Tracked self (Setting.current old self') = Unit

module _ (py : Runtime) (key hash desired : ℕ) (expected : Expected) (self : Dictionary)
    (small : self.metadata.log_size ≤ 64) (room : HasRoom self.metadata) where
  -- Where the table is as it was but for entries and pages.
  module _ (filled : Dictionary) (place : ℕ) (paged : IsPaged filled)
      (same_index : filled.metadata.index ≡ self.metadata.index)
      (same_size : filled.metadata.log_size ≡ self.metadata.log_size) where
    same_slot : (q : ℕ) → is_empty (node_at filled.metadata q) ≡ is_empty (node_at self.metadata q)
    unfolding parse_node_from_raw
    same_slot q = ap (λ (f : ℕ → ℕ). f q == 0) same_index

    one_within : room.one < size_of filled.metadata
    one_within = rw same_size room.one_within

    never_full :
        ((j : ℕ)
          → j < size_of filled.metadata
          → is_empty (
              node_at filled.metadata
                ((distance0_of py hash filled.metadata + j) % size_of filled.metadata))
            ≡ false)
        → ⊥
    never_full used =
        let full =
          all_used py (filled.metadata) hash room.one (rw same_size small) used one_within in
        absurd (cc (full, same_slot room.one, room.one_free))

    -- One of the two slots is still empty after a write.
    still_free :
        (slot raw : ℕ)
        → (free : ℕ) × (free < size_of filled.metadata)
          × (is_empty (node_at (write_raw_node_at slot raw (filled.metadata)) free) ≡ true)
    unfolding parse_node_from_raw
    still_free slot raw = elim (ℕ_discrete slot room.one) [
      | yes here ↦
          let differ : (slot == room.other) ≡ false = grind (arith, here, room.apart_from) in
          (
            room.other,
            rw same_size room.other_within,
            rw differ (same_slot room.other ∙ room.other_free),
          )
      | no there ↦
          let differ : (slot == room.one) ≡ false = ground arith in
          (room.one, one_within, rw differ (same_slot room.one ∙ room.one_free))
    ]

    settle-Tracked :
        (r : Insertion)
        → Contract py filled.metadata key hash expected desired r
        → Shape py filled.metadata key hash expected desired place r
        → Tracked self (settle_insertion (some place) filled r)
    unfolding settle_insertion count_insert accessor_len_inc accessor_inserted_inc
    settle-Tracked Insertion.raised c s = tt
    settle-Tracked Insertion.contended c s = tt
    settle-Tracked Insertion.must_grow (absent, used) s = absurd (never_full used)
    settle-Tracked Insertion.unexpected c s = tt
    settle-Tracked (Insertion.replaced old m') c s = tt
    settle-Tracked (Insertion.inserted m') c (slot, distance, lt, is) =
        let raw = (compute_raw_node (new_node py hash place distance) (filled.metadata)).node in
        let (free, within, is_free) = still_free slot raw in
        (
          record {
            page = paged.0;
            paged = ap (λ x. x.greatest_allocated_page) is ∙ paged.1;
            free = free;
            within = subst (λ x. free < size_of x) (sym is) within;
            is_free = subst (λ x. is_empty (node_at x free) ≡ true) (sym is) is_free;
          },
          ap (λ x. x.log_size) is ∙ same_size,
        )

    -- Without an entry in hand, nothing is inserted.
    settle_object-Tracked :
        (x : Object) (r : Insertion)
        → Contract py filled.metadata key hash (Expected.object x) desired r
        → Tracked self (settle_insertion none filled r)
    unfolding settle_insertion
    settle_object-Tracked x Insertion.raised c = tt
    settle_object-Tracked x Insertion.contended c = tt
    settle_object-Tracked x Insertion.must_grow (absent, used) = absurd (never_full used)
    settle_object-Tracked x Insertion.unexpected c = tt
    settle_object-Tracked x (Insertion.replaced old m') c = tt
    settle_object-Tracked x (Insertion.inserted m') (may, absent, changes) = absurd may

module _ (py : Runtime) (lawful : IsLawful py) (self : Dictionary) (sound : IsSound py self)
    (key hash : ℕ) (hashed : py.hash_of key ≡ some hash) (desired : ℕ)
    (room : HasRoom self.metadata) (paged : IsPaged self) where
  small_enough : self.metadata.log_size ≤ 64
  small_enough = omega (arith, sound.indexed.small)

  settle_granted-Tracked :
      (expected : Expected) (r : Option ℕ × Dictionary)
      → Granted py self r
      → IsPaged (r.1)
      → Tracked self (settle_granted py key hash desired expected r)
  unfolding fill_entry
  settle_granted-Tracked expected (none, self') (same, full, beyond) has_page = (same, beyond)
  settle_granted-Tracked expected (some location, self') g has_page =
      let (held, same) = Grants-IsHeld py self self' location sound g in
      let (full, contents) = fill-IsHeld py self' location held key hash desired in
      let filled : Dictionary = record self' {
        metadata = fill_entry location key hash desired (self'.metadata);
      } in
      settle-Tracked py key hash desired expected self small_enough room filled location has_page
        (ap (λ s. s.metadata.index) g.shape) (ap (λ s. s.metadata.log_size) g.shape) _
        (expected_insert_or_update-Contract py lawful (filled.metadata) full.sound.indexed key hash
          hashed desired location expected
          (λ _. fill-IsReserved py self' location held key hash desired))
        (expected_insert_or_update-Shape py (filled.metadata) key hash expected desired location)

  set_reserved-Tracked :
      (expected : Expected) → Tracked self (set_reserved py self key hash desired expected)
  unfolding set_reserved
  set_reserved-Tracked expected =
      settle_granted-Tracked expected (get_empty_entry hash self)
        (get_empty_entry-Granted py self sound hash) (get_empty_entry-IsPaged hash self paged)

  pub set_expected-Tracked :
      (expected : Expected) → Tracked self (set_expected py self key hash desired expected)
  unfolding set_expected
  set_expected-Tracked (Expected.object x) =
      settle_object-Tracked py key hash desired (Expected.object x) self small_enough room self 0
        paged refl refl x _
        (expected_insert_or_update-Contract py lawful (self.metadata) sound.indexed key hash hashed
          desired 0 (Expected.object x) (λ may. absurd may))
  set_expected-Tracked Expected.not_found = set_reserved-Tracked Expected.not_found
  set_expected-Tracked Expected.any = set_reserved-Tracked Expected.any
