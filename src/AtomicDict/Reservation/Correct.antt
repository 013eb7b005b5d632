-- ===== src/AtomicDict/Reservation/Correct.antt =====
-- `get_empty_entry` hands out an entry that nobody has, or the table is full
-- (src/cereggii/atomic_dict/pages.c).
use cereggii.Common.{
  ℕ, ◌+◌, ◌*◌, ◌/◌, ◌^◌, ◌≤◌, ◌<◌, Option, none, some, ◌≡◌, ◌≢◌, refl, sym, ap, ◌∙◌, arith, inl,
  inr, Bool-cases, Option-cases, leb, update, if◌then◌else◌,
}
use cereggii.Common.Int.{pos}
use native.Mathlib.Decide.{dec_lt}
use mathlib.Core.Path.{subst}
use cereggii.AtomicDict.Runtime.{Runtime, Meta, size_of}
use cereggii.AtomicDict.Pages.{page_of, get_entry_at, set_entry}
use cereggii.AtomicDict.Index.Entries.{with_pages}
use cereggii.AtomicDict.Accessor.{ReservationBuffer, Dictionary}
use cereggii.AtomicDict.Accessor.Buffer.{pop_free, pop_done}
use cereggii.AtomicDict.Reservation.{
  with_flags, entry_flags_reserved, find_group, put_and_pop, reserve_entry_in_inserting_page,
  new_page, handle_page_allocated, reserve_entry, get_empty_entry,
}
use cereggii.AtomicDict.Reservation.Invariant.{leader, IsBuffered, IsAvailable, IsSound}
use cereggii.AtomicDict.Reservation.Group.{find_group-IsGroup}
use cereggii.AtomicDict.Reservation.Grant.{
  reserved, Grants, Granted, IsSound-fewer, put_and_pop-eq, page_bound,
}
use cereggii.AtomicDict.Reservation.Page.{
  gap, flagged_table, flagged_shape, from_page, fresh-IsGroup, from_fresh,
}

module _ (py : Runtime) (self : Dictionary) (sound : IsSound py self) where
  abbrev m : Meta
  m = self.metadata

  abbrev rb : ReservationBuffer
  rb = self.storage.reservation_buffer

  -- From the buffer.
  from_buffer :
      rb.used < rb.size
      → Grants py self
          (reserved self m.pages m.greatest_allocated_page (record rb { used = rb.used + 1 }))
          (rb.start + rb.used)
  from_buffer free =
      let location = rb.start + rb.used in
      let here : IsBuffered rb location = (omega arith, omega arith) in
      let after =
        reserved self m.pages m.greatest_allocated_page (record rb { used = rb.used + 1 }) in
      let claimed = sound.allocated.claimed location here in
      let was : IsAvailable self location = inr (inl here) in
      let left : (l : ℕ) → IsAvailable after l → IsAvailable self l × (l ≢ location) =
        λ l available. elim available [
          | inl free' ↦ (
            inl free',
            λ e. omega (
              arith,
              claimed.1,
              subst
                  (λ (t : ℕ). (get_entry_at (leader (self.reservation_buffer_size) t) m).flags ≡ 0)
                  e free'.1,
            ),
          )
          | inr (inl (low, high)) ↦ (inr (inl (omega arith, high)), λ e. omega arith)
          | inr (inr beyond) ↦ (
            inr (inr beyond),
            λ e.
                let same_page : page_of l ≡ page_of location = ap page_of e in
                omega (arith, claimed.0),
          )
        ] in
      record {
        pages = m.pages;
        gap = m.greatest_allocated_page;
        buffer = record rb { used = rb.used + 1 };
        shape = refl;
        same = λ q live. refl;
        was = was;
        fits = omega (arith, page_bound location _ claimed.0, sound.allocated.room);
        paged = claimed.0;
        blank = sound.allocated.blank location was claimed.0;
        sound =
            IsSound-fewer py self sound m.pages m.greatest_allocated_page
              (record rb { used = rb.used + 1 }) (λ q live. refl) (λ l h. (left l h).0)
              sound.allocated.room sound.allocated.blank (omega arith)
              (λ l b. sound.allocated.claimed l (omega (arith, b.0), b.1));
        left = left;
        took = (omega arith, omega arith, omega arith);
        flagged = claimed.1;
      }

  module _ (k : ℕ) (small : k ≤ 6) (size : self.reservation_buffer_size ≡ 2 ^ k) (hash : ℕ)
      (used_up : rb.used ≡ rb.size) where
    abbrev search : Option ℕ
    search = find_group (self.reservation_buffer_size) hash (gap py self sound k small size) m 128 0

    -- The last step of a reservation, after the search of the last page.
    abbrev or_grow : Option ℕ × Dictionary → Option ℕ × Dictionary
    or_grow (some location, self') = (some location, self')
    or_grow (none, self') =
        if leb (size_of m / 128) (gap py self sound k small size + 1)
        then (none, self)
        else handle_page_allocated new_page (gap py self sound k small size) self

    abbrev in_page : Option ℕ → Option ℕ × Dictionary
    in_page none = (none, self)
    in_page (some location) =
        put_and_pop location
          (set_entry location (with_flags entry_flags_reserved (get_entry_at location m)) m) self

    or_grow-eq :
        (r : Option ℕ × Dictionary)
        → elim (r.0) [
          | some location ↦ (some location, r.1)
          | none ↦
              if leb (size_of m / 128) (gap py self sound k small size + 1)
              then (none, self)
              else handle_page_allocated new_page (gap py self sound k small size) self
        ]
          ≡ or_grow r
    or_grow-eq (some location, self') = refl
    or_grow-eq (none, self') = refl

    reserve_entry-eq : reserve_entry hash self ≡ or_grow (in_page search)
    unfolding reserve_entry reserve_entry_in_inserting_page
    reserve_entry-eq = or_grow-eq (in_page search)

    page_Granted :
        (location : ℕ) → search ≡ some location → Granted py self (reserve_entry hash self)
    page_Granted location found =
        let (group, free) =
          find_group-IsGroup k small hash (gap py self sound k small size) m 128 0 location (
            ap (λ (s : ℕ). find_group s hash (gap py self sound k small size) m 128 (0 * 2 ^ k))
              (sym size)
            ∙ ap
                (find_group (self.reservation_buffer_size) hash (gap py self sound k small size) m
                  128)
                (omega arith)
            ∙ found) in
        let put =
          ap (λ t. put_and_pop location t self)
            (flagged_shape py self sound k small size location group free)
          ∙ put_and_pop-eq py self sound k small size (gap py self sound k small size) location
              group (flagged_table py self sound k small size location group free).pages
              m.greatest_allocated_page in
        subst (Granted py self)
          (sym (reserve_entry-eq ∙ ap (λ o. or_grow (in_page o)) found ∙ ap or_grow put))
          (from_page py self sound k small size location group free)

    fresh_eq :
        handle_page_allocated new_page (gap py self sound k small size) self
        ≡ put_and_pop
            ((gap py self sound k small size + 1) * 128)
            (with_pages m
              (update m.pages (gap py self sound k small size + 1) new_page)
              (pos (gap py self sound k small size + 1)))
            self
    unfolding handle_page_allocated
    fresh_eq = refl

    full_Granted : search ≡ none → Granted py self (reserve_entry hash self)
    full_Granted full =
        let start = reserve_entry-eq ∙ ap (λ o. or_grow (in_page o)) full in
        elim (Bool-cases (leb (size_of m / 128) (gap py self sound k small size + 1))) [
          | inl grow ↦
              let bound : size_of m < (gap py self sound k small size + 2) * 128 =
                let low : size_of m / 128 ≤ gap py self sound k small size + 1 = ground arith in
                omega (arith, low) in
              subst (Granted py self)
                (sym (
                  start
                  ∙ ap
                      (λ b.
                        if b
                        then (none, self)
                        else handle_page_allocated new_page (gap py self sound k small size) self)
                      grow))
                (refl, used_up, bound)
          | inr room ↦
              let space : (gap py self sound k small size + 2) * 128 ≤ size_of m =
                let high : gap py self sound k small size + 1 < size_of m / 128 = ground arith in
                omega (arith, high) in
              subst (Granted py self)
                (sym (
                  start
                  ∙ ap
                      (λ b.
                        if b
                        then (none, self)
                        else handle_page_allocated new_page (gap py self sound k small size) self)
                      room
                  ∙ fresh_eq
                  ∙ put_and_pop-eq py self sound k small size (gap py self sound k small size + 1)
                      ((gap py self sound k small size + 1) * 128)
                      (fresh-IsGroup py self sound k small size space)
                      (update m.pages (gap py self sound k small size + 1) new_page)
                      (pos (gap py self sound k small size + 1))))
                (from_fresh py self sound k small size space)
        ]

  abbrev taken_or_reserved : ℕ → Option ℕ × ReservationBuffer → Option ℕ × Dictionary
  taken_or_reserved hash (entry, buffer) = elim entry [
    | some location ↦ (
      some location,
      record self { storage = record (self.storage) { reservation_buffer = buffer } },
    )
    | none ↦ reserve_entry hash self
  ]

  -- From a sound dictionary, a request for an entry gives one that was available, blank and
  -- pointed to by no live slot, and that nobody is given again: what is available afterwards was
  -- available before and is another entry. The dictionary stays sound and its live slots keep their
  -- entries. If none is given, the buffer is used up, no page fits after the last one, and nothing
  -- changed.
  pub get_empty_entry-Granted : (hash : ℕ) → Granted py self (get_empty_entry hash self)
  unfolding get_empty_entry
  get_empty_entry-Granted hash = elim (dec_lt rb.used rb.size) [
    | yes free ↦
        subst (Granted py self) (sym (ap (taken_or_reserved hash) (pop_free rb free)))
          (from_buffer free)
    | no full ↦
        let (k, small, size) = sound.allocated.aligned in
        let used_up : rb.used ≡ rb.size = omega (arith, sound.allocated.taken) in
        let done = sym (ap (taken_or_reserved hash) (pop_done rb used_up)) in
        subst (Granted py self) done (elim (Option-cases (search k small size hash used_up)) [
          | inl full ↦ full_Granted k small size hash used_up full
          | inr (location, found) ↦ page_Granted k small size hash used_up location found
        ])
  ]
