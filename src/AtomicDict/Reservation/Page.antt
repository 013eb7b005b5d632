-- ===== src/AtomicDict/Reservation/Page.antt =====
-- Hand-out of the first entry of a group, from the last page and from a new one
-- (src/cereggii/atomic_dict/pages.c).
use cereggii.Common.{
  ℕ, ◌+◌, ◌*◌, ◌^◌, ◌≤◌, ◌<◌, true, false, ◌==◌, ◌≡◌, refl, sym, ap, ◌∙◌, arith, inl, inr,
  Bool-cases, update, bit_and, if◌then◌else◌,
}
use cereggii.Common.Int.{pos, pos_part}
use cereggii.Common.Bits.{and_mask}
use native.Mathlib.Nat.{one-le-pow, pow-le-pow_right, div-mul-le_self}
use native.Mathlib.Decide.{ℕ_discrete, dec_lt}
use mathlib.Core.Path.{subst}
use cereggii.AtomicDict.Runtime.{Runtime, Entry, Meta, size_of}
use cereggii.AtomicDict.Pages.{page_of, position_in_page_of, get_entry_at, set_entry}
use cereggii.AtomicDict.Pages.Stores.{get_entry_at-set_entry}
use cereggii.AtomicDict.Index.{node_at, entry_at}
use cereggii.AtomicDict.Index.Entries.{with_pages}
use cereggii.AtomicDict.Accessor.{ReservationBuffer, Dictionary}
use cereggii.AtomicDict.Reservation.{with_flags, entry_flags_reserved, new_page, new_page_entry}
use cereggii.AtomicDict.Reservation.Invariant.{leader, IsFree, IsAvailable, IsBlank, IsSound}
use cereggii.AtomicDict.Reservation.Group.{IsGroup}
use cereggii.AtomicDict.Reservation.Grant.{reserved, Grants, claim_group, in_group}

module _ (py : Runtime) (self : Dictionary) (sound : IsSound py self) where
  abbrev m : Meta
  m = self.metadata

  abbrev rb : ReservationBuffer
  rb = self.storage.reservation_buffer

  module _ (k : ℕ) (small : k ≤ 6) (size : self.reservation_buffer_size ≡ 2 ^ k) where
    abbrev pub gap : ℕ
    gap = pos_part m.greatest_allocated_page

    -- From the last page.
    module _ (location : ℕ) (group : IsGroup (2 ^ k) gap location)
        (free : (get_entry_at location m).flags ≡ 0) where
      abbrev pub flagged_table : Meta
      flagged_table =
          set_entry location (with_flags entry_flags_reserved (get_entry_at location m)) m

      pub flagged_shape : flagged_table ≡ with_pages m flagged_table.pages m.greatest_allocated_page
      unfolding set_entry
      flagged_shape = refl

      abbrev flagged_after : Meta
      flagged_after = with_pages m flagged_table.pages m.greatest_allocated_page

      entry_after :
          (l : ℕ)
          → get_entry_at l flagged_after ≡ (
              if location == l
              then with_flags entry_flags_reserved (get_entry_at location m)
              else get_entry_at l m)
      entry_after l =
          ap (get_entry_at l) (sym flagged_shape)
          ∙ get_entry_at-set_entry location l
              (with_flags entry_flags_reserved (get_entry_at location m)) m

      flags_after :
          (l : ℕ) → (get_entry_at l flagged_after).flags ≡ 0 → (get_entry_at l m).flags ≡ 0
      flags_after l zero_flags = ground (arith, entry_after l)

      only_flags :
          (l : ℕ)
          → (flags : ℕ) × (get_entry_at l flagged_after ≡ with_flags flags (get_entry_at l m))
      only_flags l = elim (ℕ_discrete location l) [
        | yes here ↦
            let test : (location == l) ≡ true = ground arith in
            (
              entry_flags_reserved,
              entry_after l
                  ∙ ap
                      (λ b.
                        if b
                        then with_flags entry_flags_reserved (get_entry_at location m)
                        else get_entry_at l m)
                      test
                  ∙ ap (λ (t : ℕ). with_flags entry_flags_reserved (get_entry_at t m)) here,
            )
        | no there ↦
            let test : (location == l) ≡ false = ground arith in
            (
              (get_entry_at l m).flags,
              entry_after l
                  ∙ ap
                      (λ b.
                        if b
                        then with_flags entry_flags_reserved (get_entry_at location m)
                        else get_entry_at l m)
                      test,
            )
      ]

      blank_after : (l : ℕ) → IsBlank (get_entry_at l m) → IsBlank (get_entry_at l flagged_after)
      blank_after l (key, hash, value) =
          let (_, e) = only_flags l in
          (ap (λ x. x.key) e ∙ key, ap (λ x. x.hash) e ∙ hash, ap (λ x. x.value) e ∙ value)

      IsFree-group :
          (l : ℕ)
          → location ≤ l
          → l < location + self.reservation_buffer_size
          → IsFree m (self.reservation_buffer_size) l
      IsFree-group l low high =
          let g =
            in_group py self sound k small size gap location group flagged_table.pages
              m.greatest_allocated_page l low high in
          (omega (arith, g.1), subst (λ (t : ℕ). (get_entry_at t m).flags ≡ 0) (sym (g.0)) free)

      pub from_page :
          Grants py self
            (reserved self flagged_table.pages m.greatest_allocated_page
              (record { start = location; size = self.reservation_buffer_size; used = 1 }))
            location
      from_page =
          let was : IsAvailable self location = inl (
            IsFree-group location (omega arith)
              (omega (arith, size, one-le-pow k 2 (omega arith)))) in
          claim_group py self sound k small size gap location group flagged_table.pages
            m.greatest_allocated_page (omega arith) (ground (arith, entry_after location))
            sound.allocated.room
            (λ q live.
              let apart = sound.allocated.unpointed location was q live in
              let test : (location == (node_at m q).index) ≡ false = ground (arith, apart) in
              entry_after (node_at m q).index
              ∙ ap
                  (λ b.
                    if b
                    then with_flags entry_flags_reserved (get_entry_at location m)
                    else entry_at m q)
                  test)
            (λ l available. elim available [
              | inl (page, flags) ↦ inl (page, flags_after _ flags)
              | inr (inl (low, high)) ↦ inl (IsFree-group l low high)
              | inr (inr beyond) ↦ inr (inr beyond)
            ])
            (λ l available page. blank_after l (sound.allocated.blank l available page))

    -- From a new page.
    module _ (space : (gap + 2) * 128 ≤ size_of m) where
      abbrev fresh_pages : ℕ → ℕ → Entry
      fresh_pages = update m.pages (gap + 1) new_page

      abbrev fresh_after : Meta
      fresh_after = with_pages m fresh_pages (pos (gap + 1))

      fresh_old : (l : ℕ) → page_of l ≤ gap → get_entry_at l fresh_after ≡ get_entry_at l m
      unfolding get_entry_at
      fresh_old l page =
          let test : (gap + 1 == page_of l) ≡ false = ground arith in
          ap (λ b. (if b then new_page else m.pages (page_of l)) (position_in_page_of l)) test

      fresh_new :
          (l : ℕ)
          → page_of l ≡ gap + 1
          → get_entry_at l fresh_after ≡ new_page (position_in_page_of l)
      unfolding get_entry_at
      fresh_new l page =
          let test : (gap + 1 == page_of l) ≡ true = ground arith in
          ap (λ b. (if b then new_page else m.pages (page_of l)) (position_in_page_of l)) test

      pub fresh-IsGroup : IsGroup (2 ^ k) (gap + 1) ((gap + 1) * 128)
      fresh-IsGroup = record {
        place = 0;
        at = omega arith;
        inside =
            let e : 2 ^ k ≤ 2 ^ 7 = pow-le-pow_right (omega arith) {j = 7} (omega arith) in
            omega (arith, e);
      }

      fresh_page : page_of ((gap + 1) * 128) ≡ gap + 1
      unfolding page_of
      fresh_page = omega arith

      fresh_first :
          new_page (position_in_page_of ((gap + 1) * 128))
          ≡ with_flags entry_flags_reserved new_page_entry
      unfolding position_in_page_of
      fresh_first =
          let first : bit_and ((gap + 1) * 128) 127 ≡ 0 =
            and_mask 7 ((gap + 1) * 128) ∙ omega arith in
          ap new_page first

      new_blank : (position : ℕ) → IsBlank (new_page position)
      new_blank position = elim (Bool-cases (0 == position)) [
        | inl first ↦ rw first (refl, refl, refl)
        | inr later ↦ rw later (refl, refl, refl)
      ]

      leader_page : (l : ℕ) → page_of (leader (self.reservation_buffer_size) l) ≤ page_of l
      unfolding page_of
      leader_page l = omega (arith, div-mul-le_self l (self.reservation_buffer_size))

      pub from_fresh :
          Grants py self
            (reserved self fresh_pages
              (pos (gap + 1))
              (record { start = (gap + 1) * 128; size = self.reservation_buffer_size; used = 1 }))
            ((gap + 1) * 128)
      from_fresh =
          claim_group py self sound k small size (gap + 1) ((gap + 1) * 128) fresh-IsGroup
            fresh_pages (pos (gap + 1)) (omega arith)
            (ap (λ x. x.flags) (fresh_new ((gap + 1) * 128) fresh_page ∙ fresh_first))
            (omega (arith, space))
            (λ q live. elim (dec_lt gap (page_of (node_at m q).index)) [
              | yes beyond ↦ absurd (sound.allocated.unpointed _ (inr (inr beyond)) q live refl)
              | no old ↦ fresh_old (node_at m q).index (omega arith)
            ])
            (λ l available. elim available [
              | inl (page, flags) ↦ elim (dec_lt gap (page_of l)) [
                | yes beyond ↦ inr (inr beyond)
                | no old ↦
                    let same =
                      fresh_old (leader (self.reservation_buffer_size) l)
                        (omega (arith, leader_page l)) in
                    inl (omega arith, ap (λ x. x.flags) (sym same) ∙ flags)
              ]
              | inr (inl (low, high)) ↦
                  let g =
                    in_group py self sound k small size (gap + 1) ((gap + 1) * 128) fresh-IsGroup
                      fresh_pages (pos (gap + 1)) l low high in
                  inr (inr (omega (arith, g.1)))
              | inr (inr beyond) ↦ inr (inr (omega arith))
            ])
            (λ l available page. elim (dec_lt gap (page_of l)) [
              | yes beyond ↦
                  subst IsBlank (sym (fresh_new l (omega arith)))
                    (new_blank (position_in_page_of l))
              | no old ↦
                  subst IsBlank (sym (fresh_old l (omega arith)))
                    (sound.allocated.blank l available (omega arith))
            ])
