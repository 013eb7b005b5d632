-- ===== src/AtomicDict/Reservation/Grant.antt =====
-- What it means to be handed an entry, and the hand-out of the first entry of a group
-- (src/cereggii/atomic_dict/pages.c).
use cereggii.Common.{
  ℕ, ◌+◌, ◌-◌, ◌*◌, ◌^◌, ◌≤◌, ◌<◌, Option, none, some, ◌≡◌, ◌≢◌, refl, sym, ap, ◌∙◌, arith, inl,
  inr, ◌⊎◌,
}
use cereggii.Common.Int.{ℤ, pos_part}
use native.Mathlib.Nat.{one-le-pow}
use mathlib.Core.Path.{subst}
use cereggii.AtomicDict.Runtime.{Runtime, Entry, Meta, size_of}
use cereggii.AtomicDict.Pages.{page_of, get_entry_at}
use cereggii.AtomicDict.Index.Entries.{
  with_pages, SameEntries, same_node, same_live_back, same_IsIndexed,
}
use cereggii.AtomicDict.Accessor.{ReservationBuffer, Dictionary, reservation_buffer_put}
use cereggii.AtomicDict.Accessor.Buffer.{pop_free}
use cereggii.AtomicDict.Reservation.{put_and_pop, entry_flags_reserved}
use cereggii.AtomicDict.Reservation.Invariant.{
  leader, IsFree, IsBuffered, IsBeyond, IsAvailable, IsBlank, IsSound,
}
use cereggii.AtomicDict.Reservation.Group.{IsGroup, group-leader}

-- The same dictionary with other pages and another buffer.
abbrev pub reserved : Dictionary → (ℕ → ℕ → Entry) → ℤ → ReservationBuffer → Dictionary
reserved self pages gap rb = record self {
  metadata = with_pages (self.metadata) pages gap;
  storage = record (self.storage) { reservation_buffer = rb };
}

-- From `self` the entry at `location` was handed out: it was available, is blank and no longer
-- available, nothing else became available, and what live slots point to is as it was.
pub record Grants (py : Runtime) (self self' : Dictionary) (location : ℕ) : Type 0 where
  pub pages : ℕ → ℕ → Entry
  pub gap : ℤ
  pub buffer : ReservationBuffer
  pub shape : self' ≡ reserved self pages gap buffer
  pub same : SameEntries (self.metadata) (with_pages (self.metadata) pages gap)
  pub was : IsAvailable self location
  pub fits : location < size_of (self.metadata)
  pub paged : page_of location ≤ pos_part gap
  pub blank : IsBlank (get_entry_at location (with_pages (self.metadata) pages gap))
  pub sound : IsSound py self'
  pub left : (l : ℕ) → IsAvailable self' l → IsAvailable self l × (l ≢ location)
  pub took :
      (0 < buffer.used) × (location ≡ buffer.start + buffer.used - 1) × (buffer.used ≤ buffer.size)
  pub flagged :
      (get_entry_at
        (leader (self.reservation_buffer_size) location)
        (with_pages (self.metadata) pages gap)).flags
      ≡ entry_flags_reserved

-- The outcome of a request for an entry: none only with the buffer used up and no page that fits
-- after the last one.
abbrev pub Granted : Runtime → Dictionary → Option ℕ × Dictionary → Type 0
Granted py self (some location, self') = Grants py self self' location
Granted py self (none, self') =
    (self' ≡ self)
    × (self.storage.reservation_buffer.used ≡ self.storage.reservation_buffer.size)
    × (size_of (self.metadata) < (pos_part (self.metadata.greatest_allocated_page) + 2) * 128)

pub page_bound : (location page : ℕ) → page_of location ≤ page → location < (page + 1) * 128
unfolding page_of
page_bound location page h = omega arith

module _ (py : Runtime) (self : Dictionary) (sound : IsSound py self) where
  abbrev m : Meta
  m = self.metadata

  -- What is still available afterwards was available before, and so is sound.
  pub IsSound-fewer :
      (pages : ℕ → ℕ → Entry) (gap : ℤ) (rb : ReservationBuffer)
      → SameEntries m (with_pages m pages gap)
      → ((l : ℕ) → IsAvailable (reserved self pages gap rb) l → IsAvailable self l)
      → (pos_part gap + 1) * 128 ≤ size_of m
      → ((l : ℕ)
          → IsAvailable self l
          → page_of l ≤ pos_part gap
          → IsBlank (get_entry_at l (with_pages m pages gap)))
      → rb.used ≤ rb.size
      → ((l : ℕ)
          → IsBuffered rb l
          → (page_of l ≤ pos_part gap)
            × ((get_entry_at
                  (leader (self.reservation_buffer_size) l)
                  (with_pages m pages gap)).flags
                ≡ entry_flags_reserved))
      → IsSound py (reserved self pages gap rb)
  IsSound-fewer pages gap rb same fewer room blank taken claimed = record {
    indexed = same_IsIndexed m pages gap same py sound.indexed;
    allocated = record {
      aligned = sound.allocated.aligned;
      room = room;
      nonzero = λ h. sound.allocated.nonzero (fewer 0 h);
      unpointed = λ l h q live e.
          sound.allocated.unpointed l (fewer l h) q (same_live_back m pages gap q live)
            (ap (λ n. n.index) (sym (same_node m pages gap q)) ∙ e);
      blank = λ l h. blank l (fewer l h);
      taken = taken;
      claimed = claimed;
    };
  }

  module _ (k : ℕ) (small : k ≤ 6) (size : self.reservation_buffer_size ≡ 2 ^ k) (page location : ℕ)
      (group : IsGroup (2 ^ k) page location) (pages : ℕ → ℕ → Entry) (gap : ℤ) where
    abbrev m' : Meta
    m' = with_pages m pages gap

    abbrev pub claimed_buffer : ReservationBuffer
    claimed_buffer = record { start = location; size = self.reservation_buffer_size; used = 1 }

    positive : 1 ≤ self.reservation_buffer_size
    positive = omega (arith, size, one-le-pow k 2 (omega arith))

    pub put_and_pop-eq :
        put_and_pop location m' self ≡ (some location, reserved self pages gap claimed_buffer)
    unfolding reservation_buffer_put
    put_and_pop-eq =
        let rb : ReservationBuffer = record {
          start = location;
          size = self.reservation_buffer_size;
          used = 0;
        } in
        ap (λ (r : Option ℕ × ReservationBuffer). (r.0, reserved self pages gap (r.1)))
          (pop_free rb (omega (arith, positive)))
        ∙ ap (λ (n : ℕ). (some n, reserved self pages gap claimed_buffer)) {x = location + 0}
            (omega arith)

    pub in_group :
        (l : ℕ)
        → location ≤ l
        → l < location + self.reservation_buffer_size
        → (leader (self.reservation_buffer_size) l ≡ location) × (page_of l ≡ page)
    in_group l low high =
        rw size (group-leader k small page location l group low (omega (arith, size)))

    pub claim_group :
        page ≤ pos_part gap
        → (get_entry_at location m').flags ≡ entry_flags_reserved
        → (pos_part gap + 1) * 128 ≤ size_of m
        → SameEntries m m'
        → ((l : ℕ)
            → IsFree m' (self.reservation_buffer_size) l
              ⊎ (((location ≤ l) × (l < location + self.reservation_buffer_size)) ⊎ IsBeyond m' l)
            → IsAvailable self l)
        → ((l : ℕ) → IsAvailable self l → page_of l ≤ pos_part gap → IsBlank (get_entry_at l m'))
        → Grants py self (reserved self pages gap claimed_buffer) location
    claim_group inside flagged room same fewer blank =
        let at = in_group location (omega arith) (omega (arith, positive)) in
        let was = fewer location (inr (inl (omega arith, omega (arith, positive)))) in
        let left : (l : ℕ)
            → IsAvailable (reserved self pages gap claimed_buffer) l
            → IsAvailable self l × (l ≢ location) =
          λ l available. elim available [
            | inl free ↦ (
              fewer l (inl free),
              λ e. omega (
                arith,
                flagged,
                subst (λ (t : ℕ). (get_entry_at t m').flags ≡ 0)
                    (ap (leader (self.reservation_buffer_size)) e ∙ at.0) free.1,
              ),
            )
            | inr (inl (low, high)) ↦ (fewer l (inr (inl (omega arith, high))), λ e. omega arith)
            | inr (inr beyond) ↦ (
              fewer l (inr (inr beyond)),
              λ e. let same_page : page_of l ≡ page = ap page_of e ∙ at.1 in omega arith,
            )
          ] in
        record {
          pages = pages;
          gap = gap;
          buffer = claimed_buffer;
          shape = refl;
          same = same;
          was = was;
          fits = omega (arith, page_bound location page (omega (arith, at.1)));
          paged = omega (arith, at.1);
          blank = blank location was (omega (arith, at.1));
          sound =
              IsSound-fewer pages gap claimed_buffer same (λ l h. (left l h).0) room blank positive
                (λ l b.
                  let g = in_group l (omega (arith, b.0)) b.1 in
                  (
                    omega (arith, g.1),
                    subst (λ (t : ℕ). (get_entry_at t m').flags ≡ entry_flags_reserved) (sym (g.0))
                        flagged,
                  ));
          left = left;
          took = (omega arith, omega arith, positive);
          flagged =
              subst (λ (t : ℕ). (get_entry_at t m').flags ≡ entry_flags_reserved) (sym (at.0))
                flagged;
        }
