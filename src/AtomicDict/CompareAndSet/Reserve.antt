-- ===== src/AtomicDict/CompareAndSet/Reserve.antt =====
-- An entry in hand: it was handed out, no slot points to it, and it can go back to the buffer
-- (src/cereggii/atomic_dict/insert.c, pages.c).
use cereggii.Common.{
  ℕ, ◌+◌, ◌-◌, ◌^◌, ◌≤◌, ◌<◌, bit_and, none, some, false, ◌==◌, ◌≡◌, ◌≢◌, ◌⊎◌, refl, sym, ap, ◌∙◌,
  ==_refl, inl, inr, arith, if◌then◌else◌,
}
use cereggii.Common.Int.{pos_part}
use mathlib.Core.Path.{subst}
use native.Mathlib.Decide.{ℕ_discrete}
use native.Mathlib.Nat.{one-le-pow}
use cereggii.AtomicDict.Runtime.{Runtime, Entry, Meta, size_of}
use cereggii.AtomicDict.Pages.{page_of, get_entry_at, set_entry, fill_entry}
use cereggii.AtomicDict.Pages.Stores.{get_entry_at-set_entry, get_entry_at-fill_entry}
use cereggii.AtomicDict.Index.{node_at, entry_at, IsLive, Holds, IsIndexed}
use cereggii.AtomicDict.Index.Entries.{
  with_pages, SameEntries, same_live_back, same_node, same_Holds, same_Holds_back, same_IsIndexed,
}
use cereggii.AtomicDict.Insert.Rounds.{IsReserved}
use cereggii.AtomicDict.Accessor.{ReservationBuffer, Dictionary, reservation_buffer_put_back_one}
use cereggii.AtomicDict.Reservation.{entry_flags_reserved}
use cereggii.AtomicDict.Reservation.Invariant.{leader, IsAvailable, IsBlank, IsBuffered, IsSound}
use cereggii.AtomicDict.Reservation.Grant.{Grants}
use cereggii.AtomicDict.CompareAndSet.{clean_up}
use cereggii.AtomicDict.CompareAndSet.Touches.{
  Touches, fill_entry-Touches, clear-Touches, IsSound-Touches,
}

-- Both tables hold the same values in the same slots.
abbrev pub SameContents : Runtime → Meta → Meta → Type 0
SameContents py m m' =
    (key value q : ℕ)
    → (Holds py m key value q → Holds py m' key value q)
      × (Holds py m' key value q → Holds py m key value q)

pub record IsHeld (py : Runtime) (self : Dictionary) (location : ℕ) : Type 0 where
  pub sound : IsSound py self
  pub taken : ¬ IsAvailable self location
  pub used : 0 < self.storage.reservation_buffer.used
  pub last :
      location ≡ self.storage.reservation_buffer.start + self.storage.reservation_buffer.used - 1
  pub paged : page_of location ≤ pos_part (self.metadata.greatest_allocated_page)
  pub flagged :
      (get_entry_at (leader (self.reservation_buffer_size) location) (self.metadata)).flags
      ≡ entry_flags_reserved
  pub fresh : (q : ℕ) → IsLive (self.metadata) q → (node_at (self.metadata) q).index ≢ location
  pub nonzero : location ≢ 0
  pub fits : location < size_of (self.metadata)

module _ (py : Runtime) where
  pub Grants-IsHeld :
      (self self' : Dictionary) (location : ℕ)
      → IsSound py self
      → Grants py self self' location
      → IsHeld py self' location × SameContents py (self.metadata) (self'.metadata)
  Grants-IsHeld self self' location sound g =
      let m = self.metadata in
      subst (λ s. IsHeld py s location × SameContents py m (s.metadata)) (sym g.shape)
        (
          record {
            sound = subst (IsSound py) g.shape g.sound;
            taken =
                λ h. (g.left location (subst (λ s. IsAvailable s location) (sym g.shape) h)).1 refl;
            used = g.took.0;
            last = g.took.1;
            paged = g.paged;
            flagged = g.flagged;
            fresh = λ q live e.
                sound.allocated.unpointed location g.was q (same_live_back m g.pages g.gap q live)
                  (ap (λ n. n.index) (sym (same_node m g.pages g.gap q)) ∙ e);
            nonzero = λ e. sound.allocated.nonzero (subst (IsAvailable self) e g.was);
            fits = g.fits;
          },
          λ key value q. (
            same_Holds m g.pages g.gap g.same py key value q,
            same_Holds_back m g.pages g.gap g.same py key value q,
          ),
        )

  module _ (self : Dictionary) (location : ℕ) (held : IsHeld py self location) where
    -- A blank entry goes back to the buffer.
    put_back-IsSound :
        IsBlank (get_entry_at location (self.metadata))
        → IsSound py (record self {
          storage = record (self.storage) {
            reservation_buffer = record (self.storage.reservation_buffer) {
              used = self.storage.reservation_buffer.used - 1;
            };
          };
        })
    put_back-IsSound blank =
        let rb = self.storage.reservation_buffer in
        let rb' : ReservationBuffer = record rb { used = rb.used - 1 } in
        let self' : Dictionary = record self {
          storage = record (self.storage) { reservation_buffer = rb' };
        } in
        let a = held.sound.allocated in
        let buffered : (l : ℕ) → IsBuffered rb' l → (l ≡ location) ⊎ IsBuffered rb l =
          λ l (low, high). elim (ℕ_discrete l location) [
            | yes here ↦ inl here
            | no there ↦ inr (omega (arith, held.used, held.last), high)
          ] in
        let back : (l : ℕ) → IsAvailable self' l → (l ≡ location) ⊎ IsAvailable self l =
          λ l available. elim available [
            | inl free ↦ inr (inl free)
            | inr (inl b) ↦ elim (buffered l b) [
              | inl here ↦ inl here
              | inr old ↦ inr (inr (inl old))
            ]
            | inr (inr beyond) ↦ inr (inr (inr beyond))
          ] in
        record {
          indexed = held.sound.indexed;
          allocated = record {
            aligned = a.aligned;
            room = a.room;
            nonzero = λ h. elim (back 0 h) [
              | inl here ↦ held.nonzero (sym here)
              | inr old ↦ a.nonzero old
            ];
            unpointed = λ l h q live e. elim (back l h) [
              | inl here ↦ held.fresh q live (e ∙ here)
              | inr old ↦ a.unpointed l old q live e
            ];
            blank = λ l h page. elim (back l h) [
              | inl here ↦
                  subst (λ (t : ℕ). IsBlank (get_entry_at t (self.metadata))) (sym here) blank
              | inr old ↦ a.blank l old page
            ];
            taken = omega (arith, a.taken);
            claimed = λ l b. elim (buffered l b) [
              | inl here ↦
                  subst
                    (λ (t : ℕ).
                      (page_of t ≤ pos_part self.metadata.greatest_allocated_page)
                      × ((get_entry_at (leader (self.reservation_buffer_size) t)
                            (self.metadata)).flags
                          ≡ entry_flags_reserved))
                    (sym here) (held.paged, held.flagged)
              | inr old ↦ a.claimed l old
            ];
          };
        }

  module _ (self : Dictionary) (location : ℕ) (held : IsHeld py self location) where
    abbrev m : Meta
    m = self.metadata

    -- A store that points no slot to the entry leaves it in hand.
    pub IsHeld-Touches :
        (m' : Meta)
        → Touches (self.reservation_buffer_size) m m' location
        → IsIndexed py m'
        → ((q : ℕ) → IsLive m' q → (node_at m' q).index ≢ location)
        → IsHeld py (record self { metadata = m' }) location
    IsHeld-Touches m' t indexed fresh =
        let (sound, back) = IsSound-Touches py self held.sound m' location t held.taken indexed in
        let power : size_of m' ≡ size_of m = ap (λ (n : ℕ). 2 ^ n) t.size in
        record {
          sound = sound;
          taken = λ h. held.taken (back location h);
          used = held.used;
          last = held.last;
          paged = omega (arith, held.paged, t.gap);
          flagged = t.flags location ∙ held.flagged;
          fresh = fresh;
          nonzero = held.nonzero;
          fits = omega (arith, held.fits, power);
        }

    -- A store into the entry changes nothing that a live slot points to.
    module _ (pages : ℕ → ℕ → Entry) (e : Entry)
        (at : (l : ℕ)
          → get_entry_at l (record m { pages = pages })
            ≡ (if location == l then e else get_entry_at l m)) where
      same : SameEntries m (with_pages m pages m.greatest_allocated_page)
      same q live =
          let apart = held.fresh q live in
          let test : (location == (node_at m q).index) ≡ false = ground arith in
          at (node_at m q).index ∙ ap (λ b. if b then e else entry_at m q) test

      pub own_SameContents : SameContents py m (record m { pages = pages })
      own_SameContents key value q = (
        same_Holds m pages m.greatest_allocated_page same py key value q,
        same_Holds_back m pages m.greatest_allocated_page same py key value q,
      )

      pub own_IsHeld :
          Touches (self.reservation_buffer_size) m (record m { pages = pages }) location
          → IsHeld py (record self { metadata = record m { pages = pages } }) location
      own_IsHeld t =
          IsHeld-Touches (record m { pages = pages }) t
            (same_IsIndexed m pages m.greatest_allocated_page same py held.sound.indexed)
            (λ q live e'.
              held.fresh q (same_live_back m pages m.greatest_allocated_page q live)
                (ap (λ n. n.index) (sym (same_node m pages m.greatest_allocated_page q)) ∙ e'))

    -- The entry is filled for a key.
    module _ (key hash desired : ℕ) where
      abbrev filled : Dictionary
      filled = record self { metadata = fill_entry location key hash desired m }

      abbrev filling : Entry
      filling = record (get_entry_at location m) {
        key = some key;
        hash = hash;
        value = some desired;
      }

      pub fill-IsHeld : IsHeld py filled location × SameContents py m (filled.metadata)
      unfolding fill_entry
      fill-IsHeld =
          let pages = (fill_entry location key hash desired m).pages in
          let at = λ (l : ℕ). get_entry_at-fill_entry location l key hash desired m in
          (
            own_IsHeld pages filling at
                (fill_entry-Touches (self.reservation_buffer_size) m location key hash desired),
            own_SameContents pages filling at,
          )

      entry_filled : get_entry_at location (filled.metadata) ≡ filling
      entry_filled =
          get_entry_at-fill_entry location location key hash desired m
          ∙ ap (λ b. if b then filling else get_entry_at location m) (==_refl location)

      pub fill-IsReserved : IsReserved py (filled.metadata) key desired hash location
      fill-IsReserved = record {
        has_key = ap (λ e. e.key) entry_filled;
        has_hash = ap (λ e. e.hash) entry_filled;
        has_value = ap (λ e. e.value) entry_filled;
        nonzero = held.nonzero;
        fits = fill-IsHeld.0.fits;
        fresh = fill-IsHeld.0.fresh;
      }

    abbrev cleared : Entry
    cleared = record {
      flags = bit_and (get_entry_at location m).flags entry_flags_reserved;
      hash = 0;
      key = none;
      value = none;
    }

    -- The entry is cleared and goes back.
    pub clean_up-IsSound :
        IsSound py (clean_up (some location) self)
        × SameContents py m ((clean_up (some location) self).metadata)
    unfolding clean_up reservation_buffer_put_back_one set_entry
    clean_up-IsSound =
        let pages = (set_entry location cleared m).pages in
        let at = λ (l : ℕ). get_entry_at-set_entry location l cleared m in
        let (k, _, size) = held.sound.allocated.aligned in
        let positive : 1 ≤ self.reservation_buffer_size =
          omega (arith, size, one-le-pow k 2 (omega arith)) in
        let after = own_IsHeld pages cleared at (
          clear-Touches (self.reservation_buffer_size) m location cleared positive held.flagged
            refl) in
        let here : get_entry_at location (set_entry location cleared m) ≡ cleared =
          at location
          ∙ ap (λ b. if b then cleared else get_entry_at location m) (==_refl location) in
        (
          put_back-IsSound (record self { metadata = set_entry location cleared m }) location after
              (ap (λ e. e.key) here, ap (λ e. e.hash) here, ap (λ e. e.value) here),
          own_SameContents pages cleared at,
        )
