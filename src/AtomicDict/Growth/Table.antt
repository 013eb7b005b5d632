-- ===== src/AtomicDict/Growth/Table.antt =====
-- The table that a resize is given, and the dictionary that it leaves (resize.c, meta.c).
use cereggii.Common.{ℕ, ◌+◌, ◌*◌, ◌/◌, ◌≤◌, ◌<◌, ◌≡◌, inl, inr, refl, sym, ap, ◌∙◌, true, arith}
use cereggii.Common.Int.{ℤ, pos, pos_part, leb_ℤ}
use mathlib.Core.Path.{subst}
use native.Mathlib.Decide.{dec_lt}
use native.Mathlib.Nat.{div-add-mod, mul_comm}
use cereggii.AtomicDict.Runtime.{Runtime, Meta}
use cereggii.AtomicDict.Pages.{page_of, position_in_page_of, get_entry_at}
use cereggii.AtomicDict.Index.{node_at, IsLive}
use cereggii.AtomicDict.Accessor.{Dictionary}
use cereggii.AtomicDict.Reservation.Invariant.{leader, IsAvailable, IsBlank, IsSound}
use cereggii.AtomicDict.Resize.Target.{double}
use cereggii.AtomicDict.Resize.Segment.{IsMigration}
use cereggii.AtomicDict.Resize.Correct.{IsMoved}
use cereggii.AtomicDict.Growth.{Memory, meta_new, meta_copy_pages}

module _ (py : Runtime) (memory : Memory) (self : Dictionary) (sound : IsSound py self)
    (small : self.metadata.log_size < 30) (g : ℕ)
    (paged : self.metadata.greatest_allocated_page ≡ pos g) where
  abbrev m : Meta
  m = self.metadata

  abbrev pub target : Meta
  target = meta_copy_pages m (meta_new memory (m.log_size + 1))

  -- The entries of allocated pages are shared.
  pub shared : (l : ℕ) → page_of l ≤ g → get_entry_at l target ≡ get_entry_at l m
  unfolding meta_copy_pages get_entry_at
  shared l le =
      let test : leb_ℤ (pos (page_of l)) m.greatest_allocated_page ≡ true =
        rw paged (ground arith) in
      rw test refl

  -- Live slots point to entries of allocated pages.
  pub live_page : (q : ℕ) → IsLive m q → page_of (node_at m q).index ≤ g
  live_page q live = elim (dec_lt g (page_of (node_at m q).index)) [
    | yes beyond ↦ absurd (
        sound.allocated.unpointed (node_at m q).index
          (inr (inr (omega (arith, ap pos_part paged, beyond)))) q live refl)
    | no within ↦ omega arith
  ]

  pub target-IsMigration : IsMigration py m target
  unfolding meta_copy_pages
  target-IsMigration = record {
    good = sound.indexed;
    grown = refl;
    small = small;
    entries = λ q live. shared (node_at m q).index (live_page q live);
  }

  module _ (new : Meta) (moved : IsMoved py m target new) (count : ℤ) where
    abbrev pub after : Dictionary
    after = record self {
      metadata = new;
      storage = record (self.storage) { local_inserted = count };
    }

    same_gap : new.greatest_allocated_page ≡ m.greatest_allocated_page
    unfolding meta_copy_pages
    same_gap = ap (λ x. x.greatest_allocated_page) moved.shape

    pub grown_log_size : new.log_size ≡ m.log_size + 1
    unfolding meta_copy_pages
    grown_log_size = ap (λ x. x.log_size) moved.shape

    same_entry : (l : ℕ) → page_of l ≤ g → get_entry_at l new ≡ get_entry_at l m
    unfolding get_entry_at
    same_entry l le =
        ap (λ x. x.pages (page_of l) (position_in_page_of l)) moved.shape ∙ shared l le

    leader_page : (l : ℕ) → page_of (leader self.reservation_buffer_size l) ≤ page_of l
    unfolding page_of
    leader_page l =
        let b = self.reservation_buffer_size in
        let below : l / b * b ≤ l = omega (arith, div-add-mod l b, mul_comm b (l / b)) in
        omega arith

    gap_is : pos_part new.greatest_allocated_page ≡ g
    gap_is = ap pos_part same_gap ∙ ap pos_part paged

    was_available : (l : ℕ) → IsAvailable after l → IsAvailable self l
    was_available l (inl (le, flags)) =
        let within : page_of l ≤ g = omega (arith, gap_is) in
        let same =
          same_entry (leader self.reservation_buffer_size l) (omega (arith, leader_page l)) in
        inl (omega (arith, ap pos_part paged), sym (ap (λ x. x.flags) same) ∙ flags)
    was_available l (inr (inl buffered)) = inr (inl buffered)
    was_available l (inr (inr beyond)) = inr (inr (omega (arith, gap_is, ap pos_part paged)))

    -- The larger table is as sound as the one before.
    pub grown-IsSound : IsSound py after
    grown-IsSound =
        let old = sound.allocated in
        let was = ap pos_part paged in
        record {
          indexed = moved.indexed;
          allocated = record {
            aligned = old.aligned;
            room = omega (arith, gap_is, was, old.room, double m new grown_log_size);
            nonzero = λ a. old.nonzero (was_available 0 a);
            unpointed = λ l a slot live.
                let (q, live', same) = moved.origin slot live in
                λ e. old.unpointed l (was_available l a) q live' (sym same ∙ e);
            blank = λ l a le.
                subst (λ x. IsBlank x) (sym (same_entry l (omega (arith, gap_is))))
                  (old.blank l (was_available l a) (omega (arith, gap_is, was)));
            taken = old.taken;
            claimed = λ l a.
                let (le, flags) = old.claimed l a in
                let same =
                  same_entry (leader self.reservation_buffer_size l)
                    (omega (arith, leader_page l, was)) in
                (omega (arith, gap_is, was), ap (λ x. x.flags) same ∙ flags);
          };
        }
