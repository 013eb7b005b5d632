-- ===== src/AtomicDict/Init/Empty.antt =====
-- A dictionary without items is sound and holds nothing (src/cereggii/atomic_dict/atomic_dict.c).
use cereggii.Common.{
  ℕ, ◌+◌, ◌*◌, ◌/◌, ◌^◌, ◌≤◌, ◌<◌, ◌==◌, ◌≡◌, refl, sym, ◌∙◌, ap, inl, inr, arith, if◌then◌else◌,
  bit_or, Bool-cases,
}
use mathlib.Core.Path.{subst}
use cereggii.Common.Bits.{div_unique}
use cereggii.AtomicDict.Node.{parse_node_from_raw}
use native.Mathlib.Nat.{pow-le-pow_right, one-le-pow, zero-mul}
use cereggii.AtomicDict.Runtime.{Runtime, Entry, Meta}
use cereggii.AtomicDict.Pages.{page_of, position_in_page_of, get_entry_at, set_entry}
use cereggii.AtomicDict.Pages.Stores.{get_entry_at-set_entry}
use cereggii.AtomicDict.Index.{IsLive, Holds}
use cereggii.AtomicDict.Accessor.{Dictionary, reservation_buffer_put}
use cereggii.AtomicDict.Reservation.{with_flags, entry_flags_reserved, new_page_entry}
use cereggii.AtomicDict.Reservation.Invariant.{leader, IsBlank, IsSound}
use cereggii.AtomicDict.Init.{meta_new, allocate_pages, init_empty}

module _ (py : Runtime) (log_size : ℕ) (large : 7 ≤ log_size) (small : log_size ≤ 30) (k : ℕ)
    (fits : k ≤ 6) where
  abbrev self : Dictionary
  self = init_empty log_size (2 ^ k)

  abbrev m : Meta
  m = self.metadata

  pub shape : m.log_size ≡ log_size
  unfolding init_empty allocate_pages set_entry
  shape = refl

  no_live : (q : ℕ) → IsLive m q → ⊥
  unfolding init_empty allocate_pages set_entry parse_node_from_raw
  no_live q live = cc live.filled

  -- The table before its first entry is flagged.
  abbrev allocated : Meta
  allocated = allocate_pages 1 0 (meta_new log_size)

  first : Entry
  first = get_entry_at 0 allocated

  entry-eq :
      (location : ℕ)
      → get_entry_at location m ≡ (
          if 0 == location
          then with_flags (bit_or first.flags entry_flags_reserved) first
          else get_entry_at location allocated)
  unfolding init_empty first
  entry-eq location =
      get_entry_at-set_entry 0 location (with_flags (bit_or first.flags entry_flags_reserved) first)
        allocated

  entry_allocated :
      (location : ℕ) → page_of location ≡ 0 → get_entry_at location allocated ≡ new_page_entry
  unfolding allocate_pages get_entry_at
  entry_allocated location page = rw page refl

  first-eq : first ≡ new_page_entry
  unfolding first page_of position_in_page_of
  first-eq = entry_allocated 0 refl

  blank_first : (location : ℕ) → page_of location ≡ 0 → IsBlank (get_entry_at location m)
  blank_first location page = elim (Bool-cases (0 == location)) [
    | inl at ↦ rw (entry-eq location, at, first-eq) (refl, refl, refl)
    | inr other ↦ rw (entry-eq location, other, entry_allocated location page) (refl, refl, refl)
  ]

  zero_reserved : (get_entry_at 0 m).flags ≡ entry_flags_reserved
  zero_reserved = rw (entry-eq 0, first-eq) refl

  leader_first : (l : ℕ) → l < 2 ^ k → leader (2 ^ k) l ≡ 0
  leader_first l low =
      ap (λ (n : ℕ). n / 2 ^ k * 2 ^ k) {x = l} {y = l + 2 ^ k * 0} (omega arith)
      ∙ ap (λ (n : ℕ). n * 2 ^ k) (div_unique (2 ^ k) 0 l low)
      ∙ zero-mul (2 ^ k)

  page_first : (l : ℕ) → l < 2 ^ k → page_of l ≡ 0
  unfolding page_of
  page_first l low =
      let e : 2 ^ k ≤ 2 ^ 7 = pow-le-pow_right (omega arith) {j = 7} (omega arith) in
      omega (arith, e)

  room : 128 ≤ 2 ^ log_size
  room = let e : 2 ^ 7 ≤ 2 ^ log_size = pow-le-pow_right (omega arith) large in omega (arith, e)

  -- An empty dictionary is sound and holds nothing.
  pub init_empty-IsSound : IsSound py self × ((key value q : ℕ) → ¬ Holds py m key value q)
  unfolding init_empty allocate_pages set_entry reservation_buffer_put
  init_empty-IsSound = (
    record {
      indexed = record {
        small = small;
        words = λ p lt. omega arith;
        placed = λ p live. absurd (no_live p live);
        unique = λ a b key v v' h h'. absurd (no_live a h.live);
      };
      allocated = record {
        aligned = (k, fits, refl);
        room = omega (arith, room);
        nonzero = λ available. elim available [
          | inl (page, flags) ↦ omega (
            arith,
            zero_reserved,
            subst (λ (t : ℕ). (get_entry_at t m).flags ≡ 0)
                (leader_first 0 (one-le-pow k 2 (omega arith))) flags,
          )
          | inr (inl (low, high)) ↦ omega arith
          | inr (inr beyond) ↦ omega (arith, page_first 0 (one-le-pow k 2 (omega arith)))
        ];
        unpointed = λ l available q live e. no_live q live;
        blank = λ l available page. blank_first l (omega arith);
        taken = omega arith;
        claimed = λ l b.
            let low : l < 2 ^ k = omega (arith, b.1) in
            (
              omega (arith, page_first l low),
              subst (λ (t : ℕ). (get_entry_at t m).flags ≡ entry_flags_reserved)
                  (sym (leader_first l low)) zero_reserved,
            );
      };
    },
    λ key value q h. no_live q h.live,
  )
