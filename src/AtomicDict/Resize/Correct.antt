-- ===== src/AtomicDict/Resize/Correct.antt =====
-- A resize moves the whole index, whatever threads take its blocks in whatever order (resize.c).
use cereggii.Common.{
  ℕ, ◌+◌, ◌*◌, ◌/◌, ◌%◌, ◌^◌, ◌≤◌, ◌<◌, ◌≡◌, ◌≢◌, ◌⊎◌, inl, inr, ◌↔◌, refl, sym, ap, ◌∙◌, arith,
  true,
}
use mathlib.Core.Path.{subst}
use native.Mathlib.Nat.{mod-lt, one-le-pow, add-mod_right, mod-eq_of_lt}
use native.Mathlib.Decide.{ℕ_discrete}
use cereggii.AtomicDict.Runtime.{Object, Runtime, IsLawful, Meta, size_of}
use cereggii.AtomicDict.Node.{parse_node_from_raw, is_empty}
use cereggii.AtomicDict.Node.Encoding.{raw-lt}
use cereggii.AtomicDict.Index.{node_at, entry_at, IsLive, Holds, IsIndexed}
use cereggii.AtomicDict.Resize.Clear.{apart, with_index}
use cereggii.AtomicDict.Resize.Target.{double}
use cereggii.AtomicDict.Resize.Segment.{IsMigration, IsSegment, index_fits}
use cereggii.AtomicDict.Resize.Block.{IsFreeAt}
use cereggii.AtomicDict.Resize.Cover.{IsBlock, slot_covered}
use cereggii.AtomicDict.Resize.Workers.{Migration, Reaches, IsDone, start}
use cereggii.AtomicDict.Resize.Progress.{IsMigrated, start-IsProgress, Reaches-IsProgress}
use cereggii.AtomicDict.Resize.Slot.{
  Source, Source-index, Source-entry, Source-live, Source-placed, same_slot,
}

-- At least two slots are empty.
pub record HasRoom (m : Meta) : Type 0 where
  pub one : ℕ
  pub other : ℕ
  pub one_within : one < size_of m
  pub other_within : other < size_of m
  pub apart_from : one ≢ other
  pub one_free : is_empty (node_at m one) ≡ true
  pub other_free : is_empty (node_at m other) ≡ true

module _ (py : Runtime) (lawful : IsLawful py) (m m' : Meta) (mig : IsMigration py m m')
    (index : ℕ → ℕ)
    (all : (s : ℕ) → IsBlock s → s < size_of m → IsMigrated py lawful m m' mig index s) (e : ℕ)
    (within : e < size_of m) (free : IsFreeAt m e) where
  abbrev new : Meta
  new = with_index m' index

  unwrap : (p q : ℕ) → q < size_of m → (p ≡ q) ⊎ (p ≡ q + size_of m) → p % size_of m ≡ q
  unwrap p q lt (inl same) = ap (λ (t : ℕ). t % size_of m) same ∙ mod-eq_of_lt lt
  unwrap p q lt (inr round) =
      ap (λ (t : ℕ). t % size_of m) round ∙ add-mod_right q (size_of m) ∙ mod-eq_of_lt lt

  -- Where the node of a live slot is.
  moved_to :
      (q : ℕ)
      → IsLive m q
      → (slot : ℕ) × (src : Source py m m' index slot) × (src.p % size_of m ≡ q)
  moved_to q live =
      let (s, a, b, block, covers, seg, p, is, from, to) =
        slot_covered m (λ a b. IsSegment py m m' index a b) all q e live.within within free in
      let here = unwrap p q live.within is in
      let (place, l) = seg.lands p from to (subst (λ x. IsLive m x) (sym here) live) in
      (
        place % size_of m',
        record {
          start = s;
          block = block;
          a = a;
          b = b;
          covers = covers;
          seg = seg;
          p = p;
          from = from;
          to = to;
          place = place;
          low = omega (arith, l.after, l.there);
          high = omega (arith, l.before);
          there = refl;
          landed = l;
        },
        here,
      )

  -- Where the node in a used slot comes from.
  moved_from : (slot : ℕ) → slot < size_of m' → index slot ≢ 0 → Source py m m' index slot
  moved_from slot lt used =
      let twice = double m m' mig.grown in
      let q = slot / 2 in
      let inside : q < size_of m = omega arith in
      let (s, a, b, block, covers, seg, p, is, from, to) =
        slot_covered m (λ a b. IsSegment py m m' index a b) all q e inside within free in
      let place = 2 * p + slot % 2 in
      let there : place % size_of m' ≡ slot = elim is [
        | inl same ↦
            ap (λ (t : ℕ). t % size_of m') {x = place} {y = slot} (omega arith) ∙ mod-eq_of_lt lt
        | inr round ↦
            ap (λ (t : ℕ). t % size_of m') {x = place} {y = slot + size_of m'} (omega arith)
            ∙ add-mod_right slot (size_of m')
            ∙ mod-eq_of_lt lt
      ] in
      let (p', from', to', l) =
        seg.comes place (omega arith) (omega arith) (λ z. used (sym (ap index there) ∙ z)) in
      record {
        start = s;
        block = block;
        a = a;
        b = b;
        covers = covers;
        seg = seg;
        p = p';
        from = from';
        to = to';
        place = place;
        low = omega arith;
        high = omega arith;
        there = there;
        landed = l;
      }

  live_used : (slot : ℕ) → IsLive new slot → index slot ≢ 0
  unfolding parse_node_from_raw
  live_used slot live z = ground (arith, live.filled)

  source : (slot : ℕ) → IsLive new slot → Source py m m' index slot
  source slot live = moved_from slot live.within (live_used slot live)

  Holds-old :
      (key value slot : ℕ)
      → (h : Holds py new key value slot)
      → Holds py m key value ((source slot h.live).p % size_of m)
  Holds-old key value slot h =
      let src = source slot h.live in
      let same = Source-entry py lawful m m' mig index slot src in
      record {
        live = src.landed.live;
        stored_key = h.stored_key;
        has_key = sym (ap (λ x. x.key) same) ∙ h.has_key;
        equal = h.equal;
        has_value = sym (ap (λ x. x.value) same) ∙ h.has_value;
      }

  Holds-new : (key value q : ℕ) → Holds py m key value q → (slot : ℕ) × Holds py new key value slot
  Holds-new key value q h =
      let (slot, src, here) = moved_to q h.live in
      let same = Source-entry py lawful m m' mig index slot src ∙ ap (λ x. entry_at m x) here in
      (
        slot,
        record {
          live = Source-live py lawful m m' mig index slot src;
          stored_key = h.stored_key;
          has_key = ap (λ x. x.key) same ∙ h.has_key;
          equal = h.equal;
          has_value = ap (λ x. x.value) same ∙ h.has_value;
        },
      )

  words_fit : (slot : ℕ) → slot < size_of m' → index slot < 2 ^ 64
  words_fit slot lt = elim (ℕ_discrete (index slot) 0) [
    | yes zero ↦ rw zero (omega arith)
    | no used ↦
        let src = moved_from slot lt used in
        let word = ap index (sym src.there) ∙ src.landed.word in
        rw word (
          raw-lt m' (omega (arith, mig.grown, mig.small)) _
            (index_fits py lawful m m' mig (src.p % size_of m) src.landed.live.within))
  ]

  moved-IsIndexed : IsIndexed py new
  moved-IsIndexed = record {
    small = omega (arith, mig.grown, mig.small);
    words = words_fit;
    placed = λ slot live. Source-placed py lawful m m' mig index slot (source slot live);
    unique = λ x y key value value' h h'.
        same_slot py lawful m m' mig index x y (source x h.live) (source y h'.live) (
          mig.good.unique _ _ key value value' (Holds-old key value x h)
            (Holds-old key value' y h'));
  }

  moved-Holds :
      (key value : ℕ)
      → ((q : ℕ) × Holds py m key value q) ↔ ((slot : ℕ) × Holds py new key value slot)
  moved-Holds key value = (
    λ held. Holds-new key value held.0 held.1,
    λ held. ((source held.0 held.1.live).p % size_of m, Holds-old key value held.0 held.1),
  )

  -- The two slots that belong to the empty one before a stretch stay empty.
  left_free : HasRoom new
  unfolding parse_node_from_raw
  left_free =
      let (s, a, b, block, covers, seg, p, is, from, to) =
        slot_covered m (λ a b. IsSegment py m m' index a b) all e e within within free in
      let pos = one-le-pow m'.log_size 2 (omega arith) in
      let free_at : (place : ℕ)
          → 2 * a ≤ place
          → place < 2 * a + 2
          → is_empty (node_at new (place % size_of m')) ≡ true =
        λ place ge lt. elim (ℕ_discrete (index (place % size_of m')) 0) [
          | yes zero ↦ ground arith
          | no used ↦
              let (p', from', to', l) = seg.comes place ge (omega arith) used in
              absurd (omega (arith, l.after, l.there))
        ] in
      record {
        one = 2 * a % size_of m';
        other = (2 * a + 1) % size_of m';
        one_within = mod-lt (2 * a) (omega arith);
        other_within = mod-lt (2 * a + 1) (omega arith);
        apart_from =
            apart (size_of m') (2 * a) (2 * a + 1) (omega arith)
              (omega (arith, double m m' mig.grown, one-le-pow m.log_size 2));
        one_free = free_at (2 * a) (omega arith) (omega arith);
        other_free = free_at (2 * a + 1) (omega arith) (omega arith);
      }

  source_index :
      (slot : ℕ)
      → IsLive new slot
      → (q : ℕ) × IsLive m q × ((node_at new slot).index ≡ (node_at m q).index)
  source_index slot live =
      let src = source slot live in
      (src.p % size_of m, src.landed.live, Source-index py lawful m m' mig index slot src)

-- The same keys with the same values.
abbrev pub SameHeld : Runtime → Meta → Meta → Type 0
SameHeld py m new =
    (key value : Object)
    → ((q : ℕ) × Holds py m key value q) ↔ ((slot : ℕ) × Holds py new key value slot)

-- The new table is well formed over the pages that it was given, has two empty slots, holds what the
-- old one holds, and its live slots point to entries that live slots pointed to.
pub record IsMoved (py : Runtime) (m m' new : Meta) : Type 0 where
  pub index : ℕ → ℕ
  pub shape : new ≡ with_index m' index
  pub indexed : IsIndexed py new
  pub same : SameHeld py m new
  pub room : HasRoom new
  pub origin :
      (slot : ℕ)
      → IsLive new slot
      → (q : ℕ) × IsLive m q × ((node_at new slot).index ≡ (node_at m q).index)

-- From a well-formed index of fewer than 2 ^ 30 slots with an empty one, where no comparison raises, and a
-- table of twice the size over the same entries, whatever its index holds: however any number of
-- threads take the blocks and migrate them, when a thread has returned and none is at work, the
-- new index is well formed and has two empty slots, a key has a value in it exactly when it has it in
-- the old one, and its live slots point to entries that live slots of the old one point to.
pub Reaches-Moved :
    (py : Runtime) (m m' : Meta) (e : ℕ) (s : Migration)
    → IsLawful py
    → IsMigration py m m'
    → e < size_of m
    → IsFreeAt m e
    → Reaches py m (start m') s
    → IsDone s
    → IsMoved py m m' s.new_meta
Reaches-Moved py m m' e s lawful mig within free run done =
    let p =
      Reaches-IsProgress py lawful m m' mig (start-IsProgress py lawful m m' mig m'.index) run in
    let over = p.over done.asker done.its_count done.has_returned in
    let all : (b : ℕ) → IsBlock b → b < size_of m → IsMigrated py lawful m m' mig p.index b =
      λ b block lt. elim (p.taken_blocks b block (omega arith) lt) [
        | inl (t, count, held) ↦ absurd (done.no_holder t b count held)
        | inr migrated ↦ migrated
      ] in
    subst (λ new. IsMoved py m m' new) (sym p.table)
      (record {
        index = p.index;
        shape = refl;
        indexed = moved-IsIndexed py lawful m m' mig p.index all e within free;
        same = moved-Holds py lawful m m' mig p.index all e within free;
        room = left_free py lawful m m' mig p.index all e within free;
        origin = source_index py lawful m m' mig p.index all e within free;
      })
