-- ===== src/AtomicDict/CompareAndSet/Touches.antt =====
-- Which entries a store may change, and why the rest of the dictionary stays sound
-- (src/cereggii/atomic_dict/insert.c, delete.c).
use cereggii.Common.{
  ℕ, ◌+◌, ◌*◌, ◌/◌, ◌^◌, ◌≤◌, ◌<◌, bit_and, Option, some, true, false, ◌==◌, ◌≡◌, ◌≢◌, ◌⊎◌, refl,
  sym, ap, ◌∙◌, inl, inr, arith, if◌then◌else◌, update,
}
use cereggii.Common.Int.{pos_part}
use mathlib.Core.Path.{subst}
use native.Mathlib.Nat.{mul_comm}
use cereggii.Common.Bits.{div_unique}
use native.Mathlib.Decide.{ℕ_discrete}
use cereggii.AtomicDict.Runtime.{Object, Runtime, Entry, Meta, size_of}
use cereggii.AtomicDict.Node.{parse_node_from_raw, compute_raw_node, write_raw_node_at}
use cereggii.AtomicDict.Node.Encoding.{parse-compute}
use cereggii.AtomicDict.Pages.{get_entry_at, set_value, set_entry, fill_entry}
use cereggii.AtomicDict.Pages.Stores.{
  get_entry_at-set_value, get_entry_at-set_entry, get_entry_at-fill_entry,
}
use cereggii.AtomicDict.Index.{node_at, IsLive, IsIndexed}
use cereggii.AtomicDict.Index.Changes.{kept_live_back}
use cereggii.AtomicDict.Insert.NewNode.{new_node}
use cereggii.AtomicDict.Accessor.{Dictionary}
use cereggii.AtomicDict.Reservation.{entry_flags_reserved}
use cereggii.AtomicDict.Reservation.Invariant.{leader, IsAvailable, IsBlank, IsSound}

-- From `m` to `m'` only the entry at `location` and entries of live slots change, no group changes its flag, and a live
-- slot points to `location` or to where it pointed before.
pub record Touches (group_size : ℕ) (m m' : Meta) (location : ℕ) : Type 0 where
  pub size : m'.log_size ≡ m.log_size
  pub gap : pos_part m'.greatest_allocated_page ≡ pos_part m.greatest_allocated_page
  pub flags :
      (l : ℕ)
      → (get_entry_at (leader group_size l) m').flags ≡ (get_entry_at (leader group_size l) m).flags
  pub entries :
      (l : ℕ)
      → l ≢ location
      → ((q : ℕ) → IsLive m q → (node_at m q).index ≢ l)
      → get_entry_at l m' ≡ get_entry_at l m
  pub nodes :
      (q : ℕ)
      → IsLive m' q
      → ((node_at m' q).index ≡ location)
        ⊎ (IsLive m q × ((node_at m' q).index ≡ (node_at m q).index))

leader-leader : (size : ℕ) → 1 ≤ size → (l : ℕ) → leader size (leader size l) ≡ leader size l
leader-leader size positive l =
    ap (λ (n : ℕ). n / size * size) {x = l / size * size} {y = 0 + size * (l / size)}
      (omega (arith, mul_comm (l / size) size))
    ∙ ap (λ (n : ℕ). n * size) (div_unique size (l / size) 0 positive)

module _ (group_size : ℕ) (m : Meta) where
  -- One entry changes: the one at `location`, or one of a live slot.
  entry-Touches :
      (pages : ℕ → ℕ → Entry) (i location : ℕ) (e : Entry)
      → ((l : ℕ)
          → get_entry_at l (record m { pages = pages }) ≡ (if i == l then e else get_entry_at l m))
      → ((l : ℕ) → i ≡ leader group_size l → e.flags ≡ (get_entry_at i m).flags)
      → ((i ≡ location) ⊎ ((q : ℕ) × IsLive m q × ((node_at m q).index ≡ i)))
      → Touches group_size m (record m { pages = pages }) location
  unfolding parse_node_from_raw
  entry-Touches pages i location e at same why =
      let away : (l : ℕ) → i ≢ l → get_entry_at l (record m { pages = pages }) ≡ get_entry_at l m =
        λ l ne.
          let test : (i == l) ≡ false = ground arith in
          at l ∙ ap (λ b. if b then e else get_entry_at l m) test in
      record {
        size = refl;
        gap = refl;
        flags = λ l. elim (ℕ_discrete i (leader group_size l)) [
          | yes here ↦
              let test : (i == leader group_size l) ≡ true = ground arith in
              ap (λ x. x.flags)
                (at (leader group_size l)
                  ∙ ap (λ b. if b then e else get_entry_at (leader group_size l) m) test)
              ∙ same l here
              ∙ ap (λ (t : ℕ). (get_entry_at t m).flags) here
          | no there ↦ ap (λ x. x.flags) (away (leader group_size l) there)
        ];
        entries = λ l apart unpointed. away l (λ here. elim why [
          | inl target ↦ apart (sym here ∙ target)
          | inr (q, live, points) ↦ unpointed q live (points ∙ here)
        ]);
        nodes = λ q live'.
            inr (record { within = live'.within; filled = live'.filled; kept = live'.kept }, refl);
      }

  -- A store of a value under a live slot.
  pub set_value-Touches :
      (p : ℕ)
      → IsLive m p
      → (value : Option Object) (location : ℕ)
      → Touches group_size m (set_value (node_at m p).index value m) location
  unfolding set_value
  set_value-Touches p live value location =
      entry-Touches (set_value (node_at m p).index value m).pages (node_at m p).index location
        (record (get_entry_at (node_at m p).index m) { value = value })
        (λ l. get_entry_at-set_value (node_at m p).index l value m) (λ l here. refl)
        (inr (p, live, refl))

  -- The stores of a key into an entry.
  pub fill_entry-Touches :
      (location key hash value : ℕ)
      → Touches group_size m (fill_entry location key hash value m) location
  unfolding fill_entry
  fill_entry-Touches location key hash value =
      entry-Touches (fill_entry location key hash value m).pages location location
        (record (get_entry_at location m) { key = some key; hash = hash; value = some value })
        (λ l. get_entry_at-fill_entry location l key hash value m) (λ l here. refl) (inl refl)

  -- An entry of a flagged group is cleared.
  pub clear-Touches :
      (location : ℕ) (entry : Entry)
      → 1 ≤ group_size
      → ((get_entry_at (leader group_size location) m).flags ≡ entry_flags_reserved)
      → entry.flags ≡ bit_and (get_entry_at location m).flags entry_flags_reserved
      → Touches group_size m (set_entry location entry m) location
  unfolding set_entry
  clear-Touches location entry positive flagged masked =
      entry-Touches (set_entry location entry m).pages location location entry
        (λ l. get_entry_at-set_entry location l entry m)
        (λ l here.
          let own = ap (leader group_size) here ∙ leader-leader group_size positive l ∙ sym here in
          let reserved : (get_entry_at location m).flags ≡ entry_flags_reserved =
            subst (λ (t : ℕ). (get_entry_at t m).flags ≡ entry_flags_reserved) own flagged in
          masked ∙ ap (λ (t : ℕ). bit_and t entry_flags_reserved) reserved ∙ sym reserved)
        (inl refl)

  -- The write of a node for the location.
  pub write_node-Touches :
      (py : Runtime) (hash location slot distance : ℕ)
      → m.log_size ≤ 56
      → location < size_of m
      → Touches group_size m
          (write_raw_node_at slot (compute_raw_node (new_node py hash location distance) m).node m)
          location
  unfolding parse_node_from_raw get_entry_at
  write_node-Touches py hash location slot distance small fits =
      let raw = (compute_raw_node (new_node py hash location distance) m).node in
      record {
        size = refl;
        gap = refl;
        flags = λ l. refl;
        entries = λ l _ _. refl;
        nodes = λ q live'. elim (ℕ_discrete slot q) [
          | yes here ↦
              let word : update m.index slot raw q ≡ raw = ground arith in
              inl (
                ap (λ (w : ℕ). (parse_node_from_raw w m).index) word
                ∙ (parse-compute m small (new_node py hash location distance) fits).0)
          | no there ↦
              let word : update m.index slot raw q ≡ m.index q = ground arith in
              inr (
                kept_live_back py m (update m.index slot raw) m.pages q word live',
                ap (λ (w : ℕ). (parse_node_from_raw w m).index) word,
              )
        ];
      }

-- A dictionary stays sound when a store touches an entry that is not available.
pub IsSound-Touches :
    (py : Runtime) (self : Dictionary)
    → IsSound py self
    → (m' : Meta) (location : ℕ)
    → Touches (self.reservation_buffer_size) (self.metadata) m' location
    → ¬ IsAvailable self location
    → IsIndexed py m'
    → IsSound py (record self { metadata = m' })
      × ((l : ℕ) → IsAvailable (record self { metadata = m' }) l → IsAvailable self l)
IsSound-Touches py self sound m' location t taken indexed =
    let m = self.metadata in
    let self' : Dictionary = record self { metadata = m' } in
    let back : (l : ℕ) → IsAvailable self' l → IsAvailable self l = λ l available. elim available [
      | inl (page, flags) ↦ inl (omega (arith, t.gap), sym (t.flags l) ∙ flags)
      | inr (inl buffered) ↦ inr (inl buffered)
      | inr (inr beyond) ↦ inr (inr (omega (arith, t.gap)))
    ] in
    let power : size_of m' ≡ size_of m = ap (λ (n : ℕ). 2 ^ n) t.size in
    let unpointed = sound.allocated.unpointed in
    (
      record {
        indexed = indexed;
        allocated = record {
          aligned = sound.allocated.aligned;
          room = omega (arith, t.gap, power, sound.allocated.room);
          nonzero = λ h. sound.allocated.nonzero (back 0 h);
          unpointed = λ l h q live e. elim (t.nodes q live) [
            | inl here ↦ taken (subst (λ (x : ℕ). IsAvailable self x) (sym e ∙ here) (back l h))
            | inr (live', same) ↦ unpointed l (back l h) q live' (sym same ∙ e)
          ];
          blank = λ l h page.
              let was = back l h in
              let same =
                t.entries l (λ e. taken (subst (λ (x : ℕ). IsAvailable self x) e was))
                  (unpointed l was) in
              subst IsBlank (sym same) (sound.allocated.blank l was (omega (arith, t.gap)));
          taken = sound.allocated.taken;
          claimed = λ l b.
              let (page, flags) = sound.allocated.claimed l b in
              (omega (arith, t.gap), t.flags l ∙ flags);
        };
      },
      back,
    )
