-- ===== src/AtomicDict/Index/Entries.antt =====
-- A table keeps its invariant and its contents when only entries change that no live slot points to.
use cereggii.Common.{ℕ, ◌≡◌, refl, sym, ap, ◌∙◌}
use cereggii.Common.Int.{ℤ}
use cereggii.AtomicDict.Runtime.{Runtime, Entry, Meta}
use cereggii.AtomicDict.Node.{parse_node_from_raw, check_tag, distance0_of}
use cereggii.AtomicDict.Pages.{get_entry_at}
use cereggii.AtomicDict.Index.{node_at, entry_at, IsLive, IsPlaced, Holds, IsIndexed}

-- The same index over other pages.
abbrev pub with_pages : Meta → (ℕ → ℕ → Entry) → ℤ → Meta
with_pages m pages gap = record m { pages = pages; greatest_allocated_page = gap }

-- The live slots point to the entries that they pointed to.
abbrev pub SameEntries : Meta → Meta → Type 0
SameEntries m m' = (q : ℕ) → IsLive m q → get_entry_at (node_at m q).index m' ≡ entry_at m q

module _ (m : Meta) (pages : ℕ → ℕ → Entry) (gap : ℤ) where
  pub same_node : (q : ℕ) → node_at (with_pages m pages gap) q ≡ node_at m q
  unfolding parse_node_from_raw
  same_node q = refl

  pub same_live : (q : ℕ) → IsLive m q → IsLive (with_pages m pages gap) q
  unfolding parse_node_from_raw
  same_live q live = record { within = live.within; filled = live.filled; kept = live.kept }

  pub same_live_back : (q : ℕ) → IsLive (with_pages m pages gap) q → IsLive m q
  unfolding parse_node_from_raw
  same_live_back q live = record { within = live.within; filled = live.filled; kept = live.kept }

  module _ (same : SameEntries m (with_pages m pages gap)) where
    same_entry : (q : ℕ) → IsLive m q → entry_at (with_pages m pages gap) q ≡ entry_at m q
    same_entry q live =
        ap (λ n. get_entry_at n.index (with_pages m pages gap)) (same_node q) ∙ same q live

    module _ (py : Runtime) where
      same_place : (q : ℕ) → IsLive m q → IsPlaced py m q → IsPlaced py (with_pages m pages gap) q
      unfolding parse_node_from_raw check_tag distance0_of
      same_place q live place =
          let e = same_entry q live in
          let h : (entry_at (with_pages m pages gap) q).hash ≡ (entry_at m q).hash =
            ap (λ x. x.hash) e in
          record {
            key = place.key;
            value = place.value;
            has_key = ap (λ x. x.key) e ∙ place.has_key;
            has_value = ap (λ x. x.value) e ∙ place.has_value;
            hashed = rw h place.hashed;
            tagged = rw h place.tagged;
            steps = place.steps;
            steps_lt = place.steps_lt;
            arrives = rw h place.arrives;
            near = place.near;
            chain = rw h place.chain;
          }

      pub same_Holds :
          (key value q : ℕ) → Holds py m key value q → Holds py (with_pages m pages gap) key value q
      same_Holds key value q h = record {
        live = same_live q h.live;
        stored_key = h.stored_key;
        has_key = ap (λ x. x.key) (same_entry q h.live) ∙ h.has_key;
        equal = h.equal;
        has_value = ap (λ x. x.value) (same_entry q h.live) ∙ h.has_value;
      }

      pub same_Holds_back :
          (key value q : ℕ) → Holds py (with_pages m pages gap) key value q → Holds py m key value q
      same_Holds_back key value q h =
          let live = same_live_back q h.live in
          record {
            live = live;
            stored_key = h.stored_key;
            has_key = sym (ap (λ x. x.key) (same_entry q live)) ∙ h.has_key;
            equal = h.equal;
            has_value = sym (ap (λ x. x.value) (same_entry q live)) ∙ h.has_value;
          }

      pub same_IsIndexed : IsIndexed py m → IsIndexed py (with_pages m pages gap)
      same_IsIndexed good = record {
        small = good.small;
        words = good.words;
        placed =
            λ q live. let live' = same_live_back q live in same_place q live' (good.placed q live');
        unique = λ a b key v v' h h'.
            good.unique a b key v v' (same_Holds_back key v a h) (same_Holds_back key v' b h');
      }
