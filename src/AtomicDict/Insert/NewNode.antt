-- ===== src/AtomicDict/Insert/NewNode.antt =====
-- Writing the node of a new key into the first empty slot of its probe (insert.c).
use cereggii.Common.{
  ℕ, ◌+◌, ◌/◌, ◌%◌, ◌-◌, ◌≤◌, ◌<◌, ◌^◌, true, false, some, ◌≡◌, ◌≢◌, refl, sym, ◌∙◌, ap, inl, inr,
  arith, min, bit_and,
}
use mathlib.Core.Path.{subst}
use native.Mathlib.Decide.{ℕ_discrete}
use native.Mathlib.Nat.{mod-lt, one-le-pow}
use cereggii.AtomicDict.Runtime.{Runtime, IsLawful, Node, Meta, size_of}
use cereggii.AtomicDict.Node.{
  parse_node_from_raw, compute_raw_node, write_raw_node_at, is_empty, rehash, distance0_of,
  check_tag, tag_mask,
}
use cereggii.AtomicDict.Node.Encoding.{parse-compute, raw-lt, and_tag_idem}
use cereggii.AtomicDict.Pages.{get_entry_at}
use cereggii.AtomicDict.Index.{node_at, entry_at, IsLive, IsPlaced, Holds, IsIndexed}
use cereggii.AtomicDict.Index.Changes.{kept_live_back, kept_place, kept_Holds, kept_Holds_back}
use cereggii.AtomicDict.Index.Writes.{Changes, Changes-unique, Holds-same_key, Holds-congr}

-- The entry at `location` is filled for the key and no live slot points to it; the slot `p` is the
-- first empty one on the way from the key's first slot.
pub record IsReady (py : Runtime) (m : Meta) (key value hash location distance : ℕ) : Type 0 where
  pub hashed : py.hash_of key ≡ some hash
  pub has_key : (get_entry_at location m).key ≡ some key
  pub has_hash : (get_entry_at location m).hash ≡ hash
  pub has_value : (get_entry_at location m).value ≡ some value
  pub nonzero : location ≢ 0
  pub fits : location < size_of m
  pub fresh : (q : ℕ) → IsLive m q → (node_at m q).index ≢ location
  pub absent : (v q : ℕ) → ¬ Holds py m key v q
  pub distance_lt : distance < size_of m
  pub free : is_empty (node_at m ((distance0_of py hash m + distance) % size_of m)) ≡ true
  pub chain :
      (j : ℕ)
      → j < distance
      → is_empty (node_at m ((distance0_of py hash m + j) % size_of m)) ≡ false

abbrev pub new_node : Runtime → ℕ → ℕ → ℕ → Node
new_node py hash location distance = record {
  node = 0;
  index = location;
  tag = rehash py hash;
  distance = distance;
}

module _ (py : Runtime) (lawful : IsLawful py) (m : Meta) (good : IsIndexed py m)
    (key value hash location distance : ℕ)
    (ready : IsReady py m key value hash location distance) where
  abbrev p : ℕ
  p = (distance0_of py hash m + distance) % size_of m

  abbrev raw : ℕ
  raw = (compute_raw_node (new_node py hash location distance) m).node

  abbrev after : Meta
  after = write_raw_node_at p raw m

  log_size_le : m.log_size ≤ 56
  log_size_le = omega (arith, good.small)

  within : p < size_of m
  within = mod-lt _ (one-le-pow m.log_size 2 (omega arith))

  word_new : (node_at after p).node ≡ raw
  unfolding parse_node_from_raw
  word_new = ground arith

  word_old : (q : ℕ) → q ≢ p → after.index q ≡ m.index q
  word_old q ne = ground arith

  node_new : node_at after p ≡ parse_node_from_raw raw m
  unfolding parse_node_from_raw
  node_new = ap (λ x. parse_node_from_raw x m) (let e : after.index p ≡ raw = ground arith in e)

  back :
      ((parse_node_from_raw raw m).index ≡ location)
      × ((parse_node_from_raw raw m).tag ≡ bit_and (rehash py hash) (tag_mask m))
      × ((parse_node_from_raw raw m).distance ≡ min distance 255)
  back = parse-compute m log_size_le (new_node py hash location distance) ready.fits

  entry_new : entry_at after p ≡ get_entry_at location m
  unfolding get_entry_at
  entry_new = ap (λ i. get_entry_at i m) (ap (λ n. n.index) node_new ∙ back.0)

  entry_old : (q : ℕ) → q ≢ p → entry_at after q ≡ entry_at m q
  unfolding get_entry_at parse_node_from_raw
  entry_old q ne = rw (word_old q ne)

  raw_nonzero : raw ≢ 0
  unfolding parse_node_from_raw
  raw_nonzero e =
      ready.nonzero (sym back.0 ∙ ap (λ (t : ℕ). t / 2 ^ (64 - m.log_size)) e ∙ omega arith)

  live_new : IsLive after p
  live_new = record {
    within = within;
    filled = ground (arith, word_new, raw_nonzero);
    kept = ground (arith, ap (λ n. n.index) node_new, back.0, ready.nonzero);
  }

  fills :
      (q : ℕ) → q < size_of m → is_empty (node_at m q) ≡ false → is_empty (node_at after q) ≡ false
  unfolding parse_node_from_raw
  fills q lt filled = ground (arith, word_new, raw_nonzero)

  tagged_new : check_tag py hash (node_at after p) after ≡ true
  unfolding check_tag
  tagged_new =
      let tag = ap (λ n. n.tag) node_new ∙ back.1 in
      ground (arith, tag, and_tag_idem m log_size_le (rehash py hash))

  place_new : IsPlaced py after p
  unfolding distance0_of check_tag parse_node_from_raw
  place_new =
      let hash_new : (entry_at after p).hash ≡ hash = ap (λ e. e.hash) entry_new ∙ ready.has_hash in
      record {
        key = key;
        value = value;
        has_key = ap (λ e. e.key) entry_new ∙ ready.has_key;
        has_value = ap (λ e. e.value) entry_new ∙ ready.has_value;
        hashed = ready.hashed ∙ ap some (sym hash_new);
        tagged = rw hash_new tagged_new;
        steps = distance;
        steps_lt = ready.distance_lt;
        arrives = rw hash_new refl;
        near = ap (λ n. n.distance) node_new ∙ back.2;
        chain = λ j lt.
            rw hash_new
              (fills _ (mod-lt _ (one-le-pow m.log_size 2 (omega arith))) (ready.chain j lt));
      }

  old_live : (q : ℕ) → q ≢ p → IsLive after q → IsLive m q
  old_live q ne live = kept_live_back py m after.index m.pages q (word_old q ne) live

  new_not_live : ¬ IsLive m p
  new_not_live live = cc (ready.free, live.filled)

  held_new : Holds py after key value p
  held_new = record {
    live = live_new;
    stored_key = key;
    has_key = ap (λ e. e.key) entry_new ∙ ready.has_key;
    equal = lawful.eq_refl key;
    has_value = ap (λ e. e.value) entry_new ∙ ready.has_value;
  }

  -- The new key has its value in the new slot, and every other slot is as it was.
  pub new_node-Changes : Changes py m after key (some value) p
  new_node-Changes = record {
    sound = λ k v q now. elim (ℕ_discrete q p) [
      | yes e ↦
          let there = subst (λ x. Holds py after k v x) e now in
          inl (
            Holds-same_key py lawful after key k value v p held_new there,
            sym held_new.has_value ∙ there.has_value,
            e,
          )
      | no ne ↦
          let live = old_live q ne now.live in
          let was : Holds py m k v q =
            kept_Holds_back py m after.index m.pages q (word_old q ne) k v v
              (ap (λ x. x.key) (entry_old q ne))
              (ap (λ x. x.value) (sym (entry_old q ne)) ∙ now.has_value) now in
          inr (
            λ same.
                ready.absent v q
                  (Holds-congr py lawful m k key v q (lawful.eq_symm key k same) was),
            was,
          )
    ];
    self = λ v is. subst (λ x. Holds py after key x p) (let e : value ≡ v = cc is in e) held_new;
    others = λ k v q apart held.
        let ne : q ≢ p = λ e. new_not_live (subst (λ x. IsLive m x) e held.live) in
        kept_Holds py m after.index m.pages q (word_old q ne) k v v
          (ap (λ x. x.key) (entry_old q ne)) (ap (λ x. x.value) (entry_old q ne) ∙ held.has_value)
          held;
  }

  -- Inserting a ready key keeps the index well formed.
  pub new_node-IsIndexed : IsIndexed py after
  new_node-IsIndexed = record {
    small = good.small;
    words = λ q lt. elim (ℕ_discrete q p) [
      | yes e ↦ ground (arith, raw-lt m log_size_le (new_node py hash location distance) ready.fits)
      | no ne ↦ rw (word_old q ne) (good.words q lt)
    ];
    placed = λ q live. elim (ℕ_discrete q p) [
      | yes e ↦ subst (λ x. IsPlaced py after x) (sym e) place_new
      | no ne ↦
          let place = good.placed q (old_live q ne live) in
          kept_place py m after.index m.pages q (word_old q ne) place.value
            (ap (λ x. x.key) (entry_old q ne)) (ap (λ x. x.hash) (entry_old q ne))
            (ap (λ x. x.value) (entry_old q ne) ∙ place.has_value) fills place
    ];
    unique = λ a b k v v'. Changes-unique py lawful good new_node-Changes a b k v v';
  }
