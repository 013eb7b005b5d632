-- ===== src/AtomicDict/Resize/Slot.antt =====
-- A slot of the new index, and the old one that its node comes from (resize.c).
use cereggii.Common.{
  ℕ, ◌+◌, ◌-◌, ◌*◌, ◌/◌, ◌%◌, ◌^◌, ◌≤◌, ◌<◌, ◌≡◌, ◌≢◌, refl, sym, ap, ◌∙◌, true, false, min, arith,
  bit_and,
}
use mathlib.Core.Path.{subst}
use native.Mathlib.Nat.{
  mod-lt, one-le-pow, mod-add-mod, mul-div_cancel, div-add-mod, mul_assoc, add-mul-mod_self_left,
}
use cereggii.Common.Bits.{pow_add}
use cereggii.AtomicDict.Runtime.{Runtime, IsLawful, Meta, size_of}
use cereggii.AtomicDict.Node.{
  is_empty, distance0_of, parse_node_from_raw, check_tag, rehash, tag_mask,
}
use cereggii.AtomicDict.Node.Encoding.{tag_part, and_tag_idem, width}
use cereggii.AtomicDict.Pages.{get_entry_at}
use cereggii.AtomicDict.Index.{node_at, entry_at, IsLive, IsPlaced}
use cereggii.AtomicDict.Resize.Distance.{tag_digits}
use cereggii.AtomicDict.Resize.Clear.{with_index, word_at, apart}
use cereggii.AtomicDict.Resize.Probe.{word_of}
use cereggii.AtomicDict.Resize.Target.{double}
use cereggii.AtomicDict.Resize.Segment.{
  IsMigration, Landed, IsSegment, word_back, live_index, word-ne-zero, Landed-entry, Landed-ne-zero,
}
use cereggii.AtomicDict.Resize.Block.{Covers}
use cereggii.AtomicDict.Resize.Cover.{IsBlock, Covers-apart, Covers-same}

mod_half : (y w : ℕ) → y % (w * 2) % w ≡ y % w
mod_half y w =
    let q = y / (w * 2) in
    let r = y % (w * 2) in
    let split : r + w * (2 * q) ≡ y = omega (arith, div-add-mod y (w * 2), mul_assoc w 2 q) in
    sym (add-mul-mod_self_left r w (2 * q)) ∙ ap (λ (t : ℕ). t % w) split

-- The tag digits of the larger table are among those of the smaller one.
tag_narrow :
    (m m' : Meta)
    → m'.log_size ≡ m.log_size + 1
    → m.log_size < 30
    → (x : ℕ) → bit_and (bit_and x (tag_mask m)) (tag_mask m') ≡ bit_and x (tag_mask m')
tag_narrow m m' grown small x =
    let fits : m.log_size ≤ 56 = omega arith in
    let fits' : m'.log_size ≤ 56 = omega arith in
    let half : width m fits ≡ width m' fits' * 2 =
      ap (λ (k : ℕ). 2 ^ k) {x = 56 - m.log_size} {y = 56 - m'.log_size + 1} (omega arith)
      ∙ pow_add (56 - m'.log_size) 1 in
    let twice : x / 256 % width m fits % width m' fits' ≡ x / 256 % width m' fits' =
      ap (λ (w : ℕ). x / 256 % w % width m' fits') half ∙ mod_half (x / 256) (width m' fits') in
    rw
      (
        tag_part m fits x,
        tag_part m' fits' (x / 256 % width m fits * 256),
        mul-div_cancel (x / 256 % width m fits) {n = 256} (omega arith),
        twice,
        tag_part m' fits' x,
      )
      refl

-- A used slot of the new index with the block, the stretch and the old slot that it belongs to.
pub record Source (py : Runtime) (m m' : Meta) (index : ℕ → ℕ) (slot : ℕ) : Type 0 where
  pub start : ℕ
  pub block : IsBlock start
  pub a : ℕ
  pub b : ℕ
  pub covers : Covers m start a b
  pub seg : IsSegment py m m' index a b
  pub p : ℕ
  pub from : a ≤ p
  pub to : p < b
  pub place : ℕ
  pub low : 2 * a ≤ place
  pub high : place < 2 * b
  pub there : place % size_of m' ≡ slot
  pub landed : Landed py m m' index a p place

module _ (py : Runtime) (lawful : IsLawful py) (m m' : Meta) (mig : IsMigration py m m')
    (index : ℕ → ℕ) where
  module _ (slot : ℕ) (src : Source py m m' index slot) where
    abbrev pub old : ℕ
    old = src.p % size_of m

    old_live : IsLive m old
    old_live = src.landed.live

    word : index slot ≡ word_of m' (node_at m old) src.landed.steps
    word = ap index (sym src.there) ∙ src.landed.word

    back :
        ((node_at (with_index m' index) slot).index ≡ (node_at m old).index)
        × ((node_at (with_index m' index) slot).tag ≡ bit_and ((node_at m old).tag) (tag_mask m'))
        × ((node_at (with_index m' index) slot).distance ≡ min src.landed.steps 255)
    unfolding parse_node_from_raw
    back =
        let (i, t, d) = word_back py lawful m m' mig old old_live.within src.landed.steps in
        (
          ap (λ w. (parse_node_from_raw w m').index) word ∙ i,
          ap (λ w. (parse_node_from_raw w m').tag) word ∙ t,
          ap (λ w. (parse_node_from_raw w m').distance) word ∙ d,
        )

    pub Source-index : (node_at (with_index m' index) slot).index ≡ (node_at m old).index
    Source-index = back.0

    -- The new slot points to the entry of the old one.
    pub Source-entry : entry_at (with_index m' index) slot ≡ entry_at m old
    unfolding get_entry_at
    Source-entry = ap (λ i. get_entry_at i m') back.0 ∙ mig.entries old old_live

    pub Source-live : IsLive (with_index m' index) slot
    unfolding parse_node_from_raw
    Source-live =
        let used : index slot ≢ 0 =
          λ z. word-ne-zero py lawful m m' mig old old_live src.landed.steps (sym word ∙ z) in
        let kept = live_index py lawful m m' mig old old_live in
        record {
          within = rw (← src.there) (mod-lt src.place (one-le-pow m'.log_size 2 (omega arith)));
          filled = ground arith;
          kept = ground (arith, back.0);
        }

    tagged :
        check_tag py
          (entry_at m old).hash
          (node_at (with_index m' index) slot)
          (with_index m' index)
        ≡ true
    unfolding check_tag
    tagged =
        let place = mig.good.placed old old_live in
        let r = rehash py (entry_at m old).hash in
        let fits : m'.log_size ≤ 56 = omega (arith, mig.grown, mig.small) in
        let digits = tag_digits py m m' old place (omega (arith, mig.small)) mig.grown in
        let same : bit_and ((node_at (with_index m' index) slot).tag) (tag_mask m')
            ≡ bit_and r (tag_mask m') =
          ap (λ (t : ℕ). bit_and t (tag_mask m')) back.1
          ∙ and_tag_idem m' fits ((node_at m old).tag)
          ∙ ap (λ (t : ℕ). bit_and t (tag_mask m')) digits
          ∙ tag_narrow m m' mig.grown mig.small r in
        ground (arith, same)

    used_word :
        (x : ℕ)
        → word_at m' index x ≢ 0
        → is_empty (node_at (with_index m' index) (x % size_of m')) ≡ false
    unfolding parse_node_from_raw
    used_word x used = ground arith

    -- The new slot is on the probe of its key.
    pub Source-placed : IsPlaced py (with_index m' index) slot
    unfolding distance0_of check_tag parse_node_from_raw
    Source-placed =
        let place = mig.good.placed old old_live in
        let l = src.landed in
        let e = Source-entry in
        let hash : (entry_at (with_index m' index) slot).hash ≡ (entry_at m old).hash =
          ap (λ x. x.hash) e in
        let place_at : (l.first + l.steps) % size_of m' ≡ slot =
          ap (λ (t : ℕ). t % size_of m') l.there ∙ src.there in
        let on_way : (j : ℕ)
            → (distance0_of py (entry_at m old).hash m' + j) % size_of m'
              ≡ (l.first + j) % size_of m' =
          λ j.
            ap (λ (t : ℕ). (t + j) % size_of m') (sym l.home)
            ∙ mod-add-mod l.first (size_of m') j in
        record {
          key = place.key;
          value = place.value;
          has_key = ap (λ x. x.key) e ∙ place.has_key;
          has_value = ap (λ x. x.value) e ∙ place.has_value;
          hashed = rw hash place.hashed;
          tagged = rw hash tagged;
          steps = l.steps;
          steps_lt =
              omega
                (arith, l.after, l.there, src.high, src.covers.one_round, double m m' mig.grown);
          arrives = rw hash (on_way l.steps ∙ place_at);
          near = back.2;
          chain = λ j lt. rw (hash, on_way j) (used_word (l.first + j) (l.chain j lt));
        }

  -- Slots of two blocks come from different ones.
  other_starts :
      (x y : ℕ) (src : Source py m m' index x) (src' : Source py m m' index y)
      → old x src ≡ old y src'
      → ¬ (src.start < src'.start)
  other_starts x y src src' e lt =
      let (after, round) = Covers-apart m src.block src'.block lt src.covers src'.covers in
      apart (size_of m) src.p src'.p (omega (arith, src.to, src'.from))
        (omega (arith, src.from, src'.to)) e

  -- An old slot's node is in one new slot only.
  pub same_slot :
      (x y : ℕ) (src : Source py m m' index x) (src' : Source py m m' index y)
      → old x src ≡ old y src'
      → x ≡ y
  same_slot x y src src' e =
      let less = other_starts x y src src' e in
      let greater = other_starts y x src' src (sym e) in
      let start : src'.start ≡ src.start = omega arith in
      let (a, b) =
        Covers-same m src.covers (subst (λ s. Covers m s src'.a src'.b) start src'.covers) in
      let entries =
        Landed-entry py lawful m m' mig index src.a src.p src.place src.landed
        ∙ ap (λ q. (node_at m q).index) e
        ∙ sym (Landed-entry py lawful m m' mig index src'.a src'.p src'.place src'.landed) in
      let place : src.place ≡ src'.place =
        src.seg.distinct src.place src'.place src.low src.high (omega (arith, src'.low))
          (omega (arith, src'.high))
          (Landed-ne-zero py lawful m m' mig index src.a src.p src.place src.landed)
          (Landed-ne-zero py lawful m m' mig index src'.a src'.p src'.place src'.landed) entries in
      sym src.there ∙ ap (λ (t : ℕ). t % size_of m') place ∙ src'.there
