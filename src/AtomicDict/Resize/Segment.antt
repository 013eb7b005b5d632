-- ===== src/AtomicDict/Resize/Segment.antt =====
-- A stretch of the old index whose nodes are in the new one (resize.c). Places are counted on past
-- the end of an index; to the slot at a place `p` of the old index belong the places `2 * p` and
-- `2 * p + 1` of the new one.
use cereggii.Common.{
  ℕ, ◌+◌, ◌-◌, ◌*◌, ◌/◌, ◌%◌, ◌^◌, ◌≤◌, ◌<◌, ◌≡◌, ◌≢◌, ◌⊎◌, inl, inr, sym, ap, ◌∙◌, min, arith,
  bit_and,
}
use native.Mathlib.Nat.{one-le-pow, div-lt_iff_lt-mul}
use native.Mathlib.Decide.{dec_lt}
use cereggii.AtomicDict.Runtime.{Runtime, IsLawful, Meta, size_of}
use cereggii.AtomicDict.Node.{distance0_of, parse_node_from_raw, tag_mask}
use cereggii.AtomicDict.Node.Encoding.{parse-compute, whole_word, low_part}
use cereggii.AtomicDict.Pages.{get_entry_at}
use cereggii.AtomicDict.Index.{node_at, entry_at, IsLive, IsIndexed}
use cereggii.AtomicDict.Resize.Clear.{word_at}
use cereggii.AtomicDict.Resize.Probe.{word_of}
use cereggii.AtomicDict.Resize.Target.{double}

-- A migration: to a table of twice the size, whose pages hold the entries of the old one.
pub record IsMigration (py : Runtime) (m m' : Meta) : Type 0 where
  pub good : IsIndexed py m
  pub grown : m'.log_size ≡ m.log_size + 1
  pub small : m.log_size < 30
  pub entries : (q : ℕ) → IsLive m q → get_entry_at (node_at m q).index m' ≡ entry_at m q

module _ (py : Runtime) (m m' : Meta) where
  -- The node of the old slot `p` is in the new place `place`, and every place on the way from the first
  -- one of its hash is in use.
  pub record Landed (index : ℕ → ℕ) (empty p place : ℕ) : Type 0 where
    pub live : IsLive m (p % size_of m)
    pub first : ℕ
    pub steps : ℕ
    pub there : first + steps ≡ place
    pub after : 2 * empty + 2 ≤ first
    pub before : place < 2 * p + 2
    pub home : first % size_of m' ≡ distance0_of py (entry_at m (p % size_of m)).hash m'
    pub word : word_at m' index place ≡ word_of m' (node_at m (p % size_of m)) steps
    pub chain : (j : ℕ) → j < steps → word_at m' index (first + j) ≢ 0

  abbrev pub entry_of : ℕ → ℕ
  entry_of word = (parse_node_from_raw word m').index

  -- From the empty slot at `a` up to `b`, each live node is in a place, each place in use comes from
  -- one, and no two places point to one entry.
  pub record IsSegment (index : ℕ → ℕ) (a b : ℕ) : Type 0 where
    pub lands :
        (p : ℕ) → a ≤ p → p < b → IsLive m (p % size_of m) → (place : ℕ) × Landed index a p place
    pub comes :
        (place : ℕ)
        → 2 * a ≤ place
        → place < 2 * b
        → word_at m' index place ≢ 0
        → (p : ℕ) × (a ≤ p) × (p < b) × Landed index a p place
    pub distinct :
        (x y : ℕ)
        → 2 * a ≤ x
        → x < 2 * b
        → 2 * a ≤ y
        → y < 2 * b
        → word_at m' index x ≢ 0
        → word_at m' index y ≢ 0
        → entry_of (word_at m' index x) ≡ entry_of (word_at m' index y)
        → x ≡ y

module _ (py : Runtime) (lawful : IsLawful py) (m m' : Meta) (mig : IsMigration py m m') where
  -- Two live slots share no entry.
  pub own_entry :
      (p q : ℕ) → IsLive m p → IsLive m q → (node_at m p).index ≡ (node_at m q).index → p ≡ q
  own_entry p q live live' e =
      let place = mig.good.placed p live in
      let same : entry_at m p ≡ entry_at m q = ap (λ i. get_entry_at i m) e in
      mig.good.unique p q place.key place.value place.value
        (record {
          live = live;
          stored_key = place.key;
          has_key = place.has_key;
          equal = lawful.eq_refl place.key;
          has_value = place.has_value;
        })
        (record {
          live = live';
          stored_key = place.key;
          has_key = sym (ap (λ x. x.key) same) ∙ place.has_key;
          equal = lawful.eq_refl place.key;
          has_value = sym (ap (λ x. x.value) same) ∙ place.has_value;
        })

  pub index_fits : (q : ℕ) → q < size_of m → (node_at m q).index < size_of m'
  unfolding parse_node_from_raw
  index_fits q lt =
      let old : m.index q / 2 ^ (64 - m.log_size) < size_of m =
        (div-lt_iff_lt-mul (one-le-pow (64 - m.log_size) 2 (omega arith))).1 (
          rw (low_part m (omega (arith, mig.small)), whole_word m (omega (arith, mig.small)))
            (mig.good.words q lt)) in
      omega (arith, double m m' mig.grown)

  -- A node in its new place reads back with its entry, its tag and the distance.
  pub word_back :
      (q : ℕ)
      → q < size_of m
      → (k : ℕ)
      → let back = parse_node_from_raw (word_of m' (node_at m q) k) m' in
        (back.index ≡ (node_at m q).index)
        × (back.tag ≡ bit_and ((node_at m q).tag) (tag_mask m'))
        × (back.distance ≡ min k 255)
  word_back q lt k =
      parse-compute m' (omega (arith, mig.grown, mig.small)) (record (node_at m q) { distance = k })
        (index_fits q lt)

  pub live_index : (q : ℕ) → IsLive m q → (node_at m q).index ≢ 0
  live_index q live e = ground (arith, live.filled, live.kept)

  pub word-ne-zero : (q : ℕ) → IsLive m q → (k : ℕ) → word_of m' (node_at m q) k ≢ 0
  unfolding parse_node_from_raw
  word-ne-zero q live k e = live_index q live (
      sym (word_back q live.within k).0
      ∙ ap (λ (t : ℕ). t / 2 ^ (64 - m'.log_size)) e
      ∙ omega arith)

  pub Landed-ne-zero :
      (index : ℕ → ℕ) (a p place : ℕ) → Landed py m m' index a p place → word_at m' index place ≢ 0
  Landed-ne-zero index a p place l e = word-ne-zero (p % size_of m) l.live l.steps (sym l.word ∙ e)

  pub Landed-entry :
      (index : ℕ → ℕ) (a p place : ℕ)
      → Landed py m m' index a p place
      → entry_of py m m' (word_at m' index place) ≡ (node_at m (p % size_of m)).index
  Landed-entry index a p place l =
      ap (λ w. entry_of py m m' w) l.word ∙ (word_back (p % size_of m) l.live.within l.steps).0

  -- What is in use stays: so do the nodes that landed.
  pub Landed-keep :
      (index index' : ℕ → ℕ) (a p place : ℕ)
      → ((x : ℕ)
          → 2 * a + 2 ≤ x
          → x ≤ place
          → word_at m' index x ≢ 0
          → word_at m' index' x ≡ word_at m' index x)
      → Landed py m m' index a p place
      → Landed py m m' index' a p place
  Landed-keep index index' a p place same l = record {
    live = l.live;
    first = l.first;
    steps = l.steps;
    there = l.there;
    after = l.after;
    before = l.before;
    home = l.home;
    word =
        same place (omega (arith, l.after, l.there)) (omega arith)
          (Landed-ne-zero index a p place l)
        ∙ l.word;
    chain = λ j lt z. l.chain j lt (
        sym (same (l.first + j) (omega (arith, l.after)) (omega (arith, l.there)) (l.chain j lt))
        ∙ z);
  }

  -- A segment stays where words beside it change, or the two that belong to its first slot are
  -- cleared.
  pub IsSegment-keep :
      (index index' : ℕ → ℕ) (a b : ℕ)
      → ((x : ℕ) → 2 * a + 2 ≤ x → x < 2 * b → word_at m' index' x ≡ word_at m' index x)
      → ((x : ℕ)
          → 2 * a ≤ x
          → x < 2 * a + 2
          → x < 2 * b
          → (word_at m' index' x ≡ word_at m' index x) ⊎ (word_at m' index' x ≡ 0))
      → IsSegment py m m' index a b
      → IsSegment py m m' index' a b
  IsSegment-keep index index' a b same edge s =
      let moved : (p place : ℕ)
          → p < b
          → Landed py m m' index a p place
          → Landed py m m' index' a p place =
        λ p place lt l.
          Landed-keep index index' a p place (λ x ge le used. same x ge (omega (arith, l.before)))
            l in
      let used : (x : ℕ)
          → 2 * a ≤ x
          → x < 2 * b
          → word_at m' index' x ≢ 0
          → word_at m' index' x ≡ word_at m' index x =
        λ x ge lt ne. elim (dec_lt x (2 * a + 2)) [
          | yes low ↦ elim (edge x ge low lt) [ inl e ↦ e | inr z ↦ absurd (ne z) ]
          | no high ↦ same x (omega arith) lt
        ] in
      record {
        lands =
            λ p ge lt live. let (place, l) = s.lands p ge lt live in (place, moved p place lt l);
        comes = λ place ge lt ne.
            let (p, from, to, l) = s.comes place ge lt (λ z. ne (used place ge lt ne ∙ z)) in
            (p, from, to, moved p place to l);
        distinct = λ x y gx lx gy ly nx ny e.
            let ex = used x gx lx nx in
            let ey = used y gy ly ny in
            s.distinct x y gx lx gy ly (λ z. nx (ex ∙ z)) (λ z. ny (ey ∙ z))
              (ap (λ w. entry_of py m m' w) (sym ex) ∙ e ∙ ap (λ w. entry_of py m m' w) ey);
      }
