-- ===== src/AtomicDict/Resize/Slots.antt =====
-- Migrating the slots of a stretch one after another (resize.c).
use cereggii.Common.{
  ℕ, ◌+◌, ◌*◌, ◌%◌, ◌≤◌, ◌<◌, ◌≡◌, ◌≢◌, ◌⊎◌, inl, inr, refl, sym, ap, ◌∙◌, true, arith, update,
}
use mathlib.Core.Path.{subst}
use native.Mathlib.Decide.{dec_lt, ℕ_discrete}
use cereggii.AtomicDict.Runtime.{Runtime, IsLawful, Meta, size_of}
use cereggii.AtomicDict.Node.{is_empty, distance0_of}
use cereggii.AtomicDict.Index.{node_at, entry_at, IsLive}
use cereggii.AtomicDict.Resize.Clear.{word_at, apart}
use cereggii.AtomicDict.Resize.Probe.{word_of}
use cereggii.AtomicDict.Resize.Target.{double}
use cereggii.AtomicDict.Resize.Segment.{
  IsMigration, Landed, IsSegment, entry_of, own_entry, word_back, Landed-entry, Landed-keep,
}

-- A write of one place, seen in the round from `low` on.
module _ (m : Meta) (index : ℕ → ℕ) (low place word : ℕ) (ge : low ≤ place)
    (lt : place < low + size_of m) where
  abbrev pub written : ℕ → ℕ
  written = update index (place % size_of m) word

  pub written_here : word_at m written place ≡ word
  written_here = ground arith

  pub written_other :
      (x : ℕ) → low ≤ x → x < low + size_of m → x ≢ place → word_at m written x ≡ word_at m index x
  written_other x gx lx ne =
      let differ : place % size_of m ≢ x % size_of m = elim (dec_lt x place) [
        | yes less ↦ λ e. apart (size_of m) x place less (omega arith) (sym e)
        | no more ↦ apart (size_of m) place x (omega arith) (omega arith)
      ] in
      ground (arith, differ)

module _ (py : Runtime) (lawful : IsLawful py) (m m' : Meta) (mig : IsMigration py m m') (a b : ℕ)
    (free : is_empty (node_at m (a % size_of m)) ≡ true) (from : a ≤ b) (near : b < a + size_of m)
    (below : b < 2 * size_of m) (index : ℕ → ℕ) (seg : IsSegment py m m' index a b)
    (clear : (x : ℕ) → 2 * b ≤ x → x < 2 * b + 2 → word_at m' index x ≡ 0) where
  -- A slot that is not live adds nothing.
  pub skip_slot : ¬ IsLive m (b % size_of m) → IsSegment py m m' index a (b + 1)
  skip_slot dead =
      let low : (x : ℕ) → x < 2 * (b + 1) → word_at m' index x ≢ 0 → x < 2 * b = λ x lt ne.
        elim (dec_lt x (2 * b)) [
          | yes below ↦ below
          | no over ↦ absurd (ne (clear x (omega arith) (omega arith)))
        ] in
      record {
        lands = λ p ge lt live. elim (ℕ_discrete p b) [
          | yes e ↦ absurd (dead (subst (λ q. IsLive m (q % size_of m)) e live))
          | no ne ↦ seg.lands p ge (omega arith) live
        ];
        comes = λ place ge lt ne.
            let (p, from', to, l) = seg.comes place ge (low place lt ne) ne in
            (p, from', omega arith, l);
        distinct =
            λ x y gx lx gy ly nx ny e. seg.distinct x y gx (low x lx nx) gy (low y ly ny) nx ny e;
      }

  module _ (live : IsLive m (b % size_of m)) where
    pub round : 2 * b + 2 ≤ 2 * a + size_of m'
    round = omega (arith, double m m' mig.grown)

    pub past : a < b
    past = elim (ℕ_discrete a b) [
      | yes e ↦ absurd (cc (ap (λ p. is_empty (node_at m (p % size_of m))) e, free, live.filled))
      | no ne ↦ omega arith
    ]

    -- A free place for the node, and what is known of the words around it.
    module _ (start k : ℕ) (after : 2 * a + 2 ≤ start) (before : start + k < 2 * b + 2)
        (home : start % size_of m' ≡ distance0_of py (entry_at m (b % size_of m)).hash m')
        (empty : word_at m' index (start + k) ≡ 0)
        (passed : (j : ℕ) → j < k → word_at m' index (start + j) ≢ 0) where
      abbrev pub place : ℕ
      place = start + k

      abbrev pub index' : ℕ → ℕ
      index' =
          written m' index (2 * a) place (word_of m' (node_at m (b % size_of m)) k) (omega arith)
            (omega (arith, round))

      here : word_at m' index' place ≡ word_of m' (node_at m (b % size_of m)) k
      here = written_here m' index (2 * a) place _ (omega arith) (omega (arith, round))

      pub other :
          (x : ℕ)
          → 2 * a ≤ x
          → x < 2 * a + size_of m'
          → x ≢ place
          → word_at m' index' x ≡ word_at m' index x
      other = written_other m' index (2 * a) place _ (omega arith) (omega (arith, round))

      in_use :
          (x : ℕ)
          → 2 * a ≤ x
          → x < 2 * b + 2
          → word_at m' index x ≢ 0
          → word_at m' index' x ≡ word_at m' index x
      in_use x ge lt used =
          other x ge (omega (arith, round)) (λ e. used (ap (λ p. word_at m' index p) e ∙ empty))

      new-Landed : Landed py m m' index' a b place
      new-Landed = record {
        live = live;
        first = start;
        steps = k;
        there = refl;
        after = after;
        before = before;
        home = home;
        word = here;
        chain = λ j lt z.
            passed j lt (sym (in_use (start + j) (omega arith) (omega arith) (passed j lt)) ∙ z);
      }

      old-Landed : (p x : ℕ) → x < 2 * b → Landed py m m' index a p x → Landed py m m' index' a p x
      old-Landed p x lt l =
          Landed-keep py lawful m m' mig index index' a p x
            (λ y ge le used. in_use y (omega arith) (omega arith) used) l

      -- Where a word of the new index was before the write, or that it is the new one.
      origin :
          (x : ℕ)
          → 2 * a ≤ x
          → x < 2 * (b + 1)
          → word_at m' index' x ≢ 0
          → (x ≡ place)
            ⊎ ((x < 2 * b) × (word_at m' index x ≢ 0) × (word_at m' index' x ≡ word_at m' index x))
      origin x ge lt used = elim (ℕ_discrete x place) [
        | yes e ↦ inl e
        | no ne ↦
            let same = other x ge (omega (arith, round)) ne in
            let was : word_at m' index x ≢ 0 = λ z. used (same ∙ z) in
            inr (
              elim (dec_lt x (2 * b)) [
                | yes low ↦ low
                | no over ↦ absurd (was (clear x (omega arith) (omega arith)))
              ],
              was,
              same,
            )
      ]

      -- No word of the segment points to the entry of the new node.
      fresh :
          (x : ℕ)
          → 2 * a ≤ x
          → x < 2 * b
          → word_at m' index x ≢ 0
          → entry_of py m m' (word_at m' index x) ≢ entry_of py m m' (word_at m' index' place)
      fresh x ge lt used e =
          let (p, from', to, l) = seg.comes x ge lt used in
          let mine =
            ap (λ w. entry_of py m m' w) here
            ∙ (word_back py lawful m m' mig (b % size_of m) live.within k).0 in
          let same : p % size_of m ≡ b % size_of m =
            own_entry py lawful m m' mig (p % size_of m) (b % size_of m) l.live live
              (sym (Landed-entry py lawful m m' mig index a p x l) ∙ e ∙ mine) in
          apart (size_of m) p b to (omega arith) same

      pub land_slot : IsSegment py m m' index' a (b + 1)
      land_slot = record {
        lands = λ p ge lt live'. elim (ℕ_discrete p b) [
          | yes e ↦ (place, subst (λ q. Landed py m m' index' a q place) (sym e) new-Landed)
          | no ne ↦
              let (x, l) = seg.lands p ge (omega arith) live' in
              (x, old-Landed p x (omega (arith, l.before)) l)
        ];
        comes = λ x ge lt used. elim (origin x ge lt used) [
          | inl e ↦
              (b, from, omega arith, subst (λ y. Landed py m m' index' a b y) (sym e) new-Landed)
          | inr (low, was, same) ↦
              let (p, from', to, l) = seg.comes x ge low was in
              (p, from', omega arith, old-Landed p x low l)
        ];
        distinct = λ x y gx lx gy ly nx ny e. elim (origin x gx lx nx) [
          | inl ex ↦ elim (origin y gy ly ny) [
            | inl ey ↦ ex ∙ sym ey
            | inr (low, was, same) ↦ absurd (
                fresh y gy low was (
                  ap (λ w. entry_of py m m' w) (sym same)
                  ∙ sym e
                  ∙ ap (λ p. entry_of py m m' (word_at m' index' p)) ex))
          ]
          | inr (low, was, same) ↦ elim (origin y gy ly ny) [
            | inl ey ↦ absurd (
                fresh x gx low was (
                  ap (λ w. entry_of py m m' w) (sym same)
                  ∙ e
                  ∙ ap (λ p. entry_of py m m' (word_at m' index' p)) ey))
            | inr (low', was', same') ↦
                seg.distinct x y gx low gy low' was was'
                  (ap (λ w. entry_of py m m' w) (sym same) ∙ e ∙ ap (λ w. entry_of py m m' w) same')
          ]
        ];
      }
