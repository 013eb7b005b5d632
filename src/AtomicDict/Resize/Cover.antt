-- ===== src/AtomicDict/Resize/Cover.antt =====
-- The stretches of the blocks are disjoint, and together they are the whole index (resize.c).
use cereggii.Common.{
  ℕ, zero, suc, ◌+◌, ◌-◌, ◌*◌, ◌/◌, ◌%◌, ◌≤◌, ◌<◌, ◌≡◌, ◌≢◌, ◌⊎◌, inl, inr, refl, sym, ap, ◌∙◌,
  arith, Bool-cases,
}
use mathlib.Core.Path.{subst}
use native.Mathlib.Nat.{add-mod_right}
use native.Mathlib.Decide.{dec_lt, ℕ_discrete}
use cereggii.AtomicDict.Runtime.{Runtime, IsLawful, Meta, size_of}
use cereggii.AtomicDict.Node.{is_empty}
use cereggii.AtomicDict.Index.{node_at}
use cereggii.AtomicDict.Resize.{block_end, blockwise_migrate_size}
use cereggii.AtomicDict.Resize.Clear.{word_at}
use cereggii.AtomicDict.Resize.Target.{double}
use cereggii.AtomicDict.Resize.Segment.{IsMigration, IsSegment, IsSegment-keep}
use cereggii.AtomicDict.Resize.Block.{IsFreeAt, IsUsedAt, AllUsed, Covers, Beside}

-- The blocks start at the multiples of their size.
abbrev pub IsBlock : ℕ → Type 0
IsBlock start = (c : ℕ) × (start ≡ blockwise_migrate_size * c)

pub block_end-le : (m : Meta) (s t : ℕ) → IsBlock s → IsBlock t → s < t → block_end m s ≤ t
block_end-le m s t (c, e) (d, f) lt =
    let near : s + blockwise_migrate_size ≤ t = omega arith in ground arith

pub block_end-le_size : (m : Meta) (s : ℕ) → block_end m s ≤ size_of m
block_end-le_size m s = ground arith

pub lt-block_end :
    (m : Meta) (s x : ℕ) → x < s + blockwise_migrate_size → x < size_of m → x < block_end m s
lt-block_end m s x near lt = ground arith

module _ (m : Meta) where
  pub clash : (p : ℕ) → IsFreeAt m p → IsUsedAt m p → ⊥
  clash p free used = cc (free, used)

  pub round :
      (p : ℕ)
      → is_empty (node_at m ((p + size_of m) % size_of m)) ≡ is_empty (node_at m (p % size_of m))
  round p = ap (λ q. is_empty (node_at m q)) (add-mod_right p (size_of m))

  -- What two blocks cover follows one another, and does not meet on the other side either.
  pub Covers-apart :
      {s t a b a' b' : ℕ}
      → IsBlock s
      → IsBlock t
      → s < t
      → Covers m s a b
      → Covers m t a' b'
      → (b ≤ a') × (b' ≤ a + size_of m)
  Covers-apart {s} {t} {a} {b} {a'} {b'} is is' lt c c' =
      let end = block_end-le m s t is is' lt in
      let top = block_end-le_size m t in
      (
        elim (dec_lt a' b) [
          | yes over ↦ absurd (clash a' c'.first (c.crossing a' (omega (arith, c'.from)) over))
          | no fine ↦ omega arith
        ],
        elim (dec_lt (a + size_of m) b') [
          | yes over ↦ absurd (
              clash (a + size_of m) (round a ∙ c.first)
                (c'.crossing (a + size_of m) (omega arith) over))
          | no fine ↦ omega arith
        ],
      )

  pub Covers-same : {s a b a' b' : ℕ} → Covers m s a b → Covers m s a' b' → (a ≡ a') × (b ≡ b')
  Covers-same {s} {a} {b} {a'} {b'} c c' = (
    elim (dec_lt a a') [
      | yes less ↦ absurd (clash a c.first (c'.leading a c.from less))
      | no ge ↦ elim (dec_lt a' a) [
        | yes less ↦ absurd (clash a' c'.first (c.leading a' c'.from less))
        | no le ↦ omega arith
      ]
    ],
    elim (dec_lt b b') [
      | yes less ↦ absurd (clash b c.last (c'.crossing b c.beyond less))
      | no ge ↦ elim (dec_lt b' b) [
        | yes less ↦ absurd (clash b' c'.last (c.crossing b' c'.beyond less))
        | no le ↦ omega arith
      ]
    ],
  )

  -- The last empty slot up to a place.
  last_free :
      (n e : ℕ)
      → e ≤ n
      → IsFreeAt m e
      → (x : ℕ) × (x ≤ n) × IsFreeAt m x × AllUsed m (x + 1) (n + 1)
  last_free zero e le free = (e, le, free, λ p ge lt. absurd (omega arith))
  last_free (suc n) e le free = elim (Bool-cases (is_empty (node_at m (suc n % size_of m)))) [
    | inl here ↦ (suc n, omega arith, here, λ p ge lt. absurd (omega arith))
    | inr used ↦
        let ne : e ≢ suc n = λ same. clash (suc n) (subst (λ q. IsFreeAt m q) same free) used in
        let (x, le', free', all) = last_free n e (omega arith) free in
        (
          x,
          omega arith,
          free',
          λ p ge lt. elim (ℕ_discrete p (suc n)) [
            | yes same ↦ subst (λ q. IsUsedAt m q) (sym same) used
            | no other ↦ all p ge (omega arith)
          ],
        )
  ]

  -- For every slot, an empty one in the index before it, or up to a round before it, with only slots
  -- in use between.
  back :
      (q e : ℕ)
      → q < size_of m
      → e < size_of m
      → IsFreeAt m e
      → (p : ℕ) × (x : ℕ) × ((p ≡ q) ⊎ (p ≡ q + size_of m))
        × (x ≤ p)
        × (x < size_of m)
        × IsFreeAt m x
        × AllUsed m (x + 1) (p + 1)
  back q e lt within free =
      let n = size_of m in
      let (x, le, free', all) = last_free (q + n) e (omega arith) free in
      elim (dec_lt x n) [
        | yes low ↦ (q + n, x, inr refl, le, low, free', all)
        | no high ↦
            let same : x ≡ x - n + n = omega arith in
            (
              q,
              x - n,
              inl refl,
              omega arith,
              omega arith,
              sym (round (x - n)) ∙ subst (λ y. IsFreeAt m y) same free',
              λ p ge lt'. sym (round p) ∙ all (p + n) (omega arith) (omega arith),
            )
      ]

  -- If each block is full or covers a stretch, each slot is in one of these.
  pub slot_covered :
      (Done : ℕ → ℕ → Type 0)
      → ((s : ℕ)
          → IsBlock s
          → s < size_of m
          → AllUsed m s (block_end m s) ⊎ ((a : ℕ) × (b : ℕ) × Covers m s a b × Done a b))
      → (q e : ℕ) → q < size_of m
      → e < size_of m
      → IsFreeAt m e
      → (s : ℕ) × (a : ℕ) × (b : ℕ) × IsBlock s
        × Covers m s a b
        × Done a b
        × (p : ℕ) × ((p ≡ q) ⊎ (p ≡ q + size_of m))
        × (a ≤ p)
        × (p < b)
  slot_covered Done done q e lt within free =
      let (p, x, is, le, low, free', used) = back q e lt within free in
      let s = blockwise_migrate_size * (x / blockwise_migrate_size) in
      let inside : x < block_end m s = lt-block_end m s x (omega arith) low in
      elim (done s (x / blockwise_migrate_size, refl) (omega arith)) [
        | inl full ↦ absurd (clash x free' (full x (omega arith) inside))
        | inr (a, b, c, d) ↦ (
          s,
          a,
          b,
          (x / blockwise_migrate_size, refl),
          c,
          d,
          p,
          is,
          elim (dec_lt x a) [
            | yes before ↦ absurd (clash x free' (c.leading x (omega arith) before))
            | no from ↦ omega arith
          ],
          elim (dec_lt p b) [
            | yes fine ↦ fine
            | no over ↦ absurd (clash b c.last (used b (omega (arith, c.beyond)) (omega arith)))
          ],
        )
      ]

module _ (py : Runtime) (lawful : IsLawful py) (m m' : Meta) (mig : IsMigration py m m') where
  -- A change beside a stretch keeps another one's segment, here or a round on.
  keep_shifted :
      (a b a' b' shift : ℕ) (index index' : ℕ → ℕ)
      → ((f : ℕ → ℕ) (x : ℕ) → word_at m' f (x + 2 * shift) ≡ word_at m' f x)
      → b ≤ a' + shift
      → b' + shift ≤ a + size_of m
      → Beside py lawful m m' mig a b index index'
      → IsSegment py m m' index a' b'
      → IsSegment py m m' index' a' b'
  keep_shifted a b a' b' shift index index' turn after before beside seg =
      let twice = double m m' mig.grown in
      let same : (x : ℕ)
          → 2 * a' ≤ x
          → x < 2 * b'
          → (word_at m' index' x ≡ word_at m' index x)
            ⊎ ((word_at m' index' x ≡ 0) × (x < 2 * a' + 2)) =
        λ x ge lt. elim (beside (x + 2 * shift) (omega arith) (omega arith)) [
          | inl e ↦ inl (sym (turn index' x) ∙ e ∙ turn index x)
          | inr (z, low) ↦ inr (sym (turn index' x) ∙ z, omega arith)
        ] in
      IsSegment-keep py lawful m m' mig index index' a' b'
        (λ x ge lt. elim (same x (omega arith) lt) [
          | inl e ↦ e
          | inr (z, low) ↦ absurd (omega arith)
        ])
        (λ x ge low lt. elim (same x ge lt) [ inl e ↦ inl e | inr (z, _) ↦ inr z ]) seg

  -- Migrating one block keeps the segment of every other.
  pub other_block :
      (s t a b a' b' : ℕ) (index index' : ℕ → ℕ)
      → IsBlock s
      → IsBlock t
      → s ≢ t
      → Covers m s a b
      → Covers m t a' b'
      → Beside py lawful m m' mig a b index index'
      → IsSegment py m m' index a' b'
      → IsSegment py m m' index' a' b'
  other_block s t a b a' b' index index' is is' ne c c' beside seg = elim (dec_lt s t) [
    | yes before ↦
        let (after, round') = Covers-apart m is is' before c c' in
        keep_shifted a b a' b' 0 index index'
          (λ f x. ap (λ y. word_at m' f y) {x = x + 2 * 0} {y = x} (omega arith)) (omega arith)
          (omega arith) beside seg
    | no after ↦
        let (before, round') = Covers-apart m is' is (omega arith) c' c in
        keep_shifted a b a' b' (size_of m) index index'
          (λ f x.
            ap (λ y. word_at m' f y) {x = x + 2 * size_of m} {y = x + size_of m'}
              (omega (arith, double m m' mig.grown))
            ∙ ap f (add-mod_right x (size_of m')))
          (omega arith) (omega arith) beside seg
  ]
