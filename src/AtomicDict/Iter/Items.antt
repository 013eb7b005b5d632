-- ===== src/AtomicDict/Iter/Items.antt =====
-- What the rounds of an iteration meet, page by page (src/cereggii/atomic_dict/iter.c).
use cereggii.Common.{
  ℕ, zero, suc, ◌+◌, ◌-◌, ◌*◌, ◌/◌, ◌%◌, ◌^◌, ◌≤◌, ◌<◌, true, false, List, [], ◌++◌, if◌then◌else◌,
  ltb, ◌≡◌, ◌≢◌, refl, sym, ap, ◌∙◌, arith, Bool-cases, inl, inr,
}
use cereggii.Common.Bits.{ring_injective}
use native.Mathlib.Nat.{add-mod_right, mod-eq_of_lt}
use mathlib.Core.List.{append-nil, append_assoc}
use native.Mathlib.Decide.{dec_lt}
use cereggii.AtomicDict.Runtime.{Object, Meta}
use cereggii.AtomicDict.Pages.{page_of}
use cereggii.AtomicDict.Iter.{next_position}
use cereggii.AtomicDict.Iter.Pages.{here, entries_from, pages_from, skip_others, take_page}
use cereggii.AtomicDict.Iter.Positions.{next_within, next_page}

module _ (m : Meta) (partitions gap : ℕ) (some_partition : 1 ≤ partitions)
    (few : partitions < 2 ^ 24) (fits : gap < 2 ^ 56) where
  abbrev pub top : ℕ
  top = (gap + 1) * 128

  -- The items that the rounds from a position on meet.
  abbrev pub scan : ℕ → ℕ → List (Object × Object)
  scan zero position = []
  scan (suc rounds) position =
      if ltb gap (page_of position)
      then []
      else here m position ++ scan rounds (next_position partitions position)

  pub increases :
      (position : ℕ) → page_of position ≤ gap → position < next_position partitions position
  unfolding page_of
  increases position page =
      let q = position / 128 in
      let i = position % 128 in
      elim (dec_lt i 127) [
        | yes lt ↦
            let e : next_position partitions position ≡ q * 128 + (i + 1) =
              ap (next_position partitions) {x = position} {y = q * 128 + i} (omega arith)
              ∙ next_within partitions some_partition few q i lt in
            omega (arith, e)
        | no last ↦
            let e : next_position partitions position ≡ (q + partitions) * 128 =
              ap (next_position partitions) {x = position} {y = q * 128 + 127} (omega arith)
              ∙ next_page partitions some_partition few q (omega arith) in
            omega (arith, e)
      ]

  past : (position : ℕ) → top ≤ position → ltb gap (page_of position) ≡ true
  unfolding page_of
  past position h = let far : gap < position / 128 = omega arith in ground (arith, far)

  pub scan_enough :
      (r r' position : ℕ)
      → top ≤ position + r
      → top ≤ position + r'
      → scan r position ≡ scan r' position
  scan_enough zero zero position h h' = refl
  scan_enough zero (suc r') position h h' =
      let out = past position (omega arith) in
      sym (
        ap (λ b. if b then [] else here m position ++ scan r' (next_position partitions position))
          out)
  scan_enough (suc r) zero position h h' =
      let out = past position (omega arith) in
      ap (λ b. if b then [] else here m position ++ scan r (next_position partitions position)) out
  scan_enough (suc r) (suc r') position h h' = elim (Bool-cases (ltb gap (page_of position))) [
    | inl out ↦
        ap (λ b. if b then [] else here m position ++ scan r (next_position partitions position))
          out
        ∙ sym (
            ap
              (λ b.
                if b then [] else here m position ++ scan r' (next_position partitions position))
              out)
    | inr within ↦
        let page : page_of position ≤ gap = ground (arith, within) in
        let up = increases position page in
        ap (λ l. if ltb gap (page_of position) then [] else here m position ++ l)
          (scan_enough r r' (next_position partitions position) (omega (arith, up))
            (omega (arith, up)))
  ]

  abbrev pub items_from : ℕ → List (Object × Object)
  items_from position = scan top position

  pub items_past : (position : ℕ) → gap < page_of position → items_from position ≡ []
  unfolding page_of
  items_past position h = scan_enough top 0 position (omega arith) (omega arith)

  pub items_step :
      (position : ℕ)
      → page_of position ≤ gap
      → items_from position ≡ here m position ++ items_from (next_position partitions position)
  items_step position page =
      let within : ltb gap (page_of position) ≡ false = ground arith in
      scan_enough top (suc top) position (omega arith) (omega arith)
      ∙ ap (λ b. if b then [] else here m position ++ scan top (next_position partitions position))
          within

  -- The rest of a page, then the next page of the partition.
  items_rest :
      (n page : ℕ)
      → page ≤ gap
      → n ≤ 127
      → items_from (page * 128 + (127 - n))
        ≡ entries_from m (suc n) (page * 128 + (127 - n)) ++ items_from ((page + partitions) * 128)
  unfolding page_of
  items_rest zero page low small =
      items_step (page * 128 + 127) (omega arith)
      ∙ ap (λ (t : ℕ). here m (page * 128 + 127) ++ items_from t)
          (next_page partitions some_partition few page (omega arith))
      ∙ ap (λ l. l ++ items_from ((page + partitions) * 128))
          (sym (append-nil (here m (page * 128 + 127))))
  items_rest (suc n) page low small =
      let position = page * 128 + (127 - suc n) in
      let ahead : page * 128 + (127 - suc n + 1) ≡ page * 128 + (127 - n) = omega arith in
      let after : page * 128 + (127 - n) ≡ position + 1 = omega arith in
      items_step position (omega arith)
      ∙ ap (λ (t : ℕ). here m position ++ items_from t)
          (next_within partitions some_partition few page (127 - suc n) (omega arith) ∙ ahead)
      ∙ ap (λ l. here m position ++ l) (items_rest n page low (omega arith))
      ∙ ap
          (λ (t : ℕ).
            here m position ++ (entries_from m (suc n) t ++ items_from ((page + partitions) * 128)))
          after
      ∙ sym (
          append_assoc (here m position) (entries_from m (suc n) (position + 1))
            (items_from ((page + partitions) * 128)))

  items_page :
      (page : ℕ)
      → page ≤ gap
      → items_from (page * 128)
        ≡ entries_from m 128 (page * 128) ++ items_from ((page + partitions) * 128)
  items_page page low =
      let start : page * 128 ≡ page * 128 + (127 - 127) = omega arith in
      ap (λ (t : ℕ). items_from t) start
      ∙ items_rest 127 page low (omega arith)
      ∙ ap (λ (t : ℕ). entries_from m 128 t ++ items_from ((page + partitions) * 128)) (sym start)

  module _ (this : ℕ) (in_range : this < partitions) where
    -- Between two pages of a partition there is none.
    others_between :
        (page i : ℕ)
        → page % partitions ≡ this
        → i < partitions - 1
        → (page + 1 + i) % partitions ≢ this
    others_between page i mine lt e =
        let one_more : (page + (i + 1)) % partitions ≡ (page + 0) % partitions =
          ap (λ (t : ℕ). t % partitions) {x = page + (i + 1)} {y = page + 1 + i} (omega arith)
          ∙ e
          ∙ sym mine
          ∙ ap (λ (t : ℕ). t % partitions) {x = page} {y = page + 0} (omega arith) in
        let zero_steps =
          ring_injective partitions page (i + 1) 0 (omega arith) (omega arith) one_more in
        omega (arith, zero_steps)

    items_pages :
        (fuel n page : ℕ)
        → n ≤ fuel
        → n + page ≡ gap + 1
        → page % partitions ≡ this
        → items_from (page * 128) ≡ pages_from m partitions this n page
    unfolding page_of
    items_pages fuel zero page bound e mine = items_past (page * 128) (omega arith)
    items_pages zero (suc n) page bound e mine = absurd (omega arith)
    items_pages (suc fuel) (suc n) page bound e mine =
        let first = items_page page (omega arith) in
        let from = take_page m partitions this n page mine in
        elim (dec_lt n (partitions - 1)) [
          | yes last ↦
              let skipped =
                skip_others m partitions this n 0 (page + 1)
                  (λ i lt. others_between page i mine (omega arith)) in
              let none_left : pages_from m partitions this n (page + 1) ≡ [] =
                ap (λ (t : ℕ). pages_from m partitions this t (page + 1)) {x = n} {y = n + 0}
                  (omega arith)
                ∙ skipped in
              first
              ∙ ap (λ l. entries_from m 128 (page * 128) ++ l)
                  (items_past ((page + partitions) * 128) (omega arith) ∙ sym none_left)
              ∙ sym from
          | no more ↦
              let left = n - (partitions - 1) in
              let skipped =
                skip_others m partitions this (partitions - 1) left (page + 1)
                  (λ i lt. others_between page i mine lt) in
              let rest : pages_from m partitions this n (page + 1)
                  ≡ pages_from m partitions this left (page + partitions) =
                ap (λ (t : ℕ). pages_from m partitions this t (page + 1)) {x = n}
                  {y = partitions - 1 + left} (omega arith)
                ∙ skipped
                ∙ ap (λ (t : ℕ). pages_from m partitions this left t)
                    {x = page + 1 + (partitions - 1)} {y = page + partitions} (omega arith) in
              first
              ∙ ap (λ l. entries_from m 128 (page * 128) ++ l)
                  (items_pages fuel left (page + partitions) (omega arith) (omega arith)
                      (add-mod_right page partitions ∙ mine)
                    ∙ sym rest)
              ∙ sym from
        ]

    -- From the first page of the partition on.
    pub items_partition : items_from (this * 128) ≡ pages_from m partitions this (gap + 1) 0
    unfolding page_of
    items_partition =
        let others : (i : ℕ) → i < this → (0 + i) % partitions ≢ this = λ i lt e.
          let small : i % partitions ≡ i = mod-eq_of_lt (omega arith) in
          omega
            (arith, small, ap (λ (t : ℕ). t % partitions) {x = 0 + i} {y = i} (omega arith), e) in
        elim (dec_lt (gap + 1) this) [
          | yes beyond ↦
              let none_left =
                skip_others m partitions this (gap + 1) 0 0 (λ i lt. others i (omega arith)) in
              items_past (this * 128) (omega arith)
              ∙ sym (
                  ap (λ (t : ℕ). pages_from m partitions this t 0) {x = gap + 1} {y = gap + 1 + 0}
                    (omega arith)
                  ∙ none_left)
          | no within ↦
              let left = gap + 1 - this in
              items_pages left left this (omega arith) (omega arith) (mod-eq_of_lt in_range)
              ∙ ap (λ (t : ℕ). pages_from m partitions this left t) {x = this} {y = 0 + this}
                  (omega arith)
              ∙ sym (skip_others m partitions this this left 0 others)
              ∙ ap (λ (t : ℕ). pages_from m partitions this t 0) {x = this + left} {y = gap + 1}
                  (omega arith)
        ]
