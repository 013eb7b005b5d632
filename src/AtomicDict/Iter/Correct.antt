-- ===== src/AtomicDict/Iter/Correct.antt =====
-- The partitions of an iteration give each item once (src/cereggii/atomic_dict/iter.c).
use cereggii.Common.{
  ℕ, zero, suc, ◌+◌, ◌-◌, ◌*◌, ◌^◌, ◌≤◌, ◌<◌, Option, none, some, true, false, List, [], ◌∷◌, ◌++◌,
  if◌then◌else◌, ltb, ◌≡◌, ◌⊎◌, refl, sym, ap, ◌∙◌, arith, Bool-cases, Option-cases, inl, inr,
}
use cereggii.Common.Int.{ℤ, pos, negsuc, ◌≤ℤ◌, leb_ℤ, ltb_ℤ}
use mathlib.Core.Path.{subst}
use native.Mathlib.Decide.{dec_lt}
use cereggii.AtomicDict.Runtime.{Object, Entry, Meta}
use cereggii.AtomicDict.Pages.{page_of, get_entry_at, read_entry}
use cereggii.AtomicDict.Iter.{
  Iteration, fast_iter, Next, item_at, next_position, next_loop, next, drain,
}
use cereggii.AtomicDict.Iter.Positions.{entries_of-eq}
use cereggii.AtomicDict.Iter.Pages.{of_fields, pages_from}
use cereggii.AtomicDict.Iter.Items.{
  items_from, increases, scan_enough, items_past, items_step, items_partition,
}

-- Every entry with a value in the allocated pages has a key.
abbrev pub IsKeyed : Meta → ℕ → Type 0
IsKeyed m gap =
    (l value : ℕ)
    → page_of l ≤ gap
    → (get_entry_at l m).value ≡ some value
    → (key : ℕ) × ((get_entry_at l m).key ≡ some key)

module _ (m : Meta) (partitions gap : ℕ) (some_partition : 1 ≤ partitions)
    (few : partitions < 2 ^ 24) (fits : gap < 2 ^ 56) (keyed : IsKeyed m gap) where
  abbrev items : ℕ → List (Object × Object)
  items = items_from m partitions gap some_partition few fits

  abbrev top : ℕ
  top = (gap + 1) * 128

  -- The outcome of a call of `next`: no items are left, or the first of them.
  abbrev Gives : ℕ → List (Object × Object) → Next → Type 0
  Gives position left Next.stop = left ≡ []
  Gives position left (Next.item key value position') =
      (left ≡ (key, value) ∷ items position') × (position < position')
  Gives position left (Next.concurrent_usage_detected position') = ⊥

  Gives-later :
      (position later : ℕ) (left : List (Object × Object)) (r : Next)
      → position < later
      → Gives later left r
      → Gives position left r
  Gives-later position later left Next.stop lt g = g
  Gives-later position later left (Next.item key value position') lt (e, up) = (e, omega arith)
  Gives-later position later left (Next.concurrent_usage_detected position') lt g = absurd g

  fields_Gives :
      (position after : ℕ) (value key : Option Object) (rest : Next)
      → position < after
      → ((v : ℕ) → value ≡ some v → (k : ℕ) × (key ≡ some k))
      → Gives after (items after) rest
      → Gives position
          (of_fields m value key ++ items after)
          (item_at m partitions value key after rest)
  fields_Gives position after none key rest lt keys g =
      Gives-later position after (items after) rest lt g
  fields_Gives position after (some v) none rest lt keys g =
      let (k, e) = keys v refl in absurd (cc e)
  fields_Gives position after (some v) (some k) rest lt keys g = (refl, lt)

  read_same : (e : Entry) (v : Object) → e.value ≡ some v → read_entry e ≡ e
  unfolding read_entry
  read_same e v is =
      ap
        (λ o. elim o [
          | none ↦ record e { hash = 2 ^ 64 - 1; key = none; value = none }
          | some _ ↦ e
        ])
        is

  -- A reader's copy has the same item.
  read_item :
      (e : Entry) (position : ℕ) (rest : Next)
      → item_at m partitions (read_entry e).value (read_entry e).key position rest
        ≡ item_at m partitions e.value e.key position rest
  unfolding read_entry
  read_item e position rest = elim (Option-cases e.value) [
    | inl missing ↦ rw (read_entry, missing) refl
    | inr (v, is) ↦ ap (λ x. item_at m partitions x.value x.key position rest) (read_same e v is)
  ]

  next_Gives :
      (rounds position : ℕ)
      → top ≤ position + rounds
      → Gives position (items position) (next_loop m partitions gap rounds position)
  unfolding next_loop
  next_Gives zero position h =
      scan_enough m partitions gap some_partition few fits top 0 position (omega arith)
        (omega arith)
  next_Gives (suc rounds) position h =
      let after = next_position partitions position in
      let rest = next_loop m partitions gap rounds after in
      let seen =
        item_at m partitions (read_entry (get_entry_at position m)).value
          (read_entry (get_entry_at position m)).key after rest in
      elim (Bool-cases (ltb gap (page_of position))) [
        | inl out ↦
            let far : gap < page_of position = ground (arith, out) in
            subst (Gives position (items position))
              (sym (ap (λ b. if b then Next.stop else seen) out))
              (items_past m partitions gap some_partition few fits position far)
        | inr within ↦
            let page : page_of position ≤ gap = ground (arith, within) in
            let up = increases m partitions gap some_partition few fits position page in
            let e = get_entry_at position m in
            subst (Gives position (items position))
              (sym (ap (λ b. if b then Next.stop else seen) within ∙ read_item e after rest))
              (subst (λ l. Gives position l (item_at m partitions e.value e.key after rest))
                (sym (items_step m partitions gap some_partition few fits position page))
                (fields_Gives position after e.value e.key rest up
                  (λ v is. keyed position v page is) (next_Gives rounds after (omega (arith, up)))))
      ]

  -- What a loop does with the outcome of `next`.
  abbrev after_next : ℕ → Next → Option (List (Object × Object))
  after_next calls r = elim r [
    | Next.stop ↦ some []
    | Next.concurrent_usage_detected _ ↦ none
    | Next.item key value position' ↦ elim (drain m partitions calls position') [
      | none ↦ none
      | some rest ↦ some ((key, value) ∷ rest)
    ]
  ]

  drain_next :
      (calls position : ℕ)
      → top - position < suc calls
      → ((position' : ℕ)
          → top - position' < calls
          → drain m partitions calls position' ≡ some (items position'))
      → (r : Next) → Gives position (items position) r
      → after_next calls r ≡ some (items position)
  unfolding page_of
  drain_next calls position h later Next.stop g = ap some (sym g)
  drain_next calls position h later (Next.concurrent_usage_detected position') g = absurd g
  drain_next calls position h later (Next.item key value position') (e, up) =
      elim (dec_lt position top) [
        | yes inside ↦
            ap (λ o. elim o [ none ↦ none | some rest ↦ some ((key, value) ∷ rest) ])
              (later position' (omega arith))
            ∙ ap some (sym e)
        | no out ↦
            absurd
              (cc (e, items_past m partitions gap some_partition few fits position (omega arith)))
      ]

  drain-items :
      m.greatest_allocated_page ≡ pos gap
      → (calls position : ℕ) → top - position < calls
      → drain m partitions calls position ≡ some (items position)
  unfolding drain next
  drain-items is zero position h = absurd (omega arith)
  drain-items is (suc calls) position h =
      ap
        (λ g. after_next calls (elim g [
          | negsuc _ ↦ Next.stop
          | pos gap' ↦ next_loop m partitions gap' ((gap' + 1) * 128) position
        ]))
        is
      ∙ drain_next calls position h (drain-items is calls) _
          (next_Gives ((gap + 1) * 128) position (omega arith))

-- The iteration of one partition.
drain-pages_from :
    (m : Meta) (partitions this gap : ℕ)
    → this < partitions
    → partitions < 2 ^ 24
    → m.greatest_allocated_page ≡ pos gap
    → gap < 2 ^ 56
    → IsKeyed m gap
    → (calls : ℕ) → (gap + 1) * 128 < calls
    → drain m partitions calls (this * 128) ≡ some (pages_from m partitions this (gap + 1) 0)
drain-pages_from m partitions this gap in_range few is fits keyed calls h =
    drain-items m partitions gap (omega arith) few fits keyed is calls (this * 128) (omega arith)
    ∙ ap some (items_partition m partitions gap (omega arith) few fits this in_range)

-- How `fast_iter` ends, by its arguments.
abbrev pub Iterates : Meta → ℕ → ℤ → ℤ → Iteration → Type 0
Iterates m gap partitions this_partition Iteration.partitions_not_positive = partitions ≤ℤ pos 0
Iterates m gap partitions this_partition Iteration.not_in_range =
    (this_partition ≤ℤ negsuc 0) ⊎ (partitions ≤ℤ this_partition)
Iterates m gap partitions this_partition (Iteration.iterator iter) =
    (n : ℕ) × (this : ℕ) × (partitions ≡ pos n)
    × (this_partition ≡ pos this)
    × (this < n)
    × ((calls : ℕ)
        → (gap + 1) * 128 < calls
        → drain m iter.partitions calls iter.position ≡ some (pages_from m n this (gap + 1) 0))

-- With pages allocated up to `gap`, where each entry with a value has a key, and fewer than 2 ^ 24
-- partitions: `fast_iter` refuses a number of
-- partitions that is not positive, and then a partition that is negative or not below that number. Otherwise
-- the iteration ends, and gives exactly the items of the pages whose number leaves the
-- partition's number as the remainder, page by page and entry by entry, each once. So each page is
-- in exactly one of the partitions.
pub fast_iter-Iterates :
    (m : Meta) (gap : ℕ)
    → m.greatest_allocated_page ≡ pos gap
    → gap < 2 ^ 56
    → IsKeyed m gap
    → (partitions this_partition : ℤ) → ltb_ℤ partitions (pos (2 ^ 24)) ≡ true
    → Iterates m gap partitions this_partition (fast_iter partitions this_partition)
unfolding fast_iter
fast_iter-Iterates m gap is fits keyed (negsuc n) t few =
    let refused : leb_ℤ (negsuc n) (pos 0) ≡ true = ground arith in rw refused (omega arith)
fast_iter-Iterates m gap is fits keyed (pos n) (negsuc t) few =
    elim (Bool-cases (leb_ℤ (pos n) (pos 0))) [
      | inl refused ↦ rw refused (ground (arith, refused))
      | inr some_partition ↦
          let negative : ltb_ℤ (negsuc t) (pos 0) ≡ true = ground arith in
          rw (some_partition, negative) (inl (omega arith))
    ]
fast_iter-Iterates m gap is fits keyed (pos n) (pos t) few =
    elim (Bool-cases (leb_ℤ (pos n) (pos 0))) [
      | inl refused ↦ rw refused (ground (arith, refused))
      | inr some_partition ↦
          let positive : ltb_ℤ (pos t) (pos 0) ≡ false = ground arith in
          elim (Bool-cases (leb_ℤ (pos n) (pos t))) [
            | inl beyond ↦ rw (some_partition, positive, beyond) (inr (ground (arith, beyond)))
            | inr within ↦
                let lt : t < n = ground (arith, within) in
                let bound : n < 2 ^ 24 = ground (arith, few) in
                rw (some_partition, positive, within, entries_of-eq t (omega (arith, lt, bound)))
                  (n, t, refl, refl, lt, drain-pages_from m n t gap lt bound is fits keyed)
          ]
    ]
