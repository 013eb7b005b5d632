-- ===== src/AtomicDict/Iter/Pages.antt =====
-- The items of a partition, page by page: what an iteration is compared with
-- (src/cereggii/atomic_dict/iter.c).
use cereggii.Common.{
  ℕ, zero, suc, ◌+◌, ◌*◌, ◌%◌, ◌<◌, Option, none, some, true, false, List, [], ◌∷◌, ◌++◌,
  if◌then◌else◌, ◌==◌, ◌≡◌, ◌≢◌, ap, ◌∙◌, arith,
}
use cereggii.AtomicDict.Runtime.{Object, Meta}
use cereggii.AtomicDict.Pages.{get_entry_at}

module _ (m : Meta) where
  -- The item of an entry with a value.
  abbrev pub of_fields : Option Object → Option Object → List (Object × Object)
  of_fields none key = []
  of_fields (some value) none = []
  of_fields (some value) (some key) = (key, value) ∷ []

  abbrev pub here : ℕ → List (Object × Object)
  here location = of_fields (get_entry_at location m).value (get_entry_at location m).key

  -- The items of so many entries, from a location on.
  abbrev pub entries_from : ℕ → ℕ → List (Object × Object)
  entries_from zero location = []
  entries_from (suc n) location = here location ++ entries_from n (location + 1)

  module _ (partitions this_partition : ℕ) where
    -- The items of so many pages, from a page on, of those that are in the partition.
    abbrev pub pages_from : ℕ → ℕ → List (Object × Object)
    pages_from zero page = []
    pages_from (suc n) page =
        (if page % partitions == this_partition then entries_from 128 (page * 128) else [])
        ++ pages_from n (page + 1)

    -- Pages of other partitions add nothing.
    pub skip_others :
        (j n page : ℕ)
        → ((i : ℕ) → i < j → (page + i) % partitions ≢ this_partition)
        → pages_from (j + n) page ≡ pages_from n (page + j)
    skip_others zero n page others =
        ap (λ (t : ℕ). pages_from t page) {x = 0 + n} {y = n} (omega arith)
        ∙ ap (λ (t : ℕ). pages_from n t) {x = page} {y = page + 0} (omega arith)
    skip_others (suc j) n page others =
        let first : page % partitions ≢ this_partition = λ e.
          others 0 (omega arith)
            (ap (λ (t : ℕ). t % partitions) {x = page + 0} {y = page} (omega arith) ∙ e) in
        let test : (page % partitions == this_partition) ≡ false = ground (arith, first) in
        ap (λ (t : ℕ). pages_from t page) {x = suc j + n} {y = suc (j + n)} (omega arith)
        ∙ ap
            (λ b.
              (if b then entries_from 128 (page * 128) else []) ++ pages_from (j + n) (page + 1))
            test
        ∙ skip_others j n (page + 1) (λ i lt e.
          others (suc i) (omega arith) (
            ap (λ (t : ℕ). t % partitions) {x = page + suc i} {y = page + 1 + i} (omega arith) ∙ e))
        ∙ ap (λ (t : ℕ). pages_from n t) {x = page + 1 + j} {y = page + suc j} (omega arith)

    pub take_page :
        (n page : ℕ)
        → page % partitions ≡ this_partition
        → pages_from (suc n) page ≡ entries_from 128 (page * 128) ++ pages_from n (page + 1)
    take_page n page e =
        let test : (page % partitions == this_partition) ≡ true = ground (arith, e) in
        ap (λ b. (if b then entries_from 128 (page * 128) else []) ++ pages_from n (page + 1)) test
