-- ===== src/AtomicDict/CompareAndSet/Shape.antt =====
-- The one write that `expected_insert_or_update` makes (src/cereggii/atomic_dict/insert.c).
use cereggii.Common.{
  ℕ, zero, suc, ◌+◌, ◌%◌, ◌<◌, true, false, ◌==◌, some, ◌≡◌, refl, inl, inr, arith, Bool-cases,
  Option-cases,
}
use cereggii.Common.Bits.{and_mask}
use native.Mathlib.Nat.{mod-lt, one-le-pow, mod-mod}
use cereggii.AtomicDict.Runtime.{Runtime, Meta, size_of}
use cereggii.AtomicDict.Node.{
  distance0_of, is_empty, is_tombstone, check_tag, compute_raw_node, write_raw_node_at,
  atomic_write_node_at,
}
use cereggii.AtomicDict.Index.{node_at, IsLive}
use cereggii.AtomicDict.Pages.{set_value, get_entry_at, read_entry}
use cereggii.AtomicDict.Lookup.Correct.{read_node_at-mod}
use cereggii.AtomicDict.Insert.{
  Expected, Update, update_value, expected_update_entry, Insertion, Round, insert_node, visit,
  insert_loop, expected_insert_or_update,
}
use cereggii.AtomicDict.Insert.NewNode.{new_node}

module _ (py : Runtime) (m : Meta) (key hash : ℕ) (expected : Expected) (desired location : ℕ) where
  -- An insertion writes a node for the location, and an update the value of a live slot's entry.
  abbrev pub Shape : Insertion → Type 0
  Shape (Insertion.inserted m') =
      (slot : ℕ) × (distance : ℕ) × (slot < size_of m)
      × (m'
          ≡ write_raw_node_at slot (compute_raw_node (new_node py hash location distance) m).node m)
  Shape (Insertion.replaced old m') =
      (slot : ℕ) × IsLive m slot × (m' ≡ set_value (node_at m slot).index (some desired) m)
  Shape Insertion.raised = Unit
  Shape Insertion.contended = Unit
  Shape Insertion.must_grow = Unit
  Shape Insertion.unexpected = Unit

  abbrev RoundShape : Round → Type 0
  RoundShape Round.next = Unit
  RoundShape (Round.done result) = Shape result

  abbrev UpdateShape : ℕ → Update → Type 0
  UpdateShape entry_ix (Update.replaced old m') = m' ≡ set_value entry_ix (some desired) m
  UpdateShape entry_ix Update.raised = Unit
  UpdateShape entry_ix Update.skipped = Unit
  UpdateShape entry_ix Update.unexpected = Unit

  update-Shape :
      (entry_ix value : ℕ) (e : Expected)
      → UpdateShape entry_ix (update_value m entry_ix value e desired)
  unfolding update_value
  update-Shape entry_ix value Expected.not_found = tt
  update-Shape entry_ix value Expected.any = refl
  update-Shape entry_ix value (Expected.object x) = elim (Bool-cases (value == x)) [
    | inl same ↦ rw same refl
    | inr differ ↦ rw differ tt
  ]

  entry-Shape :
      (entry_ix : ℕ)
      → UpdateShape entry_ix (expected_update_entry py m entry_ix key hash expected desired)
  unfolding expected_update_entry
  entry-Shape entry_ix =
      let entry = read_entry (get_entry_at entry_ix m) in
      elim (Option-cases entry.value) [
        | inl missing ↦ rw (expected_update_entry, missing) tt
        | inr (value, has) ↦ elim (Bool-cases (hash == entry.hash)) [
          | inr other ↦ rw (expected_update_entry, has, other) tt
          | inl same ↦ elim (Option-cases entry.key) [
            | inl missing ↦ rw (expected_update_entry, has, same, missing) tt
            | inr (k, has_key) ↦ elim (Bool-cases (k == key)) [
              | inl here ↦
                  rw (expected_update_entry, has, same, has_key, here)
                    (update-Shape entry_ix value expected)
              | inr there ↦ elim (Option-cases (py.rich_eq k key)) [
                | inl raises ↦ rw (expected_update_entry, has, same, has_key, there, raises) tt
                | inr (true, equal) ↦
                    rw (expected_update_entry, has, same, has_key, there, equal)
                      (update-Shape entry_ix value expected)
                | inr (false, differ) ↦
                    rw (expected_update_entry, has, same, has_key, there, differ) tt
              ]
            ]
          ]
        ]
      ]

  settle-Shape :
      (q : ℕ) (live : IsLive m q) (u : Update)
      → UpdateShape (node_at m q).index u
      → RoundShape (elim u [
        | Update.raised ↦ Round.done Insertion.raised
        | Update.skipped ↦ Round.next
        | Update.unexpected ↦ Round.done Insertion.unexpected
        | Update.replaced current m' ↦ Round.done (Insertion.replaced current m')
      ])
  settle-Shape q live Update.raised s = tt
  settle-Shape q live Update.skipped s = tt
  settle-Shape q live Update.unexpected s = tt
  settle-Shape q live (Update.replaced old m') s = (q, live, s)

  node-Shape :
      (q distance : ℕ) (e : Expected)
      → q < size_of m
      → RoundShape (insert_node py key hash e desired location m q distance (node_at m q))
  unfolding insert_node atomic_write_node_at
  node-Shape q distance (Expected.object x) lt = tt
  node-Shape q distance Expected.not_found lt =
      elim (Bool-cases (m.index q == (compute_raw_node (node_at m q) m).node)) [
        | inl same ↦ rw (insert_node, atomic_write_node_at, same) (q, distance, lt, refl)
        | inr other ↦ rw (insert_node, atomic_write_node_at, other) tt
      ]
  node-Shape q distance Expected.any lt =
      elim (Bool-cases (m.index q == (compute_raw_node (node_at m q) m).node)) [
        | inl same ↦ rw (insert_node, atomic_write_node_at, same) (q, distance, lt, refl)
        | inr other ↦ rw (insert_node, atomic_write_node_at, other) tt
      ]

  visit-Shape :
      (q distance : ℕ)
      → q < size_of m
      → RoundShape (visit py key hash expected desired location false m q distance (node_at m q))
  unfolding visit
  visit-Shape q distance lt = elim (Bool-cases (is_empty (node_at m q))) [
    | inl free ↦ rw (visit, free) (node-Shape q distance expected lt)
    | inr filled ↦ elim (Bool-cases (is_tombstone (node_at m q))) [
      | inl gone ↦ rw (visit, gone, filled) tt
      | inr kept ↦ elim (Bool-cases (check_tag py hash (node_at m q) m)) [
        | inr other ↦ rw (visit, kept, filled, other) tt
        | inl tagged ↦
            rw (visit, kept, filled, tagged)
              (settle-Shape q (record { within = lt; filled = filled; kept = kept }) _
                (entry-Shape (node_at m q).index))
      ]
    ]
  ]

  loop-Shape :
      (rounds distance : ℕ)
      → Shape (insert_loop py key hash expected desired location false m rounds distance)
  unfolding insert_loop
  loop-Shape zero distance = tt
  loop-Shape (suc rounds) distance =
      let q = (distance0_of py hash m + distance) % size_of m in
      let here = visit-Shape q distance (mod-lt _ (one-le-pow m.log_size 2 (omega arith))) in
      rw (insert_loop, and_mask, read_node_at-mod, mod-mod)
        (next-Shape (visit py key hash expected desired location false m q distance (node_at m q)) _
          here (loop-Shape rounds (distance + 1)))
    where
      next-Shape :
          (r : Round) (rest : Insertion)
          → RoundShape r
          → Shape rest
          → Shape (elim r [ Round.next ↦ rest | Round.done result ↦ result ])
      next-Shape Round.next after here rest = rest
      next-Shape (Round.done result) after here rest = here

  pub expected_insert_or_update-Shape :
      Shape (expected_insert_or_update py key hash expected desired location false m)
  unfolding expected_insert_or_update
  expected_insert_or_update-Shape = loop-Shape (size_of m) 0
