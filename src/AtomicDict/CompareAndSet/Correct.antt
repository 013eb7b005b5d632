-- ===== src/AtomicDict/CompareAndSet/Correct.antt =====
-- `AtomicDict_CompareAndSet` on a sound dictionary (src/cereggii/atomic_dict/insert.c).
use cereggii.Common.{
  ℕ, Bool, true, false, Bool-cases, if◌then◌else◌, Option, none, some, ◌≡◌, ◌≢◌, refl, sym, ap, ◌∙◌,
  inl, inr, arith,
}
use cereggii.Common.Int.{ℤ, pos, ◌+ℤ◌, ◌==ℤ◌, ==ℤ→≡, ==ℤ_refl, rem_ℤ}
use mathlib.Core.Path.{subst}
use cereggii.AtomicDict.Runtime.{Object, Runtime, IsLawful, Meta}
use cereggii.AtomicDict.Node.{parse_node_from_raw}
use cereggii.AtomicDict.Pages.{set_value, fill_entry}
use cereggii.AtomicDict.Index.{node_at, IsLive}
use cereggii.AtomicDict.Insert.{Expected, Insertion}
use cereggii.AtomicDict.Insert.Rounds.{MayInsert, Contract}
use cereggii.AtomicDict.Insert.Correct.{expected_insert_or_update-Contract}
use cereggii.AtomicDict.Accessor.{Dictionary, accessor_len_inc, accessor_inserted_inc}
use cereggii.AtomicDict.Reservation.{get_empty_entry}
use cereggii.AtomicDict.Reservation.Invariant.{IsSound}
use cereggii.AtomicDict.Reservation.Grant.{Granted}
use cereggii.AtomicDict.Reservation.Correct.{get_empty_entry-Granted}
use cereggii.AtomicDict.CompareAndSet.{
  clean_up, count_insert, max_fill_ratio_approx_reached, settle_insertion, settle_granted,
  set_reserved, set_expected,
}
use cereggii.AtomicDict.CompareAndSet.Shape.{Shape, expected_insert_or_update-Shape}
use cereggii.AtomicDict.CompareAndSet.Touches.{
  Touches, set_value-Touches, write_node-Touches, IsSound-Touches,
}
use cereggii.AtomicDict.CompareAndSet.Reserve.{
  SameContents, IsHeld, Grants-IsHeld, IsHeld-Touches, fill-IsHeld, fill-IsReserved,
  clean_up-IsSound,
}
use cereggii.AtomicDict.CompareAndSet.Contract.{
  counters, Tells, Keeps, Compares, Changes-around, SameContents-refl, SameContents-trans,
  IsSound-counts,
}

-- The two tests on the count of insertions.
count-Tells :
    (self : Dictionary)
    → Tells
        (if rem_ℤ (self.storage.local_inserted) (pos self.metadata.log_size) ==ℤ pos 0
          then max_fill_ratio_approx_reached self
          else false)
        self
count-Tells self =
    let r = rem_ℤ (self.storage.local_inserted) (pos self.metadata.log_size) in
    elim (Bool-cases (r ==ℤ pos 0)) [
      | inl multiple ↦ elim (Bool-cases (max_fill_ratio_approx_reached self)) [
        | inl filled ↦ rw (multiple, filled) (==ℤ→≡ r (pos 0) multiple, ground (arith, filled))
        | inr room ↦ rw (multiple, room) (λ due. ground (arith, room, due.1))
      ]
      | inr other ↦
          rw other (λ due. absurd (cc (ap (λ z. z ==ℤ pos 0) due.0, ==ℤ_refl (pos 0), other)))
    ]

module _ (py : Runtime) (lawful : IsLawful py) (self : Dictionary) (sound : IsSound py self)
    (key hash : ℕ) (hashed : py.hash_of key ≡ some hash) (desired : ℕ) where
  abbrev m : Meta
  m = self.metadata

  abbrev count_one : Bool × ℤ × ℤ × ℤ × ℤ → Bool × ℤ × ℤ × ℤ × ℤ
  count_one (len_dirty, len, local_len, local_inserted, local_tombstones) =
      (true, len, local_len +ℤ pos 1, local_inserted +ℤ pos 1, local_tombstones)

  -- Without an entry in hand, where the call expects an object.
  settle_object :
      (x : Object) (r : Insertion)
      → Contract py m key hash (Expected.object x) desired r
      → Shape py m key hash (Expected.object x) desired 0 r
      → Compares py self key (Expected.object x) desired (settle_insertion none self r)
  unfolding settle_insertion clean_up
  settle_object x Insertion.raised c shape = c
  settle_object x Insertion.contended c shape = c
  settle_object x Insertion.must_grow c shape = (sound, SameContents-refl py m, refl)
  settle_object x Insertion.unexpected c shape = ((sound, SameContents-refl py m, refl), c)
  settle_object x (Insertion.inserted m') c shape = absurd c.0
  settle_object x (Insertion.replaced old m') (meets, held, (indexed, changes)) (q, live, is) =
      let t = set_value-Touches (self.reservation_buffer_size) m q live (some desired) 0 in
      let same = subst (λ t'. Touches (self.reservation_buffer_size) m t' 0) (sym is) t in
      let (sound', _) = IsSound-Touches py self sound m' 0 same sound.allocated.nonzero indexed in
      (meets, held, (sound', changes), refl)

  -- With an entry in hand, filled for the key.
  module _ (location : ℕ) (self1 : Dictionary) (held : IsHeld py self1 location)
      (same : SameContents py m (self1.metadata)) (counts : counters self1 ≡ counters self)
      (expected : Expected) where
    abbrev m1 : Meta
    m1 = self1.metadata

    clean_up_counts : (s : Dictionary) → counters (clean_up (some location) s) ≡ counters s
    unfolding clean_up
    clean_up_counts s = refl

    cleaned : Keeps py self (clean_up (some location) self1)
    cleaned =
        let (sound', contents) = clean_up-IsSound py self1 location held in
        (sound', SameContents-trans py m m1 _ same contents, clean_up_counts self1 ∙ counts)

    store_fresh :
        (i q : ℕ)
        → IsLive (set_value i (some desired) m1) q
        → (node_at (set_value i (some desired) m1) q).index ≢ location
    unfolding set_value parse_node_from_raw
    store_fresh i q live =
        held.fresh q (record { within = live.within; filled = live.filled; kept = live.kept })

    settle_held :
        (r : Insertion)
        → Contract py m1 key hash expected desired r
        → Shape py m1 key hash expected desired location r
        → Compares py self key expected desired (settle_insertion (some location) self1 r)
    unfolding settle_insertion count_insert accessor_len_inc accessor_inserted_inc
    settle_held Insertion.raised c shape = c
    settle_held Insertion.contended c shape = c
    settle_held Insertion.must_grow c shape = cleaned
    settle_held Insertion.unexpected c shape = (
      cleaned,
      elim c [
        | inl (v, p, was, not) ↦ inl (v, p, (same key v p).1 was, not)
        | inr (never, absent) ↦ inr (never, λ v p h. absent v p ((same key v p).0 h))
      ],
    )
    settle_held (Insertion.inserted m') (may, absent, (indexed, (p, changes)))
          (slot, distance, lt, is) =
        let t =
          subst (λ t'. Touches (self1.reservation_buffer_size) m1 t' location) (sym is)
            (write_node-Touches (self1.reservation_buffer_size) m1 py hash location slot distance
              (omega (arith, held.sound.indexed.small)) held.fits) in
        let (sound', _) = IsSound-Touches py self1 held.sound m' location t held.taken indexed in
        let linked : Dictionary = record self1 { metadata = m' } in
        (
          may,
          λ v q h. absent v q ((same key v q).0 h),
          (
            IsSound-counts py linked sound' self1.len (self1.storage.local_len +ℤ pos 1)
                (self1.storage.local_inserted +ℤ pos 1) (self1.storage.local_tombstones) true,
            (
              p,
              Changes-around py m m1 m' m' key (some desired) p same changes
                  (SameContents-refl py m'),
            ),
          ),
          ap count_one counts,
          count-Tells (accessor_inserted_inc (pos 1) (accessor_len_inc (pos 1) linked)),
        )
    settle_held (Insertion.replaced old m') (meets, (p, was), (indexed, (p', changes)))
          (q, live, is) =
        let t =
          subst (λ t'. Touches (self1.reservation_buffer_size) m1 t' location) (sym is)
            (set_value-Touches (self1.reservation_buffer_size) m1 q live (some desired) location) in
        let fresh =
          subst (λ t'. (q' : ℕ) → IsLive t' q' → (node_at t' q').index ≢ location) (sym is)
            (store_fresh (node_at m1 q).index) in
        let after = IsHeld-Touches py self1 location held m' t indexed fresh in
        let stored : Dictionary = record self1 { metadata = m' } in
        let (sound', contents) = clean_up-IsSound py stored location after in
        (
          meets,
          (p, (same key old p).1 was),
          (sound', (p', Changes-around py m m1 m' _ key (some desired) p' same changes contents)),
          clean_up_counts stored ∙ counts,
        )

  settle_reserved :
      (expected : Expected)
      → MayInsert expected
      → (r : Option ℕ × Dictionary) → Granted py self r
      → Compares py self key expected desired (settle_granted py key hash desired expected r)
  settle_reserved expected may (none, self') (same, _, _) = (
    subst (IsSound py) (sym same) sound,
    subst (λ s. SameContents py m (s.metadata)) (sym same) (SameContents-refl py m),
    ap counters same,
  )
  settle_reserved expected may (some location, self') g =
      let (held, same) = Grants-IsHeld py self self' location sound g in
      let (full, contents) = fill-IsHeld py self' location held key hash desired in
      let filled : Dictionary = record self' {
        metadata = fill_entry location key hash desired (self'.metadata);
      } in
      settle_held location filled full
        (SameContents-trans py m (self'.metadata) (filled.metadata) same contents)
        (ap counters g.shape) expected _
        (expected_insert_or_update-Contract py lawful (filled.metadata) full.sound.indexed key hash
          hashed desired location expected
          (λ _. fill-IsReserved py self' location held key hash desired))
        (expected_insert_or_update-Shape py (filled.metadata) key hash expected desired location)

  set_reserved-Compares :
      (expected : Expected)
      → MayInsert expected
      → Compares py self key expected desired (set_reserved py self key hash desired expected)
  unfolding set_reserved
  set_reserved-Compares expected may =
      settle_reserved expected may (get_empty_entry hash self)
        (get_empty_entry-Granted py self sound hash)

  -- On a sound dictionary where no comparison raises, and for a key that can be hashed, a
  -- compare-and-set never raises or loses its swap. It ends with NOT_FOUND exactly when no slot held the key and the
  -- call may insert, and then one key is counted, and a larger table is asked for exactly where the count of
  -- insertions is a multiple of the binary logarithm of the size and at least two thirds of the size; with the value that was there when that meets the expectation; with
  -- EXPECTATION_FAILED when a value is there that does not, or none is and the call needs one; or it
  -- asks for a larger table. In the first two cases the key gets the desired value and every other
  -- key keeps its own, in the last two all keys do, and always the dictionary is sound afterwards.
  pub set_expected-Compares :
      (expected : Expected)
      → Compares py self key expected desired (set_expected py self key hash desired expected)
  unfolding set_expected
  set_expected-Compares (Expected.object x) =
      settle_object x _
        (expected_insert_or_update-Contract py lawful m sound.indexed key hash hashed desired 0
          (Expected.object x) (λ may. absurd may))
        (expected_insert_or_update-Shape py m key hash (Expected.object x) desired 0)
  set_expected-Compares Expected.not_found = set_reserved-Compares Expected.not_found tt
  set_expected-Compares Expected.any = set_reserved-Compares Expected.any tt
