-- ===== src/AtomicDict/CompareAndSet/Delete.antt =====
-- A deletion keeps a dictionary sound (src/cereggii/atomic_dict/delete.c).
use cereggii.Common.{ℕ, ◌≢◌, none, some, true, ◌≡◌, refl, ap, inl, inr}
use cereggii.Common.Int.{pos, negsuc, ◌+ℤ◌}
use mathlib.Core.Path.{subst}
use cereggii.AtomicDict.Runtime.{Runtime, IsLawful, Meta}
use cereggii.AtomicDict.Node.{parse_node_from_raw}
use cereggii.AtomicDict.Pages.{get_entry_at, set_value}
use cereggii.AtomicDict.Index.{IsLive, Holds}
use cereggii.AtomicDict.Index.Writes.{Changes}
use cereggii.AtomicDict.Lookup.Correct.{lookup_correct}
use cereggii.AtomicDict.Delete.{delete_}
use cereggii.AtomicDict.Delete.Correct.{
  after, gone, old_live, word_old, delete_found-after, delete-IsIndexed, delete-Changes,
}
use cereggii.AtomicDict.Accessor.{Dictionary, accessor_len_inc, accessor_tombstones_inc}
use cereggii.AtomicDict.Items.{Removal, del_item}
use cereggii.AtomicDict.Reservation.Invariant.{IsSound}
use cereggii.AtomicDict.CompareAndSet.Touches.{Touches, set_value-Touches, IsSound-Touches}
use cereggii.AtomicDict.CompareAndSet.Contract.{counters, IsSound-counts}

module _ (py : Runtime) (lawful : IsLawful py) (self : Dictionary) (sound : IsSound py self)
    (key hash : ℕ) (hashed : py.hash_of key ≡ some hash) where
  abbrev m : Meta
  m = self.metadata

  module _ (old p : ℕ) (h : Holds py m key old p) where
    abbrev gone_at : Meta
    gone_at = after py lawful m sound.indexed key old p h

    after-Touches : Touches (self.reservation_buffer_size) m gone_at 0
    unfolding get_entry_at parse_node_from_raw set_value
    after-Touches =
        let t = set_value-Touches (self.reservation_buffer_size) m p h.live none 0 in
        record {
          size = refl;
          gap = refl;
          flags = t.flags;
          entries = t.entries;
          nodes = λ q live.
              let ne : q ≢ p = λ e.
                gone py lawful m sound.indexed key old p h (subst (λ x. IsLive gone_at x) e live) in
              inr (
                old_live py lawful m sound.indexed key old p h q ne live,
                ap (λ (w : ℕ). (parse_node_from_raw w m).index)
                    (word_old py lawful m sound.indexed key old p h q ne),
              );
        }

    removed : Dictionary
    removed =
        accessor_tombstones_inc (pos 1)
          (accessor_len_inc (negsuc 0) (record self { metadata = gone_at }))

    removed-IsSound : IsSound py removed
    unfolding removed accessor_tombstones_inc accessor_len_inc
    removed-IsSound =
        let (sound', _) =
          IsSound-Touches py self sound gone_at 0 after-Touches sound.allocated.nonzero
            (delete-IsIndexed py lawful m sound.indexed key old p h) in
        IsSound-counts py (record self { metadata = gone_at }) sound' self.len
          (self.storage.local_len +ℤ negsuc 0) (self.storage.local_inserted)
          (self.storage.local_tombstones +ℤ pos 1) true

  -- The contract of `del d[key]`.
  abbrev pub Deletes : Removal → Type 0
  Deletes Removal.failed = ⊥
  Deletes Removal.missing = (v p : ℕ) → ¬ Holds py m key v p
  Deletes (Removal.removed self') =
      IsSound py self'
      × ((v : ℕ) × (p : ℕ) × Holds py m key v p × Changes py m (self'.metadata) key none p)
      × (counters self' ≡ (
        true,
        self.len,
        self.storage.local_len +ℤ negsuc 0,
        self.storage.local_inserted,
        self.storage.local_tombstones +ℤ pos 1,
      ))

  pub del_item-Deletes : Deletes (del_item py self key)
  unfolding del_item delete_ removed accessor_tombstones_inc accessor_len_inc
  del_item-Deletes = elim (lookup_correct py lawful m sound.indexed key hash hashed) [
    | inl (p, v, h, run) ↦
        rw (del_item, hashed, delete_, run, delete_found-after py lawful m sound.indexed key v p h)
          (
            removed-IsSound v p h,
            (v, p, h, delete-Changes py lawful m sound.indexed key v p h),
            refl,
          )
    | inr (absent, run) ↦ rw (del_item, hashed, delete_, run) absent
  ]
