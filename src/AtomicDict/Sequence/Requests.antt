-- ===== src/AtomicDict/Sequence/Requests.antt =====
-- When the calls of a sequence ask for a larger table (src/cereggii/atomic_dict/insert.c).
use cereggii.Common.{ℕ, Bool, true, false, some, ◌≡◌, refl, sym, ap, inl, inr, Bool-cases}
use cereggii.Common.Int.{ℤ}
use mathlib.Core.Path.{subst}
use cereggii.AtomicDict.Runtime.{Object, Runtime, IsLawful}
use cereggii.AtomicDict.Accessor.{Dictionary}
use cereggii.AtomicDict.Insert.{Expected}
use cereggii.AtomicDict.Items.{Removal}
use cereggii.AtomicDict.CompareAndSet.{Setting, stored_of, set_item}
use cereggii.AtomicDict.CompareAndSet.Contract.{Compares}
use cereggii.AtomicDict.CompareAndSet.Correct.{set_expected-Compares}
use cereggii.AtomicDict.CompareAndSet.Delete.{Deletes, del_item-Deletes}
use cereggii.AtomicDict.Length.{len_impl, lengths_of, sum_of_accessors_len, clear_local_len, total}
use cereggii.AtomicDict.Length.Correct.{ask_clean, ask_dirty}
use cereggii.AtomicDict.Sequence.{
  Command, stored_answer, setting_answer, removal_answer, length_answer, perform, Map,
}
use cereggii.AtomicDict.Sequence.Related.{IsRelated}
use cereggii.AtomicDict.Sequence.Expectations.{HasHash, Asks}
use cereggii.AtomicDict.Sequence.Correct.{compare_and_set-eq}

module _ (py : Runtime) (lawful : IsLawful py) (py_none : Object) (self : Dictionary) (map : Map)
    (rel : IsRelated py self map) where
  abbrev inserted_of : Bool × ℤ × ℤ × ℤ × ℤ → ℤ
  inserted_of (dirty, len, local_len, inserted, tombstones) = inserted

  module _ (key : Object) where
    setting_Asks :
        (expected : Expected) (desired : Object) (s : Setting)
        → Compares py self key expected desired s
        → Asks self (setting_answer self s)
    setting_Asks expected desired Setting.value_error c = absurd c
    setting_Asks expected desired (Setting.raised self') c = absurd c
    setting_Asks expected desired (Setting.contended self') c = absurd c
    setting_Asks expected desired (Setting.must_grow self') (sound, same, counts) =
        ap inserted_of counts
    setting_Asks expected desired (Setting.expectation_failed self') ((sound, same, counts), why) =
        inl (ap inserted_of counts)
    setting_Asks expected desired (Setting.not_found false self')
          (may, absent, puts, counts, tells) =
        inr tells
    setting_Asks expected desired (Setting.not_found true self')
          (may, absent, puts, counts, tells) =
        (ap inserted_of counts, tells)
    setting_Asks expected desired (Setting.current old self') (met, held, puts, counts) =
        inl (ap inserted_of counts)

    stored_Asks :
        (value : Object) (s : Setting)
        → Compares py self key Expected.any value s
        → Asks self (stored_answer self (stored_of s))
    stored_Asks value Setting.value_error c = absurd c
    stored_Asks value (Setting.raised self') c = absurd c
    stored_Asks value (Setting.contended self') c = absurd c
    stored_Asks value (Setting.must_grow self') c =
        setting_Asks Expected.any value (Setting.must_grow self') c
    stored_Asks value (Setting.expectation_failed self') c =
        setting_Asks Expected.any value (Setting.expectation_failed self') c
    stored_Asks value (Setting.not_found false self') c =
        setting_Asks Expected.any value (Setting.not_found false self') c
    stored_Asks value (Setting.not_found true self') c =
        setting_Asks Expected.any value (Setting.not_found true self') c
    stored_Asks value (Setting.current old self') c =
        setting_Asks Expected.any value (Setting.current old self') c

    removal_Asks :
        (hash : ℕ) (hashed : py.hash_of key ≡ some hash) (r : Removal)
        → Deletes py lawful self (rel.sound) key hash hashed r
        → Asks self (removal_answer self r)
    removal_Asks hash hashed Removal.failed d = absurd d
    removal_Asks hash hashed Removal.missing d = inl refl
    removal_Asks hash hashed (Removal.removed self') (sound, gone, counts) =
        inl (ap inserted_of counts)

  len_Asks : Asks self (length_answer self (len_impl (lengths_of self)))
  unfolding sum_of_accessors_len clear_local_len total
  len_Asks = elim (Bool-cases (self.len_dirty)) [
    | inl dirty ↦
        subst (λ r. Asks self (length_answer self r)) (sym (ask_dirty (lengths_of self) dirty))
          (inl refl)
    | inr clean ↦
        subst (λ r. Asks self (length_answer self r)) (sym (ask_clean (lengths_of self) clean))
          (inl refl)
  ]

  pub perform-Asks :
      (command : Command) → HasHash py command → Asks self (perform py py_none command self)
  unfolding perform set_item
  perform-Asks (Command.get key) (hash, hashed) = inl refl
  perform-Asks (Command.get_or key d) (hash, hashed) = inl refl
  perform-Asks (Command.set key value) (hash, hashed) =
      subst (λ s. Asks self (stored_answer self (stored_of s)))
        (sym (compare_and_set-eq py lawful py_none self map rel key hash hashed Expected.any value))
        (stored_Asks key value _
          (set_expected-Compares py lawful self (rel.sound) key hash hashed value Expected.any))
  perform-Asks (Command.compare key expected desired) (hash, hashed) =
      subst (λ s. Asks self (setting_answer self s))
        (sym (compare_and_set-eq py lawful py_none self map rel key hash hashed expected desired))
        (setting_Asks key expected desired _
          (set_expected-Compares py lawful self (rel.sound) key hash hashed desired expected))
  perform-Asks (Command.delete key) (hash, hashed) =
      removal_Asks key hash hashed _ (del_item-Deletes py lawful self (rel.sound) key hash hashed)
  perform-Asks Command.len hashed = len_Asks
