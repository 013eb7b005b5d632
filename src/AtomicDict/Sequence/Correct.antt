-- ===== src/AtomicDict/Sequence/Correct.antt =====
-- A dictionary is a map: sequences of calls give the answers of the map
-- (src/cereggii/atomic_dict/insert.c, delete.c, lookup.c, atomic_dict.c).
use cereggii.Common.{
  ℕ, Bool, true, false, Option, none, some, ◌≡◌, refl, sym, ap, ◌∙◌, inl, inr, Bool-cases,
}
use cereggii.Common.Int.{ℤ, pos, negsuc, ◌+ℤ◌}
use mathlib.Core.Path.{subst}
use cereggii.AtomicDict.Runtime.{Object, Runtime, IsLawful}
use cereggii.AtomicDict.Accessor.{Dictionary}
use cereggii.AtomicDict.Insert.{Expected}
use cereggii.AtomicDict.Items.{Removal, get_item, get_item_or_default_varargs}
use cereggii.AtomicDict.Items.Correct.{get_item_correct}
use cereggii.AtomicDict.CompareAndSet.{
  Argument, Setting, stored_of, set_expected, compare_and_set, set_item,
}
use cereggii.AtomicDict.CompareAndSet.Contract.{Compares, IsSound-counts}
use cereggii.AtomicDict.CompareAndSet.Correct.{set_expected-Compares}
use cereggii.AtomicDict.CompareAndSet.Delete.{Deletes, del_item-Deletes}
use cereggii.AtomicDict.Length.{len_impl, lengths_of, sum_of_accessors_len, clear_local_len, total}
use cereggii.AtomicDict.Length.Sums.{+ℤ_zero}
use cereggii.AtomicDict.Length.Correct.{ask_clean, ask_dirty}
use cereggii.AtomicDict.Sequence.{
  Command, Answer, Performed, reply_answer, stored_answer, setting_answer, removal_answer,
  length_answer, argument_of, perform, Map, put, get_answer, compared, deleted, specify,
}
use cereggii.AtomicDict.Sequence.Related.{IsRelated, unknown, kept-IsRelated, changed-IsRelated}
use cereggii.AtomicDict.Sequence.Expectations.{
  HasHash, Follows, compared-insert, compared-absent, compared-met, compared-unmet,
}

module _ (py : Runtime) (lawful : IsLawful py) (py_none : Object) (self : Dictionary) (map : Map)
    (rel : IsRelated py self map) where
  abbrev counter_of : Bool × ℤ × ℤ × ℤ × ℤ → ℤ
  counter_of (dirty, len, local_len, inserted, tombstones) = local_len

  abbrev len_of : Bool × ℤ × ℤ × ℤ × ℤ → ℤ
  len_of (dirty, len, local_len, inserted, tombstones) = len

  abbrev dirty_of : Bool × ℤ × ℤ × ℤ × ℤ → Bool
  dirty_of (dirty, len, local_len, inserted, tombstones) = dirty

  module _ (key : Object) where
    -- To follow the map from what it has under the key.
    Follows-at :
        (expected : Expected) (desired : Object) (o : Option Object) (r : Performed)
        (outcome : Answer × Map)
        → map.value_at key ≡ o
        → compared py key expected desired map o ≡ outcome
        → Follows py map outcome r
        → Follows py map (compared py key expected desired map (map.value_at key)) r
    Follows-at expected desired o r outcome at is f =
        subst (λ x. Follows py map x r) (sym (ap (compared py key expected desired map) at ∙ is)) f

    pub setting_Follows :
        (expected : Expected) (desired : Object) (s : Setting)
        → Compares py self key expected desired s
        → Follows py map
            (compared py key expected desired map (map.value_at key))
            (setting_answer self s)
    setting_Follows expected desired Setting.value_error c = absurd c
    setting_Follows expected desired (Setting.raised self') c = absurd c
    setting_Follows expected desired (Setting.contended self') c = absurd c
    setting_Follows expected desired (Setting.must_grow self') c =
        kept-IsRelated py lawful self map rel self' c
    setting_Follows expected desired (Setting.expectation_failed self') (keeps, why) = elim why [
      | inl (v, p, h, unmet) ↦
          Follows-at expected desired (some v) (Performed.answered Answer.expectation_failed self')
            (Answer.expectation_failed, map) (rel.contents.known key v p h)
            (compared-unmet py key desired map expected v unmet)
            (refl, kept-IsRelated py lawful self map rel self' keeps)
      | inr (never, none_held) ↦
          Follows-at expected desired none (Performed.answered Answer.expectation_failed self')
            (Answer.expectation_failed, map) (unknown py lawful self map rel key none_held)
            (compared-absent py key desired map expected never)
            (refl, kept-IsRelated py lawful self map rel self' keeps)
    ]
    setting_Follows expected desired (Setting.not_found false self')
          (may, none_held, (sound, (p, c)), counts, tells) =
        Follows-at expected desired none (Performed.answered Answer.not_found self')
          (Answer.not_found, put py key (some desired) (pos 1) map)
          (unknown py lawful self map rel key none_held)
          (compared-insert py key desired map expected may)
          (
            refl,
            changed-IsRelated py lawful self map rel self' key (some desired) p (pos 1) sound c
                (ap len_of counts) (ap counter_of counts)
                (λ clean. absurd (cc (clean, ap dirty_of counts))),
          )
    setting_Follows expected desired (Setting.not_found true self')
          (may, none_held, (sound, (p, c)), counts, tells) =
        Follows-at expected desired none (Performed.asks_after Answer.not_found self')
          (Answer.not_found, put py key (some desired) (pos 1) map)
          (unknown py lawful self map rel key none_held)
          (compared-insert py key desired map expected may)
          (
            refl,
            changed-IsRelated py lawful self map rel self' key (some desired) p (pos 1) sound c
                (ap len_of counts) (ap counter_of counts)
                (λ clean. absurd (cc (clean, ap dirty_of counts))),
          )
    setting_Follows expected desired (Setting.current old self')
          (met, (q, h), (sound, (p, c)), counts) =
        Follows-at expected desired (some old) (Performed.answered (Answer.object old) self')
          (Answer.object old, put py key (some desired) (pos 0) map)
          (rel.contents.known key old q h) (compared-met py key desired map expected old met)
          (
            refl,
            changed-IsRelated py lawful self map rel self' key (some desired) p (pos 0) sound c
                (ap len_of counts) (ap counter_of counts ∙ sym (+ℤ_zero (self.storage.local_len)))
                (λ clean. (sym (ap dirty_of counts) ∙ clean, refl)),
          )

    -- A store answers nothing but that it is done.
    stored_Follows :
        (value : Object) (s : Setting)
        → Compares py self key Expected.any value s
        → Follows py map
            (Answer.done, (compared py key Expected.any value map (map.value_at key)).1)
            (stored_answer self (stored_of s))
    stored_Follows value Setting.value_error c = absurd c
    stored_Follows value (Setting.raised self') c = absurd c
    stored_Follows value (Setting.contended self') c = absurd c
    stored_Follows value (Setting.must_grow self') c = kept-IsRelated py lawful self map rel self' c
    stored_Follows value (Setting.expectation_failed self') c =
        (refl, (setting_Follows Expected.any value (Setting.expectation_failed self') c).1)
    stored_Follows value (Setting.not_found false self') c =
        (refl, (setting_Follows Expected.any value (Setting.not_found false self') c).1)
    stored_Follows value (Setting.not_found true self') c =
        (refl, (setting_Follows Expected.any value (Setting.not_found true self') c).1)
    stored_Follows value (Setting.current old self') c =
        (refl, (setting_Follows Expected.any value (Setting.current old self') c).1)

    removal_Follows :
        (hash : ℕ) (hashed : py.hash_of key ≡ some hash) (r : Removal)
        → Deletes py lawful self (rel.sound) key hash hashed r
        → Follows py map (deleted py key map (map.value_at key)) (removal_answer self r)
    removal_Follows hash hashed Removal.failed d = absurd d
    removal_Follows hash hashed Removal.missing none_held =
        subst
          (λ o. Follows py map (deleted py key map o) (Performed.answered Answer.key_error self))
          (sym (unknown py lawful self map rel key none_held)) (refl, rel)
    removal_Follows hash hashed (Removal.removed self') (sound, (v, p, h, c), counts) =
        subst (λ o. Follows py map (deleted py key map o) (Performed.answered Answer.done self'))
          (sym (rel.contents.known key v p h))
          (
            refl,
            changed-IsRelated py lawful self map rel self' key none p (negsuc 0) sound c
                (ap len_of counts) (ap counter_of counts)
                (λ clean. absurd (cc (clean, ap dirty_of counts))),
          )

    get_Follows :
        (hash : ℕ)
        → py.hash_of key ≡ some hash
        → (reply_answer (get_item py self key) ≡ get_answer Answer.key_error (map.value_at key))
          × ((default_value : Object)
              → reply_answer (get_item_or_default_varargs py py_none self key (some default_value))
                ≡ get_answer (Answer.object default_value) (map.value_at key))
    get_Follows hash hashed =
        elim (get_item_correct py lawful self rel.sound.indexed key hash hashed) [
          | inl (v, p, h, found, found_or) ↦
              let there = rel.contents.known key v p h in
              (
                ap reply_answer found ∙ ap (get_answer Answer.key_error) (sym there),
                λ d.
                    ap reply_answer (found_or py_none (some d))
                    ∙ ap (get_answer (Answer.object d)) (sym there),
              )
          | inr (none_held, missed, _, missed_or) ↦
              let there = unknown py lawful self map rel key none_held in
              (
                ap reply_answer missed ∙ ap (get_answer Answer.key_error) (sym there),
                λ d.
                    ap reply_answer (missed_or py_none d)
                    ∙ ap (get_answer (Answer.object d)) (sym there),
              )
        ]

  abbrev gathered : Dictionary
  gathered = record self {
    len = self.len +ℤ (self.storage.local_len +ℤ pos 0);
    len_dirty = false;
    storage = record (self.storage) { local_len = pos 0 };
  }

  gathered_size : self.len +ℤ (self.storage.local_len +ℤ pos 0) ≡ map.size
  gathered_size = ap (λ n. self.len +ℤ n) (+ℤ_zero (self.storage.local_len)) ∙ rel.size

  gathered-IsRelated : IsRelated py gathered map
  gathered-IsRelated = record {
    sound =
        IsSound-counts py self rel.sound _ (pos 0) (self.storage.local_inserted)
          (self.storage.local_tombstones) false;
    contents = rel.contents;
    size = +ℤ_zero (self.len +ℤ (self.storage.local_len +ℤ pos 0)) ∙ gathered_size;
    settled = λ _. refl;
  }

  len_Follows :
      Follows py map (Answer.count map.size, map) (length_answer self (len_impl (lengths_of self)))
  unfolding sum_of_accessors_len clear_local_len total
  len_Follows = elim (Bool-cases (self.len_dirty)) [
    | inl dirty ↦
        subst (λ r. Follows py map (Answer.count map.size, map) (length_answer self r))
          (sym (ask_dirty (lengths_of self) dirty))
          (ap Answer.count gathered_size, gathered-IsRelated)
    | inr clean ↦
        let same : self.len ≡ map.size =
          sym (ap (λ n. self.len +ℤ n) (rel.settled clean) ∙ +ℤ_zero (self.len)) ∙ rel.size in
        subst (λ r. Follows py map (Answer.count map.size, map) (length_answer self r))
          (sym (ask_clean (lengths_of self) clean)) (ap Answer.count same, rel)
  ]

  pub compare_and_set-eq :
      (key hash : ℕ)
      → py.hash_of key ≡ some hash
      → (expected : Expected) (desired : Object)
      → compare_and_set py self
          (Argument.object key)
          (argument_of expected)
          (Argument.object desired)
        ≡ set_expected py self key hash desired expected
  unfolding compare_and_set
  compare_and_set-eq key hash hashed Expected.not_found desired = rw hashed refl
  compare_and_set-eq key hash hashed Expected.any desired = rw hashed refl
  compare_and_set-eq key hash hashed (Expected.object x) desired = rw hashed refl

  pub perform-Follows :
      (command : Command)
      → HasHash py command
      → Follows py map (specify py command map) (perform py py_none command self)
  unfolding perform set_item
  perform-Follows (Command.get key) (hash, hashed) = ((get_Follows key hash hashed).0, rel)
  perform-Follows (Command.get_or key d) (hash, hashed) = ((get_Follows key hash hashed).1 d, rel)
  perform-Follows (Command.set key value) (hash, hashed) =
      subst
        (λ s.
          Follows py map (specify py (Command.set key value) map)
            (stored_answer self (stored_of s)))
        (sym (compare_and_set-eq key hash hashed Expected.any value))
        (stored_Follows key value _
          (set_expected-Compares py lawful self (rel.sound) key hash hashed value Expected.any))
  perform-Follows (Command.compare key expected desired) (hash, hashed) =
      subst
        (λ s.
          Follows py map (specify py (Command.compare key expected desired) map)
            (setting_answer self s))
        (sym (compare_and_set-eq key hash hashed expected desired))
        (setting_Follows key expected desired _
          (set_expected-Compares py lawful self (rel.sound) key hash hashed desired expected))
  perform-Follows (Command.delete key) (hash, hashed) =
      removal_Follows key hash hashed _
        (del_item-Deletes py lawful self (rel.sound) key hash hashed)
  perform-Follows Command.len hashed = len_Follows
