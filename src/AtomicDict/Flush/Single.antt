-- ===== src/AtomicDict/Flush/Single.antt =====
-- The flush of one key (src/cereggii/atomic_dict/insert.c).
use cereggii.Common.{
  ℕ, true, false, Option, none, some, ◌≡◌, ◌≢◌, refl, sym, ap, ◌∙◌, ==_refl, inl, inr, Option-cases,
}
use cereggii.Common.Int.{ℤ, pos}
use mathlib.Core.Path.{subst}
use cereggii.AtomicDict.Runtime.{Object, Runtime, IsLawful}
use cereggii.AtomicDict.Lookup.Correct.{lookup_correct}
use cereggii.AtomicDict.Accessor.{Dictionary}
use cereggii.AtomicDict.Insert.{Expected}
use cereggii.AtomicDict.Items.{get_item_or_default}
use cereggii.AtomicDict.Items.Correct.{found_reply, missed_reply}
use cereggii.AtomicDict.CompareAndSet.{Argument, Setting, compare_and_set}
use cereggii.AtomicDict.CompareAndSet.Correct.{set_expected-Compares}
use cereggii.AtomicDict.Sequence.{Answer, Map, put, compared, setting_answer, argument_of}
use cereggii.AtomicDict.Sequence.Related.{IsRelated, unknown}
use cereggii.AtomicDict.Sequence.Expectations.{Follows}
use cereggii.AtomicDict.Sequence.Correct.{setting_Follows, compare_and_set-eq}
use cereggii.AtomicDict.Flush.{
  Aggregate, Flushed, settled, current_of, aggregated, flush_round, flush_loop, flush_one,
}

-- The map after one key is flushed: the new value, or what it gives with the value that is there.
abbrev pub combined_value :
    (Object → Object → Object → Object) → Object → Object → Option Object → Object
combined_value combine key new none = new
combined_value combine key new (some value) = combine key value new

abbrev pub new_keys : Option Object → ℤ
new_keys none = pos 1
new_keys (some value) = pos 0

abbrev pub combined : Runtime → (Object → Object → Object → Object) → Object → Object → Map → Map
combined py combine key new map =
    put py key (some (combined_value combine key new (map.value_at key)))
      (new_keys (map.value_at key)) map

-- An aggregate that returns an object and raises nothing.
abbrev pub aggregate_of : (Object → Object → Object → Object) → Aggregate
aggregate_of combine key none new = Argument.object new
aggregate_of combine key (some value) new = Argument.object (combine key value new)

-- A flush that ends with the one map, or with the other where it asks for a larger table first.
abbrev pub Combines : Runtime → Map → Map → Flushed → Type 0
Combines py map map' (Flushed.flushed self') = IsRelated py self' map'
Combines py map map' (Flushed.must_grow self') = IsRelated py self' map
Combines py map map' (Flushed.inserted_must_grow self') = IsRelated py self' map'
Combines py map map' (Flushed.raised self') = ⊥
Combines py map map' Flushed.unfinished = ⊥

module _ (py : Runtime) (lawful : IsLawful py) (combine : Object → Object → Object → Object) where
  settled_Combines :
      (self : Dictionary) (map map' : Map) (answer : Answer) (s : Setting)
      (retry : Dictionary → Flushed)
      → answer ≢ Answer.expectation_failed
      → answer ≢ Answer.failed
      → Follows py map (answer, map') (setting_answer self s)
      → Combines py map map' (settled s retry self)
  settled_Combines self map map' answer Setting.value_error retry a b (is, r) = b (sym is)
  settled_Combines self map map' answer (Setting.raised self') retry a b (is, r) = b (sym is)
  settled_Combines self map map' answer (Setting.contended self') retry a b (is, r) = b (sym is)
  settled_Combines self map map' answer (Setting.must_grow self') retry a b r = r
  settled_Combines self map map' answer (Setting.expectation_failed self') retry a b (is, r) =
      absurd (a (sym is))
  settled_Combines self map map' answer (Setting.not_found false self') retry a b (is, r) = r
  settled_Combines self map map' answer (Setting.not_found true self') retry a b (is, r) = r
  settled_Combines self map map' answer (Setting.current old self') retry a b (is, r) = r

  module _ (py_none : Object) (self : Dictionary) (map : Map) (rel : IsRelated py self map)
      (key hash : ℕ) (hashed : py.hash_of key ≡ some hash) where
    current_eq : current_of (get_item_or_default py self key none) ≡ some (map.value_at key)
    current_eq = elim (lookup_correct py lawful (self.metadata) rel.sound.indexed key hash hashed) [
      | inl (p, v, h, run) ↦
          ap current_of (found_reply py lawful self rel.sound.indexed key hash hashed v p h none)
          ∙ ap some (sym (rel.contents.known key v p h))
      | inr (absent, run) ↦
          ap current_of (missed_reply py lawful self rel.sound.indexed key hash hashed run none)
          ∙ ap some (sym (unknown py lawful self map rel key absent))
    ]

    -- The compare-and-set of a round follows the map.
    set_Follows :
        (expected : Expected) (desired : Object)
        → Follows py map (compared py key expected desired map (map.value_at key)) (
            setting_answer self (
              compare_and_set py self
                (Argument.object key)
                (argument_of expected)
                (Argument.object desired)))
    set_Follows expected desired =
        subst
          (λ s.
            Follows py map (compared py key expected desired map (map.value_at key))
              (setting_answer self s))
          (sym (compare_and_set-eq py lawful py_none self map rel key hash hashed expected desired))
          (setting_Follows py lawful py_none self map rel key expected desired _
            (set_expected-Compares py lawful self rel.sound key hash hashed desired expected))

    module _ (new : Object) where
      abbrev put_combined : Option Object → Map
      put_combined o = put py key (some (combined_value combine key new o)) (new_keys o) map

      -- A round with the current value named.
      at_current :
          (retry : Option Object → Dictionary → Flushed) (expected : Option Object)
          (desired : Argument) (o : Option Object)
          → map.value_at key ≡ o
          → Combines py map
              (put_combined o)
              (flush_round py (aggregate_of combine) key new retry expected desired self (some o))
          → Combines py map (combined py combine key new map) (
              flush_round py
                (aggregate_of combine)
                key
                new
                retry
                expected
                desired
                self
                (current_of (get_item_or_default py self key none)))
      at_current retry expected desired o is c =
          let run = flush_round py (aggregate_of combine) key new retry expected desired self in
          subst (λ c'. Combines py map (combined py combine key new map) (run c'))
            (sym (current_eq ∙ ap some is))
            (subst (λ map'. Combines py map map' (run (some o))) (sym (ap put_combined is)) c)

      -- The round in which the current value is the expected one stores.
      storing :
          (retry : Option Object → Dictionary → Flushed) (o : Option Object)
          → map.value_at key ≡ o
          → Combines py map (put_combined o) (
              flush_round py
                (aggregate_of combine)
                key
                new
                retry
                o
                (Argument.object (combined_value combine key new o))
                self
                (some o))
      storing retry none is =
          settled_Combines self map (put_combined none) Answer.not_found _ (retry none) (λ e. cc e)
            (λ e. cc e)
            (subst
              (λ o. Follows py map (compared py key Expected.not_found new map o) (
                setting_answer self (
                  compare_and_set py self (Argument.object key) Argument.not_found
                    (Argument.object new))))
              is (set_Follows Expected.not_found new))
      storing retry (some v) is =
          let desired = combine key v new in
          let s =
            compare_and_set py self (Argument.object key) (Argument.object v)
              (Argument.object desired) in
          let met : compared py key (Expected.object v) desired map (some v)
              ≡ (Answer.object v, put_combined (some v)) =
            rw (==_refl v) refl in
          let f =
            subst (λ r. Follows py map r (setting_answer self s))
              (ap (compared py key (Expected.object v) desired map) is ∙ met)
              (set_Follows (Expected.object v) desired) in
          rw (==_refl v) (
            settled_Combines self map (put_combined (some v)) (Answer.object v) s (retry (some v))
              (λ e. cc e) (λ e. cc e) f)

      abbrev after_round : ℕ → Option Object → Dictionary → Flushed
      after_round rounds current self' =
          aggregated py (aggregate_of combine) key new (aggregate_of combine key current new)
            (flush_loop py (aggregate_of combine) key new rounds current) self'

      -- For a dictionary that stands for a map, where no comparison raises, the key has a hash and no other thread
      -- writes: a flush of a key with an aggregate that returns objects ends within two rounds. The key then has
      -- the new value if it was missing, and otherwise what the aggregate makes of its value and the new one,
      -- and the dictionary stands for the map with that one change, also where the insertion asks for a larger table; or
      -- a larger table is asked for first, and it stands for the same map.
      pub flush_one-Combines :
          Combines py map
            (combined py combine key new map)
            (flush_one py (aggregate_of combine) key new self)
      unfolding flush_one flush_loop
      flush_one-Combines = elim (Option-cases (map.value_at key)) [
        | inl missing ↦
            at_current (after_round 1) none (Argument.object new) none missing
              (storing (after_round 1) none missing)
        | inr (v, is) ↦ at_current (after_round 1) none (Argument.object new) (some v) is (
            subst
              (λ map'. Combines py map map' (
                flush_loop py (aggregate_of combine) key new 1 (some v)
                  (Argument.object (combine key v new)) self))
              (ap put_combined is)
              (at_current (after_round 0) (some v) (Argument.object (combine key v new)) (some v) is
                (storing (after_round 0) (some v) is)))
      ]
