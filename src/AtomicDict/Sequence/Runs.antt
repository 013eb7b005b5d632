-- ===== src/AtomicDict/Sequence/Runs.antt =====
-- Whole sequences of calls (src/cereggii/atomic_dict).
use cereggii.Common.{ℕ, ◌^◌, ◌≤◌, Bool, true, false, List, [], ◌∷◌, ◌++◌, none, ◌≡◌, refl, ap, ◌∙◌}
use cereggii.AtomicDict.Runtime.{Object, Runtime, IsLawful}
use cereggii.AtomicDict.Accessor.{Dictionary}
use cereggii.Common.Int.{pos}
use cereggii.AtomicDict.Init.{init_empty}
use cereggii.AtomicDict.Init.Empty.{init_empty-IsSound}
use cereggii.AtomicDict.Length.Sums.{+ℤ_zero}
use cereggii.AtomicDict.Sequence.{
  Command, Answer, Performed, perform, run, Map, specify, spec_answers, spec_after,
}
use cereggii.AtomicDict.Sequence.Related.{IsRelated}
use cereggii.AtomicDict.Sequence.Expectations.{AllHashed, Follows, Asks}
use cereggii.AtomicDict.Sequence.Correct.{perform-Follows}
use cereggii.AtomicDict.Sequence.Requests.{perform-Asks}

-- The answers are the map's, for all commands, or for those up to one that asked for a larger
-- table; the dictionary stands for the map after as many.
abbrev pub Agrees : Runtime → List Command → Map → List Answer × Bool × Dictionary → Type 0
Agrees py commands map (answers, true, last) =
    (answers ≡ spec_answers py commands map) × IsRelated py last (spec_after py commands map)
Agrees py commands map (answers, false, last) =
    (done : List Command) × (left : List Command) × (commands ≡ done ++ left)
    × (answers ≡ spec_answers py done map)
    × IsRelated py last (spec_after py done map)

module _ (py : Runtime) (py_none : Object) where
  -- One more call before a run.
  continues :
      (command : Command) (rest : List Command) (map : Map) (answer : Answer)
      (r : List Answer × Bool × Dictionary)
      → answer ≡ (specify py command map).0
      → Agrees py rest ((specify py command map).1) r
      → Agrees py (command ∷ rest) map (answer ∷ r.0, r.1, r.2)
  continues command rest map answer (answers, true, last) is (same, related) =
      (ap (λ a. a ∷ answers) is ∙ ap (λ l. (specify py command map).0 ∷ l) same, related)
  continues command rest map answer (answers, false, last) is (done, left, split, same, related) = (
    command ∷ done,
    left,
    ap (λ l. command ∷ l) split,
    ap (λ a. a ∷ answers) is ∙ ap (λ l. (specify py command map).0 ∷ l) same,
    related,
  )

  first :
      (command : Command) (rest : List Command) (map : Map) (p : Performed)
      → Follows py map (specify py command map) p
      → ((self' : Dictionary)
          → IsRelated py self' ((specify py command map).1)
          → Agrees py rest ((specify py command map).1) (run py py_none rest self'))
      → Agrees py (command ∷ rest) map (elim p [
        | Performed.answered a self' ↦ (
          a ∷ (run py py_none rest self').0,
          (run py py_none rest self').1,
          (run py py_none rest self').2,
        )
        | Performed.asks_before self' ↦ ([], false, self')
        | Performed.asks_after a self' ↦ (a ∷ [], false, self')
      ])
  first command rest map (Performed.asks_before self') related then =
      ([], command ∷ rest, refl, refl, related)
  first command rest map (Performed.answered answer self') (is, related) then =
      continues command rest map answer (run py py_none rest self') is (then self' related)
  first command rest map (Performed.asks_after answer self') (is, related) then =
      (command ∷ [], rest, refl, ap (λ a. a ∷ []) is, related)

  -- Along a run, larger tables are asked for where insertions make them due.
  abbrev pub AsksNext : (Dictionary → Type 0) → Performed → Type 0
  AsksNext later (Performed.answered a self') = later self'
  AsksNext later (Performed.asks_before self') = Unit
  AsksNext later (Performed.asks_after a self') = Unit

  abbrev pub AsksAlong : List Command → Dictionary → Type 0
  AsksAlong [] self = Unit
  AsksAlong (command ∷ rest) self =
      Asks self (perform py py_none command self)
      × AsksNext (λ self'. AsksAlong rest self') (perform py py_none command self)

  then_asks :
      (command : Command) (map : Map) (later : Dictionary → Type 0) (p : Performed)
      → Follows py map (specify py command map) p
      → ((self' : Dictionary) → IsRelated py self' ((specify py command map).1) → later self')
      → AsksNext later p
  then_asks command map later (Performed.answered a self') (is, related) rest = rest self' related
  then_asks command map later (Performed.asks_before self') related rest = tt
  then_asks command map later (Performed.asks_after a self') (is, related) rest = tt

  -- For a dictionary that stands for a map, with a sound table, where no comparison raises and the keys of
  -- the calls can be hashed: every sequence of gets, stores, compare-and-sets, deletions and length
  -- queries gives the answers of the map up to the end, or up to a call that asks for a larger
  -- table, before it stores or after its insertion; at that point the dictionary is sound and stands for the map after the
  -- calls made so far, with that insertion. An insertion asks for a larger table exactly where the
  -- count of insertions is a multiple of the binary logarithm of the size and at least two thirds of
  -- the size.
  pub run-Agrees :
      IsLawful py
      → (commands : List Command) (self : Dictionary) (map : Map) → AllHashed py commands
      → IsRelated py self map
      → Agrees py commands map (run py py_none commands self) × AsksAlong commands self
  unfolding run
  run-Agrees lawful [] self map hashed related = ((refl, related), tt)
  run-Agrees lawful (command ∷ rest) self map (here, later) related =
      let follows = perform-Follows py lawful py_none self map related command here in
      let more = λ (self' : Dictionary) (r : IsRelated py self' ((specify py command map).1)).
        run-Agrees lawful rest self' ((specify py command map).1) later r in
      (
        first command rest map (perform py py_none command self) follows
            (λ self' r. (more self' r).0),
        (
          perform-Asks py lawful py_none self map related command here,
          then_asks command map (λ s. AsksAlong rest s) (perform py py_none command self) follows
              (λ self' r. (more self' r).1),
        ),
      )

abbrev pub empty_map : Map
empty_map = record { value_at = λ _. none; size = pos 0 }

-- A new dictionary stands for the empty map.
pub init_empty-IsRelated :
    (py : Runtime) (log_size : ℕ)
    → 7 ≤ log_size
    → log_size ≤ 30
    → (k : ℕ) → k ≤ 6
    → IsRelated py (init_empty log_size (2 ^ k)) empty_map
unfolding init_empty
init_empty-IsRelated py log_size large small k fits =
    let (sound, empty) = init_empty-IsSound py log_size large small k fits in
    record {
      sound = sound;
      contents = record {
        held = λ key value is. absurd (cc is);
        known = λ key value p h. absurd (empty key value p h);
      };
      size = +ℤ_zero (pos 0);
      settled = λ _. refl;
    }
