-- ===== src/AtomicDict/Sequence.antt =====
-- Sequences of calls on one dictionary: the methods of `AtomicDict` that one thread calls one after
-- another, and the map that they stand for (src/cereggii/atomic_dict).
pub mod Related
pub mod Expectations
pub mod Correct
pub mod Requests
pub mod Runs
use cereggii.Common.{
  ℕ, Bool, true, false, List, [], ◌∷◌, Option, none, some, if◌then◌else◌, ◌==◌, ◌++◌,
}
use cereggii.Common.Int.{ℤ, pos, negsuc, ◌+ℤ◌}
use cereggii.AtomicDict.Runtime.{Object, Runtime}
use cereggii.AtomicDict.Accessor.{Storage, Dictionary}
use cereggii.AtomicDict.Insert.{Expected}
use cereggii.AtomicDict.Items.{Reply, Removal, get_item, get_item_or_default_varargs, del_item}
use cereggii.AtomicDict.CompareAndSet.{Argument, Setting, Stored, compare_and_set, set_item}
use cereggii.AtomicDict.Length.{Lengths, lengths_of, len_impl}

-- `d[key]`, `d.get(key, default)`, `d[key] = value`, `d.compare_and_set(key, expected, desired)`,
-- `del d[key]` and `len(d)`.
pub data Command : Type 0 where
  get : (key : Object) → Command
  get_or : (key default_value : Object) → Command
  set : (key value : Object) → Command
  compare : (key : Object) (expected : Expected) (desired : Object) → Command
  delete : (key : Object) → Command
  len : Command

pub data Answer : Type 0 where
  object : Object → Answer
  count : ℤ → Answer
  done not_found expectation_failed key_error failed : Answer

-- How a call ends: with an answer; at a request for a larger table before anything is done; or at one after an
-- insertion, where the answer is given once the table has grown.
pub data Performed : Type 0 where
  answered : Answer → Dictionary → Performed
  asks_before : Dictionary → Performed
  asks_after : Answer → Dictionary → Performed

abbrev pub argument_of : Expected → Argument
argument_of Expected.not_found = Argument.not_found
argument_of Expected.any = Argument.any
argument_of (Expected.object o) = Argument.object o

abbrev pub reply_answer : Reply → Answer
reply_answer (Reply.object o) = Answer.object o
reply_answer Reply.key_error = Answer.key_error
reply_answer Reply.null = Answer.failed
reply_answer Reply.raised = Answer.failed

abbrev pub stored_answer : Dictionary → Stored → Performed
stored_answer self (Stored.done self') = Performed.answered Answer.done self'
stored_answer self (Stored.raised self') = Performed.answered Answer.failed self'
stored_answer self (Stored.must_grow self') = Performed.asks_before self'
stored_answer self (Stored.inserted_must_grow self') = Performed.asks_after Answer.done self'
stored_answer self Stored.key_error = Performed.answered Answer.key_error self
stored_answer self Stored.value_error = Performed.answered Answer.failed self
stored_answer self Stored.contended = Performed.answered Answer.failed self

abbrev pub setting_answer : Dictionary → Setting → Performed
setting_answer self Setting.value_error = Performed.answered Answer.failed self
setting_answer self (Setting.raised self') = Performed.answered Answer.failed self'
setting_answer self (Setting.contended self') = Performed.answered Answer.failed self'
setting_answer self (Setting.must_grow self') = Performed.asks_before self'
setting_answer self (Setting.expectation_failed self') =
    Performed.answered Answer.expectation_failed self'
setting_answer self (Setting.not_found false self') = Performed.answered Answer.not_found self'
setting_answer self (Setting.not_found true self') = Performed.asks_after Answer.not_found self'
setting_answer self (Setting.current old self') = Performed.answered (Answer.object old) self'

abbrev pub removal_answer : Dictionary → Removal → Performed
removal_answer self (Removal.removed self') = Performed.answered Answer.done self'
removal_answer self Removal.missing = Performed.answered Answer.key_error self
removal_answer self Removal.failed = Performed.answered Answer.failed self

-- `AtomicDict_Len` of the one accessor, whose counter it clears.
abbrev pub with_lengths : Dictionary → Lengths → Dictionary
with_lengths self lengths = elim lengths.accessors [
  | [] ↦ self
  | storage ∷ _ ↦ record self {
    len = lengths.len;
    len_dirty = lengths.len_dirty;
    storage = storage;
  }
]

abbrev pub length_answer : Dictionary → ℤ × Lengths → Performed
length_answer self (n, lengths) = Performed.answered (Answer.count n) (with_lengths self lengths)

-- One call. `py_none` is `None`.
unfoldable pub perform : Runtime → Object → Command → Dictionary → Performed
perform py py_none (Command.get key) self =
    Performed.answered (reply_answer (get_item py self key)) self
perform py py_none (Command.get_or key default_value) self =
    Performed.answered
      (reply_answer (get_item_or_default_varargs py py_none self key (some default_value))) self
perform py py_none (Command.set key value) self =
    stored_answer self (set_item py self key (Argument.object value))
perform py py_none (Command.compare key expected desired) self =
    setting_answer self (
      compare_and_set py self (Argument.object key) (argument_of expected)
        (Argument.object desired))
perform py py_none (Command.delete key) self = removal_answer self (del_item py self key)
perform py py_none Command.len self = length_answer self (len_impl (lengths_of self))

-- The answers of a sequence of calls that stops where one asks for a larger table, whether all were
-- performed, and the dictionary at the end.
unfoldable pub run : Runtime → Object → List Command → Dictionary → List Answer × Bool × Dictionary
run py py_none [] self = ([], true, self)
run py py_none (command ∷ rest) self = elim (perform py py_none command self) [
  | answered a self' ↦
      let (answers, all, last) = run py py_none rest self' in (a ∷ answers, all, last)
  | asks_before self' ↦ ([], false, self')
  | asks_after a self' ↦ (a ∷ [], false, self')
]

-- What a dictionary stands for: the value of each key, and the number of keys.
pub record Map : Type 0 where
  pub value_at : Object → Option Object
  pub size : ℤ

abbrev pub equal_keys : Runtime → Object → Object → Bool
equal_keys py a b = elim (py.rich_eq a b) [ none ↦ false | some answer ↦ answer ]

abbrev pub put : Runtime → Object → Option Object → ℤ → Map → Map
put py key new change map = record {
  value_at = λ k. if equal_keys py key k then new else map.value_at k;
  size = map.size +ℤ change;
}

abbrev pub get_answer : Answer → Option Object → Answer
get_answer missing none = missing
get_answer missing (some value) = Answer.object value

-- A store by what was there before: `after` with the number of new keys, or a refusal.
abbrev pub compared : Runtime → Object → Expected → Object → Map → Option Object → Answer × Map
compared py key (Expected.object x) desired map none = (Answer.expectation_failed, map)
compared py key Expected.not_found desired map none =
    (Answer.not_found, put py key (some desired) (pos 1) map)
compared py key Expected.any desired map none =
    (Answer.not_found, put py key (some desired) (pos 1) map)
compared py key Expected.not_found desired map (some old) = (Answer.expectation_failed, map)
compared py key Expected.any desired map (some old) =
    (Answer.object old, put py key (some desired) (pos 0) map)
compared py key (Expected.object x) desired map (some old) =
    if old == x
    then (Answer.object old, put py key (some desired) (pos 0) map)
    else (Answer.expectation_failed, map)

abbrev pub deleted : Runtime → Object → Map → Option Object → Answer × Map
deleted py key map none = (Answer.key_error, map)
deleted py key map (some old) = (Answer.done, put py key none (negsuc 0) map)

-- The same calls on the map.
abbrev pub specify : Runtime → Command → Map → Answer × Map
specify py (Command.get key) map = (get_answer Answer.key_error (map.value_at key), map)
specify py (Command.get_or key default_value) map =
    (get_answer (Answer.object default_value) (map.value_at key), map)
specify py (Command.set key value) map =
    (Answer.done, (compared py key Expected.any value map (map.value_at key)).1)
specify py (Command.compare key expected desired) map =
    compared py key expected desired map (map.value_at key)
specify py (Command.delete key) map = deleted py key map (map.value_at key)
specify py Command.len map = (Answer.count map.size, map)

abbrev pub spec_answers : Runtime → List Command → Map → List Answer
spec_answers py [] map = []
spec_answers py (command ∷ rest) map =
    let (answer, map') = specify py command map in answer ∷ spec_answers py rest map'

abbrev pub spec_after : Runtime → List Command → Map → Map
spec_after py [] map = map
spec_after py (command ∷ rest) map = spec_after py rest ((specify py command map).1)
