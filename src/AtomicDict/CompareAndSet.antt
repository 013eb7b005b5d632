-- ===== src/AtomicDict/CompareAndSet.antt =====
-- Stores under a key: `AtomicDict_CompareAndSet`, its Python method and `AtomicDict_SetItem`
-- (src/cereggii/atomic_dict/insert.c). One thread calls, and no resize runs: where the source grows
-- the table, the call ends and tells so.
pub mod Shape
pub mod Touches
pub mod Reserve
pub mod Contract
pub mod Correct
pub mod Delete
use cereggii.Common.{
  ℕ, ◌*◌, ◌/◌, bit_and, Bool, true, false, Option, none, some, if◌then◌else◌, Option-cases,
}
use cereggii.Common.Int.{ℤ, pos, ◌==ℤ◌, leb_ℤ, rem_ℤ}
use cereggii.AtomicDict.Runtime.{Object, Runtime, Entry, Meta, size_of}
use cereggii.AtomicDict.Pages.{get_entry_at, set_entry, fill_entry}
use cereggii.AtomicDict.Accessor.{
  Storage, Dictionary, reservation_buffer_put_back_one, accessor_len_inc, accessor_inserted_inc,
}
use cereggii.AtomicDict.Reservation.{entry_flags_reserved, get_empty_entry}
use cereggii.AtomicDict.Insert.{Expected, Insertion, expected_insert_or_update}
use cereggii.AtomicDict.Items.{Removal, del_item}

-- A `PyObject *` that may be NULL or one of the three constants.
pub data Argument : Type 0 where
  null not_found any expectation_failed : Argument
  object : Object → Argument

abbrev pub object_of : Argument → Option Object
object_of (Argument.object o) = some o
object_of Argument.null = none
object_of Argument.not_found = none
object_of Argument.any = none
object_of Argument.expectation_failed = none

abbrev pub expected_of : Argument → Option Expected
expected_of Argument.not_found = some Expected.not_found
expected_of Argument.any = some Expected.any
expected_of (Argument.object o) = some (Expected.object o)
expected_of Argument.null = none
expected_of Argument.expectation_failed = none

-- How a call ends: NULL with an exception, at a request for a larger table, or with
-- EXPECTATION_FAILED, NOT_FOUND or the value that it replaced. After NOT_FOUND the call may ask for a
-- larger table too. `contended` is the lost swap of an `Insertion`.
pub data Setting : Type 0 where
  value_error : Setting
  raised contended must_grow expectation_failed : Dictionary → Setting
  not_found : (grows : Bool) → Dictionary → Setting
  current : Object → Dictionary → Setting

-- The entry was not used: it is cleared, and goes back to the buffer.
unfoldable pub clean_up : Option ℕ → Dictionary → Dictionary
clean_up none self = self
clean_up (some location) self =
    let m = self.metadata in
    let entry = get_entry_at location m in
    let cleared : Entry = record {
      flags = bit_and entry.flags entry_flags_reserved;
      hash = 0;
      key = none;
      value = none;
    } in
    record self {
      metadata = set_entry location cleared m;
      storage = record (self.storage) {
        reservation_buffer = reservation_buffer_put_back_one (self.storage.reservation_buffer);
      };
    }

-- `approx_inserted` with one accessor, at least two thirds of the size.
abbrev pub max_fill_ratio_approx_reached : Dictionary → Bool
max_fill_ratio_approx_reached self =
    leb_ℤ (pos (size_of (self.metadata) * 2 / 3)) (self.storage.local_inserted)

unfoldable pub count_insert : Option ℕ → Dictionary → Setting
count_insert none self = Setting.not_found false self
count_insert (some location) self =
    let self' = accessor_inserted_inc (pos 1) (accessor_len_inc (pos 1) self) in
    let significantly =
      rem_ℤ (self'.storage.local_inserted) (pos self.metadata.log_size) ==ℤ pos 0 in
    Setting.not_found (if significantly then max_fill_ratio_approx_reached self' else false) self'

-- What follows the insertion or update.
unfoldable pub settle_insertion : Option ℕ → Dictionary → Insertion → Setting
settle_insertion location self Insertion.raised = Setting.raised (clean_up location self)
settle_insertion location self Insertion.contended = Setting.contended self
settle_insertion location self Insertion.must_grow = Setting.must_grow (clean_up location self)
settle_insertion location self Insertion.unexpected =
    Setting.expectation_failed (clean_up location self)
settle_insertion location self (Insertion.inserted m) =
    count_insert location (record self { metadata = m })
settle_insertion location self (Insertion.replaced old m) =
    Setting.current old (clean_up location (record self { metadata = m }))

module _ (py : Runtime) (key : Object) (hash : ℕ) (desired : Object) where
  -- With an entry, if one is left, the stores of the key come first.
  abbrev pub settle_granted : Expected → Option ℕ × Dictionary → Setting
  settle_granted expected (none, self) = Setting.must_grow self
  settle_granted expected (some location, self) =
      let filled : Dictionary = record self {
        metadata = fill_entry location key hash desired (self.metadata);
      } in
      settle_insertion (some location) filled
        (expected_insert_or_update py key hash expected desired location false (filled.metadata))

module _ (py : Runtime) (self : Dictionary) (key : Object) (hash : ℕ) (desired : Object) where
  unfoldable pub set_reserved : Expected → Setting
  set_reserved expected = settle_granted py key hash desired expected (get_empty_entry hash self)

  -- A call that expects an object needs no entry.
  unfoldable pub set_expected : Expected → Setting
  unfolding set_reserved
  set_expected Expected.not_found = set_reserved Expected.not_found
  set_expected Expected.any = set_reserved Expected.any
  set_expected (Expected.object x) =
      settle_insertion none self
        (expected_insert_or_update py key hash (Expected.object x) desired 0 false (self.metadata))

unfoldable pub compare_and_set : Runtime → Dictionary → Argument → Argument → Argument → Setting
compare_and_set py self key expected desired = elim (object_of key) [
  | none ↦ Setting.value_error
  | some k ↦ elim (expected_of expected) [
    | none ↦ Setting.value_error
    | some e ↦ elim (object_of desired) [
      | none ↦ Setting.value_error
      | some v ↦ elim (py.hash_of k) [
        | none ↦ Setting.raised self
        | some hash ↦ set_expected py self k hash v e
      ]
    ]
  ]
]

-- `d[key] = value` and `del d[key]` from C: 0, a KeyError, another exception, or a larger table, which is
-- asked for before the store, or after an insertion.
pub data Stored : Type 0 where
  done raised must_grow inserted_must_grow : Dictionary → Stored
  key_error value_error contended : Stored

abbrev pub stored_of : Setting → Stored
stored_of Setting.value_error = Stored.value_error
stored_of (Setting.raised self) = Stored.raised self
stored_of (Setting.contended self) = Stored.contended
stored_of (Setting.must_grow self) = Stored.must_grow self
stored_of (Setting.expectation_failed self) = Stored.done self
stored_of (Setting.not_found false self) = Stored.done self
stored_of (Setting.not_found true self) = Stored.inserted_must_grow self
stored_of (Setting.current old self) = Stored.done self

abbrev pub removed_of : Dictionary → Removal → Stored
removed_of self (Removal.removed self') = Stored.done self'
removed_of self Removal.missing = Stored.key_error
removed_of self Removal.failed = Stored.raised self

unfoldable pub set_item : Runtime → Dictionary → Object → Argument → Stored
set_item py self key Argument.null = removed_of self (del_item py self key)
set_item py self key Argument.not_found = Stored.value_error
set_item py self key Argument.any = Stored.value_error
set_item py self key Argument.expectation_failed = Stored.value_error
set_item py self key (Argument.object value) =
    stored_of (compare_and_set py self (Argument.object key) Argument.any (Argument.object value))

-- The Python method returns None or raises ExpectationFailed, or the call asks for a larger table, as above.
pub data Reported : Type 0 where
  none_object expectation_failed raised must_grow inserted_must_grow : Dictionary → Reported
  value_error contended : Reported

unfoldable pub compare_and_set_callable :
    Runtime → Dictionary → Object → Argument → Argument → Reported
compare_and_set_callable py self key expected desired =
    elim (compare_and_set py self (Argument.object key) expected desired) [
      | value_error ↦ Reported.value_error
      | raised self' ↦ Reported.raised self'
      | contended self' ↦ Reported.contended
      | must_grow self' ↦ Reported.must_grow self'
      | expectation_failed self' ↦ Reported.expectation_failed self'
      | not_found grows self' ↦
          if grows then Reported.inserted_must_grow self' else Reported.none_object self'
      | current old self' ↦ Reported.none_object self'
    ]
