-- ===== src/AtomicDict/Sequence/Expectations.antt =====
-- The calls whose key has a hash, and the compare-and-set of a map by its expectation
-- (src/cereggii/atomic_dict/insert.c).
use cereggii.Common.{ℕ, true, false, List, [], ◌∷◌, none, some, ◌⊎◌, ◌≡◌, refl, arith, ◌==◌}
use cereggii.Common.Int.{pos, ◌+ℤ◌}
use cereggii.AtomicDict.Runtime.{Object, Runtime}
use cereggii.AtomicDict.Accessor.{Dictionary}
use cereggii.AtomicDict.Insert.{Expected}
use cereggii.AtomicDict.Insert.Rounds.{MayInsert, Meets}
use cereggii.AtomicDict.Sequence.{Command, Answer, Performed, Map, put, compared}
use cereggii.AtomicDict.CompareAndSet.Contract.{IsDue}
use cereggii.AtomicDict.Sequence.Related.{IsRelated}

-- The key of a call has a hash.
abbrev pub HasHash : Runtime → Command → Type 0
HasHash py (Command.get key) = (hash : ℕ) × (py.hash_of key ≡ some hash)
HasHash py (Command.get_or key default_value) = (hash : ℕ) × (py.hash_of key ≡ some hash)
HasHash py (Command.set key value) = (hash : ℕ) × (py.hash_of key ≡ some hash)
HasHash py (Command.compare key expected desired) = (hash : ℕ) × (py.hash_of key ≡ some hash)
HasHash py (Command.delete key) = (hash : ℕ) × (py.hash_of key ≡ some hash)
HasHash py Command.len = Unit

abbrev pub AllHashed : Runtime → List Command → Type 0
AllHashed py [] = Unit
AllHashed py (command ∷ rest) = HasHash py command × AllHashed py rest

-- A call gives the answer of the map, and the dictionary stands for the map after it; or it asks
-- for a larger table first, and the dictionary stands for the same map.
abbrev pub Follows : Runtime → Map → Answer × Map → Performed → Type 0
Follows py map (answer, map') (Performed.asks_before self') = IsRelated py self' map
Follows py map (answer, map') (Performed.answered given self') =
    (given ≡ answer) × IsRelated py self' map'
Follows py map (answer, map') (Performed.asks_after given self') =
    (given ≡ answer) × IsRelated py self' map'

-- A larger table is asked for after an insertion that makes it due, and no insertion that makes it due goes
-- without.
abbrev pub Asks : Dictionary → Performed → Type 0
Asks self (Performed.asks_before self') = self'.storage.local_inserted ≡ self.storage.local_inserted
Asks self (Performed.answered given self') =
    (self'.storage.local_inserted ≡ self.storage.local_inserted) ⊎ (¬ IsDue self')
Asks self (Performed.asks_after given self') =
    (self'.storage.local_inserted ≡ self.storage.local_inserted +ℤ pos 1) × IsDue self'

-- The map's compare-and-set, by whether the expectation is met.
module _ (py : Runtime) (key desired : Object) (map : Map) where
  pub compared-insert :
      (expected : Expected)
      → MayInsert expected
      → compared py key expected desired map none
        ≡ (Answer.not_found, put py key (some desired) (pos 1) map)
  compared-insert Expected.not_found may = refl
  compared-insert Expected.any may = refl
  compared-insert (Expected.object x) may = absurd may

  pub compared-absent :
      (expected : Expected)
      → ¬ MayInsert expected
      → compared py key expected desired map none ≡ (Answer.expectation_failed, map)
  compared-absent Expected.not_found never = absurd (never tt)
  compared-absent Expected.any never = absurd (never tt)
  compared-absent (Expected.object x) never = refl

  pub compared-met :
      (expected : Expected) (old : Object)
      → Meets expected old
      → compared py key expected desired map (some old)
        ≡ (Answer.object old, put py key (some desired) (pos 0) map)
  compared-met Expected.not_found old met = absurd met
  compared-met Expected.any old met = refl
  compared-met (Expected.object x) old met =
      let test : (old == x) ≡ true = ground arith in rw test refl

  pub compared-unmet :
      (expected : Expected) (old : Object)
      → ¬ Meets expected old
      → compared py key expected desired map (some old) ≡ (Answer.expectation_failed, map)
  compared-unmet Expected.not_found old unmet = refl
  compared-unmet Expected.any old unmet = absurd (unmet tt)
  compared-unmet (Expected.object x) old unmet =
      let test : (old == x) ≡ false = ground (arith, unmet) in rw test refl
