-- ===== src/Tests/Interleaving.antt =====
-- Two threads load the same word; the second to swap has to start again.
use cereggii.Common.{[], ◌∷◌, ◌≡◌, ◌≢◌, refl}
use cereggii.Common.Int.{ℤ, pos, ◌+ℤ◌}
use cereggii.AtomicInt.{Checked, add_or_set_overflow}
use cereggii.AtomicInt.Threads.{Call, System, Access, Step, Reaches}
use cereggii.AtomicInt.Threads.Balance.{total, Reaches-total}

abbrev system : ℤ → Call → Call → System
system integer a b = record { integer = integer; calls = a ∷ b ∷ [] }

abbrev s0 : System
s0 = system (pos 5) (Call.loading (pos 1)) (Call.loading (pos 2))

abbrev s1 : System
s1 = system (pos 5) (Call.swapping (pos 1) (pos 5)) (Call.loading (pos 2))

abbrev s2 : System
s2 = system (pos 5) (Call.swapping (pos 1) (pos 5)) (Call.swapping (pos 2) (pos 5))

abbrev s3 : System
s3 = system (pos 7) (Call.swapping (pos 1) (pos 5)) (Call.returned (pos 2) (pos 7))

abbrev s4 : System
s4 = system (pos 7) (Call.loading (pos 1)) (Call.returned (pos 2) (pos 7))

six : add_or_set_overflow (pos 5) (pos 1) ≡ Checked.result (pos 6)
unfolding add_or_set_overflow ◌+ℤ◌
six = refl

seven : add_or_set_overflow (pos 5) (pos 2) ≡ Checked.result (pos 7)
unfolding add_or_set_overflow ◌+ℤ◌
seven = refl

changed : pos 7 ≢ pos 5
changed e = cc e

run : Reaches s0 s4
run =
    Reaches.further s0 s3 s4
      (Reaches.further s0 s2 s3
        (Reaches.further s0 s1 s2
          (Reaches.further s0 s0 s1 (Reaches.here s0) (
            Step.step [] (Call.loading (pos 2) ∷ []) _ _ (pos 5) (pos 5)
              (Access.loads (pos 5) (pos 1) (pos 6) six)))
          (Step.step (Call.swapping (pos 1) (pos 5) ∷ []) [] _ _ (pos 5) (pos 5)
            (Access.loads (pos 5) (pos 2) (pos 7) seven)))
        (Step.step (Call.swapping (pos 1) (pos 5) ∷ []) [] _ _ (pos 5) (pos 7)
          (Access.swaps (pos 5) (pos 2) (pos 7) seven)))
      (Step.step [] (Call.returned (pos 2) (pos 7) ∷ []) _ _ (pos 7) (pos 7)
        (Access.retries (pos 7) (pos 1) (pos 5) changed))

Reaches-total_example : s4.integer +ℤ total (s0.calls) ≡ s0.integer +ℤ total (s4.calls)
Reaches-total_example = Reaches-total s0 s4 run
