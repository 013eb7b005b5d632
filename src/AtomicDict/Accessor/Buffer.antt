-- ===== src/AtomicDict/Accessor/Buffer.antt =====
-- The reservation buffer hands out each reserved entry once, in order
-- (src/cereggii/atomic_dict/accessor_storage.c).
use cereggii.Common.{
  ℕ, zero, suc, ◌+◌, ◌<◌, List, [], ◌∷◌, Option, none, some, ◌≡◌, true, false, ◌==◌, ◌-◌, refl, ◌∙◌,
  ap, arith,
}
use cereggii.AtomicDict.Accessor.{
  ReservationBuffer, reservation_buffer_pop, reservation_buffer_put_back_one,
}

-- Pops until the buffer gives nothing, at most so many times.
abbrev pub popped : Option ℕ × ReservationBuffer → (ReservationBuffer → List ℕ) → List ℕ
popped (none, rb) rest = []
popped (some location, rb) rest = location ∷ rest rb

unfoldable pub pop_all : ℕ → ReservationBuffer → List ℕ
pop_all zero rb = []
pop_all (suc times) rb = popped (reservation_buffer_pop rb) (pop_all times)

abbrev pub consecutive : ℕ → ℕ → List ℕ
consecutive from zero = []
consecutive from (suc n) = from ∷ consecutive (from + 1) n

pub pop_free :
    (rb : ReservationBuffer)
    → rb.used < rb.size
    → reservation_buffer_pop rb ≡ (some (rb.start + rb.used), record rb { used = rb.used + 1 })
unfolding reservation_buffer_pop
pop_free rb free = let apart : (rb.used == rb.size) ≡ false = ground arith in rw apart refl

pub pop_done : (rb : ReservationBuffer) → rb.used ≡ rb.size → reservation_buffer_pop rb ≡ (none, rb)
unfolding reservation_buffer_pop
pop_done rb full = let same : (rb.used == rb.size) ≡ true = ground arith in rw same refl

-- To put an entry back after a pop from a buffer that was not used up leaves the buffer as it was.
pub put_back_one-pop :
    (rb : ReservationBuffer)
    → rb.used < rb.size
    → reservation_buffer_put_back_one ((reservation_buffer_pop rb).1) ≡ rb
unfolding reservation_buffer_put_back_one
put_back_one-pop rb free =
    ap (λ r. reservation_buffer_put_back_one (r.1)) (pop_free rb free)
    ∙ ap (λ (k : ℕ). record rb { used = k }) {x = rb.used + 1 - 1} (omega arith)
