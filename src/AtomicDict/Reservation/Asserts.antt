-- ===== src/AtomicDict/Reservation/Asserts.antt =====
-- The assertions of `reservation_buffer_put` where pages.c reserves a group
-- (src/cereggii/atomic_dict/accessor_storage.c).
use cereggii.Common.{◌^◌, ◌≤◌, ◌≡◌, true, arith}
use native.Mathlib.Nat.{pow-le-pow_right, one-le-pow}
use cereggii.AtomicDict.Runtime.{Runtime}
use cereggii.AtomicDict.Accessor.{Dictionary, put_asserts}
use cereggii.AtomicDict.Reservation.Invariant.{IsSound}

-- In a sound dictionary whose buffer is used up, a group may be put into it.
put_asserts-used_up :
    (py : Runtime) (self : Dictionary)
    → IsSound py self
    → self.storage.reservation_buffer.used ≡ self.storage.reservation_buffer.size
    → put_asserts (self.storage.reservation_buffer) (self.reservation_buffer_size) ≡ true
put_asserts-used_up py self sound used_up =
    let (k, small, size) = sound.allocated.aligned in
    let low : 1 ≤ 2 ^ k = one-le-pow k 2 (omega arith) in
    let high : 2 ^ k ≤ 2 ^ 6 = pow-le-pow_right (omega arith) small in
    ground (arith, low, high, size, used_up)
