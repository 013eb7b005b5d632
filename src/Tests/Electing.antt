-- ===== src/Tests/Electing.antt =====
-- The first of two threads leads a resize and fails, and the second one follows it.
use cereggii.Common.{true, false, refl, arith}
use cereggii.AtomicDict.Resize.Leader.{Phase, Resize, ResizeAccess, moves, untouched, Comes}
use cereggii.AtomicDict.Resize.Leader.Correct.{IsOrderly, Comes-IsOrderly}

abbrev led : Resize
led = moves 0 Phase.leading (record (moves 0 Phase.electing untouched) { resize_leader = 1 })

led-comes : Comes led
led-comes =
    Comes.then (Comes.then Comes.start (ResizeAccess.load_none _ 0 refl refl))
      (ResizeAccess.win _ 0 refl refl)

abbrev gone : Resize
gone =
    moves 0 Phase.failed
      (record (moves 0 Phase.failing_ready
        (record (moves 0 Phase.failing_migration
          (record (moves 0 Phase.failing_done (moves 1 Phase.following led)) {
            resize_done = true;
          })) { node_migration_done = true })) { new_metadata_ready = true })

gone-comes : Comes gone
gone-comes =
    Comes.then
      (Comes.then
        (Comes.then
          (Comes.then (Comes.then led-comes (ResizeAccess.load_leader _ 1 refl (omega arith)))
            (ResizeAccess.give_up _ 0 refl))
          (ResizeAccess.fail_done _ 0 refl))
        (ResizeAccess.fail_migration _ 0 refl))
      (ResizeAccess.fail_ready _ 0 refl)

abbrev followed : Resize
followed = moves 1 Phase.returned (moves 1 (Phase.left false) (moves 1 (Phase.entering false) gone))

followed-comes : Comes followed
followed-comes =
    Comes.then
      (Comes.then (Comes.then gone-comes (ResizeAccess.wake _ 1 refl refl))
        (ResizeAccess.skip _ 1 false refl refl))
      (ResizeAccess.follow _ 1 refl refl)

Comes-IsOrderly_example : IsOrderly followed
Comes-IsOrderly_example = Comes-IsOrderly followed followed-comes
