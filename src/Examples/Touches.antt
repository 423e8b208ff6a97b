-- ===== src/Examples/Touches.antt =====
-- A region of a little more than two pages, and a deadline.
use axon_sdk_for_physical_ai.Common.{◌≡◌, ◌≤◌, ◌+◌, ◌*◌, ◌↔◌, true, arith}
use axon_sdk_for_physical_ai.Subscriber.Deadline.{past, deadline_after, past-deadline_after}

past-deadline_after_example :
    (past
        (record { tv_sec = 9; tv_nsec = 100 })
        (deadline_after (record { tv_sec = 7; tv_nsec = 999000000 }) 1500)
      ≡ true)
    ↔ (7999000000 + 1500 * 1000000 ≤ 9000000100)
past-deadline_after_example =
    past-deadline_after (record { tv_sec = 7; tv_nsec = 999000000 })
      (record { tv_sec = 9; tv_nsec = 100 }) 1500 (omega arith) (omega arith)
