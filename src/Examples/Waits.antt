-- ===== src/Examples/Waits.antt =====
-- Two subscribers wait; the second one gets a frame in round 1.
use axon_sdk_for_physical_ai.Common.{
  ℕ, zero, suc, [], ◌∷◌, true, none, some, pos, arith, refl, e_again,
}
use axon_sdk_for_physical_ai.Os.{fails}
use axon_sdk_for_physical_ai.Subscriber.{has_update}
use axon_sdk_for_physical_ai.Subscriber.Deadline.{Timespec, deadline_after}
use axon_sdk_for_physical_ai.Subscriber.Wait.{Round, wait_any, checked}
use axon_sdk_for_physical_ai.Subscriber.Wait.Rounds.{Waits, IsQuiet, has_new, wait_any-ends}
use axon_sdk_for_physical_ai.Examples.Subscribers.{subscriber}

abbrev second : ℕ → Round
second k = record {
  channels = λ i. elim i [
    | zero ↦ record { word = some subscriber.seen_notify; read = none }
    | suc j ↦ elim k [
      | zero ↦ record { word = some subscriber.seen_notify; read = none }
      | suc l ↦ record { word = some (suc subscriber.seen_notify); read = none }
    ]
  ];
  clock = record { tv_sec = 7; tv_nsec = 3 };
  woken = fails e_again;
}

abbrev seven : Timespec
seven = record { tv_sec = 7; tv_nsec = 0 }

second-IsQuiet : ¬ IsQuiet true (deadline_after seven 40) (subscriber ∷ subscriber ∷ []) (second 1)
unfolding has_new has_update
second-IsQuiet quiet = absurd (ground (arith, quiet.nothing 1))

wait_any-ends_example :
    Waits true
      (deadline_after seven 40)
      (subscriber ∷ subscriber ∷ [])
      second
      0
      1
      (wait_any 128 2 (some subscriber ∷ some subscriber ∷ []) (pos 40) seven second)
unfolding checked
wait_any-ends_example =
    wait_any-ends 128 2 1 (some subscriber ∷ some subscriber ∷ []) (subscriber ∷ subscriber ∷ [])
      (pos 40) seven second refl refl (omega arith) second-IsQuiet
