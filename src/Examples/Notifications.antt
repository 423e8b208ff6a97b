-- ===== src/Examples/Notifications.antt =====
-- A consumer that goes to sleep before the first publish.
use native.Mathlib.Decide.{ℕ_discrete}
use axon_sdk_for_physical_ai.Common.{◌≡◌, ◌⊎◌, refl, true, false, arith}
use axon_sdk_for_physical_ai.Notify.{
  System, Reach, start, later, bumped, took, active, bump, raise, no_update, sleep, notify_waiters,
}
use axon_sdk_for_physical_ai.Notify.Wakeup.{no_lost_wakeup, next_publish_wakes}
use axon_sdk_for_physical_ai.Notify.Lost.{Stuck, lost_wakeup}

sleeping : (s : System) × Reach true s
unfolding ℕ_discrete
sleeping = (
  _,
  later (later (later start (raise 3 refl (λ e h. cc))) (no_update 3 refl refl))
      (sleep 3 refl refl),
)

published : (s : System) × Reach true s
unfolding sleeping
published = (_, later sleeping.1 (bump refl))

no_lost_wakeup_example :
    ((published.0.publisher ≡ bumped) × (published.0.waiters ≡ true))
    ⊎ (published.0.publisher ≡ took true)
unfolding published ℕ_discrete
no_lost_wakeup_example = no_lost_wakeup 3 published.1 refl (omega arith) (omega arith)

next_publish_wakes_example :
    (sleeping.0.bumps ≡ (sleeping.0.consumer 3).seen_at)
    × (((notify_waiters sleeping.0).consumer 3).place ≡ active)
unfolding sleeping ℕ_discrete
next_publish_wakes_example = next_publish_wakes 3 sleeping.1 refl refl (omega arith)

lost_wakeup_example : (s : System) × Reach false s × Stuck s 0 5
lost_wakeup_example = lost_wakeup 5
