-- ===== src/Notify/Wakeup.antt =====
-- The wake-ups while no consumer raises its flag inside the window of a publish.
use axon_sdk_for_physical_ai.Common.{ℕ, ◌+◌, ◌^◌, ◌<◌, ◌≡◌, ◌⊎◌, true, arith}
use axon_sdk_for_physical_ai.Notify.{
  System, idle, bumped, took, active, asleep, Consumer, Reach, awaken, notify_waiters,
}
use axon_sdk_for_physical_ai.Notify.Invariant.{Reach-Inv, at_place, Covered}

-- In a state reached without raising the flag inside a publish's window, a consumer that is asleep and
-- has missed publishes since it last loaded the counter, at least one and fewer than 2 ^ 32 (at which the
-- counter is back at the value that it waits on), is about to be woken: the publisher has the flag still
-- to take and it is up, or has taken it up and is at its FUTEX_WAKE.
pub no_lost_wakeup :
    {s : System} (j : ℕ)
    → Reach true s
    → (s.consumer j).place ≡ asleep
    → (s.consumer j).seen_at < s.bumps
    → s.bumps < (s.consumer j).seen_at + 2 ^ 32
    → ((s.publisher ≡ bumped) × (s.waiters ≡ true)) ⊎ (s.publisher ≡ took true)
no_lost_wakeup {s = s} j r e behind near = ground (arith, covered)
  where
    covered : Covered s (s.consumer j)
    covered = at_place s j asleep (Reach-Inv r) e

awaken_asleep : (c : Consumer) → c.place ≡ asleep → (awaken c).place ≡ active
awaken_asleep c e = ground arith

-- In a state reached without raising the flag inside a publish's window, with the publisher between
-- publishes, a consumer that is asleep and has missed fewer than 2 ^ 32 publishes since it last loaded
-- the counter has missed none, and the next publish wakes it.
pub next_publish_wakes :
    {s : System} (j : ℕ)
    → Reach true s
    → s.publisher ≡ idle
    → (s.consumer j).place ≡ asleep
    → s.bumps < (s.consumer j).seen_at + 2 ^ 32
    → (s.bumps ≡ (s.consumer j).seen_at) × (((notify_waiters s).consumer j).place ≡ active)
unfolding notify_waiters
next_publish_wakes {s = s} j r i e near =
    (ground (arith, covered), ground (arith, covered, awaken_asleep (s.consumer j) e))
  where
    covered : Covered s (s.consumer j)
    covered = at_place s j asleep (Reach-Inv r) e
