-- ===== src/Notify/Lost.antt =====
-- The window: a consumer that raises its flag between `notify.fetch_add` and `waiters.exchange` of one
-- publish can have the flag taken before it sleeps.
use native.Mathlib.Decide.{ℕ_discrete}
use axon_sdk_for_physical_ai.Common.{ap, ℕ, zero, suc, ◌+◌, ◌≡◌, refl, false, arith}
use axon_sdk_for_physical_ai.Notify.{
  System, idle, took, asleep, Reach, start, later, bump, take_flag, wake, no_wake, look, commit,
  raise, no_update, sleep,
}

-- The publisher is between publishes, the flag is down, and consumer `j` sleeps.
pub record Stuck (s : System) (j behind : ℕ) : Type 0 where
  pub between : s.publisher ≡ idle
  pub down : s.waiters ≡ false
  pub sleeps : (s.consumer j).place ≡ asleep
  pub missed : s.bumps ≡ (s.consumer j).seen_at + behind

-- A publish adds one to what a stuck consumer has missed, and does not wake it.
Stuck-publish :
    {s : System} (j behind : ℕ)
    → Reach false s
    → Stuck s j behind
    → (t : System) × Reach false t × Stuck t j (suc behind)
Stuck-publish {s = s} j behind r k = (
  _,
  later (later (later r (bump k.between)) (take_flag refl)) (no_wake (ap took k.down)),
  record { between = refl; down = refl; sleeps = k.sleeps; missed = omega (arith, k.missed) },
)

-- After one frame is published, read and waited on, with the publisher held up inside its window:
-- the counter is at 1, consumer 0 has seen it and sleeps, and the flag is down.
window : (s : System) × Reach false s × Stuck s 0 0
unfolding ℕ_discrete
window = (
  _,
  later
      (later
        (later
          (later
            (later
              (later (later (later start (bump refl)) (look 0 refl))
                (commit 0 {v = 1} {v_at = 1} refl))
              (raise 0 refl (λ e. cc)))
            (take_flag refl))
          (no_update 0 refl refl))
        (wake refl))
      (sleep 0 refl refl),
  record { between = refl; down = refl; sleeps = refl; missed = refl },
)

-- For every number of publishes there is a reachable state in which consumer 0 sleeps though it has
-- missed as many, the publisher is between publishes, and no wake-up is on its way.
pub lost_wakeup : (missed : ℕ) → (s : System) × Reach false s × Stuck s 0 missed
lost_wakeup zero = window
lost_wakeup (suc n) = let (s, r, k) = lost_wakeup n in Stuck-publish 0 n r k
