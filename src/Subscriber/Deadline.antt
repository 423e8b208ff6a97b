-- ===== src/Subscriber/Deadline.antt =====
-- src/subscriber.cpp: the deadline of a wait, on a clock of seconds and nanoseconds.
use axon_sdk_for_physical_ai.Common.{
  ℕ, ◌+◌, ◌-◌, ◌*◌, ◌/◌, ◌%◌, ◌≤◌, ◌<◌, ◌≡◌, ◌↔◌, Bool, true, arith, if◌then◌else◌, ltb, leb, ◌==◌,
  ◌&&◌, ◌||◌,
}

-- `timespec`.
pub record Timespec : Type 0 where
  pub tv_sec : ℕ
  pub tv_nsec : ℕ

-- `deadline_after`, from the time that the clock shows.
unfoldable pub deadline_after : Timespec → ℕ → Timespec
deadline_after t timeout_ms =
    let nsec = t.tv_nsec + timeout_ms % 1000 * 1000000 in
    let sec = t.tv_sec + timeout_ms / 1000 in
    if leb 1000000000 nsec
    then record { tv_sec = sec + 1; tv_nsec = nsec - 1000000000 }
    else record { tv_sec = sec; tv_nsec = nsec }

-- `past`, when the clock shows `now`.
unfoldable pub past : Timespec → Timespec → Bool
past now d = ltb d.tv_sec now.tv_sec || (now.tv_sec == d.tv_sec) && leb d.tv_nsec now.tv_nsec

abbrev pub nanoseconds : Timespec → ℕ
nanoseconds t = t.tv_sec * 1000000000 + t.tv_nsec

abbrev pub IsNormal : Timespec → Type 0
IsNormal t = t.tv_nsec < 1000000000

deadline_after-nanoseconds :
    (t : Timespec) (timeout_ms : ℕ)
    → IsNormal t
    → (nanoseconds (deadline_after t timeout_ms) ≡ nanoseconds t + timeout_ms * 1000000)
      × IsNormal (deadline_after t timeout_ms)
unfolding deadline_after
deadline_after-nanoseconds t timeout_ms h = (ground arith, ground arith)

past_iff :
    (now d : Timespec)
    → IsNormal now
    → IsNormal d
    → (past now d ≡ true) ↔ (nanoseconds d ≤ nanoseconds now)
unfolding past
past_iff now d a b = ground arith

-- With nanoseconds below a second on both clock readings, a deadline is past exactly when the timeout,
-- in milliseconds, has gone by since it was set.
pub past-deadline_after :
    (start now : Timespec) (timeout_ms : ℕ)
    → IsNormal start
    → IsNormal now
    → (past now (deadline_after start timeout_ms) ≡ true)
      ↔ (nanoseconds start + timeout_ms * 1000000 ≤ nanoseconds now)
past-deadline_after start now timeout_ms a b =
    let d = deadline_after-nanoseconds start timeout_ms a in
    let iff = past_iff now (deadline_after start timeout_ms) b d.1 in
    (λ e. omega (arith, iff.0 e, d.0), λ le. iff.1 (omega (arith, le, d.0)))
