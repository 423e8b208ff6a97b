-- ===== src/Rt/Clock.antt =====
-- src/rt.cpp: `rt_now_ns` and `rt_sleep_until_prewarmed`. The readings of CLOCK_MONOTONIC_RAW are a
-- parameter, in order. A loop that a reading should end has fuel.
pub mod Awake
use axon_sdk_for_physical_ai.Common.{
  ℕ, zero, suc, ◌+◌, ◌-◌, ◌*◌, ◌/◌, ◌%◌, List, [], ◌∷◌, ◌++◌, Bool, true, false, Option, none, some,
  if◌then◌else◌, ltb, ◌&&◌, wrap64,
}
use axon_sdk_for_physical_ai.Subscriber.Deadline.{Timespec}

-- `rt_now_ns`, of a reading.
unfoldable pub rt_now_ns : Timespec → ℕ
rt_now_ns ts = wrap64 (ts.tv_sec * 1000000000 + ts.tv_nsec)

-- What a loop leaves: the last `now`, the readings taken, and the sleeps asked for.
pub record Waited : Type 0 where
  pub now : ℕ
  pub readings : ℕ
  pub sleeps : List Timespec

abbrev pub nap : ℕ → Timespec
nap rem = record { tv_sec = rem / 1000000000; tv_nsec = rem % 1000000000 }

-- The loop that sleeps until `wake`; with no fuel left it has not returned.
unfoldable pub sleep_loop : ℕ → (ℕ → Timespec) → ℕ → Waited → Option Waited
sleep_loop zero clock wake w = none
sleep_loop (suc fuel) clock wake w =
    let rest = sleep_loop fuel clock wake (record {
      now = rt_now_ns (clock w.readings);
      readings = w.readings + 1;
      sleeps = w.sleeps ++ nap (wake - w.now) ∷ [];
    }) in
    if ltb w.now wake then rest else some w

-- The loop that spins until the deadline.
unfoldable pub spin_loop : ℕ → (ℕ → Timespec) → ℕ → Waited → Option Waited
spin_loop zero clock deadline w = none
spin_loop (suc fuel) clock deadline w =
    let rest =
      spin_loop fuel clock deadline
        (record w { now = rt_now_ns (clock w.readings); readings = w.readings + 1 }) in
    if ltb w.now deadline then rest else some w

-- The first reading.
unfoldable pub start : (ℕ → Timespec) → Waited
start clock = record { now = rt_now_ns (clock 0); readings = 1; sleeps = [] }

-- `rt_sleep_until_prewarmed`: `spin_us` is a 32-bit count.
unfoldable pub rt_sleep_until_prewarmed : ℕ → (ℕ → Timespec) → ℕ → ℕ → Option Waited
rt_sleep_until_prewarmed fuel clock deadline spin_us =
    let spin = spin_us * 1000 in
    elim (if ltb spin deadline
      then sleep_loop fuel clock (deadline - spin) (start clock)
      else some (start clock)) [ none ↦ none | some w ↦ spin_loop fuel clock deadline w ]
