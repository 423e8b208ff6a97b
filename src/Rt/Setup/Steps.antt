-- ===== src/Rt/Setup/Steps.antt =====
-- What each step of a set-up (src/rt.cpp) does to the process.
use axon_sdk_for_physical_ai.Common.{
  ℕ, suc, ◌≡◌, ℤ, pos, Bool, true, false, Option, some, arith, Bool-cases, inl, inr, if◌then◌else◌,
  ltb,
}
use axon_sdk_for_physical_ai.Os.{Os, Reply, done, fails, call}
use axon_sdk_for_physical_ai.Os.Ledger.{Reply-cases}
use axon_sdk_for_physical_ai.Rt.{touch_pages}
use axon_sdk_for_physical_ai.Rt.Setup.{
  RtSetupConfig, Process, is_inval, Step, stop, go_on, ◌then_do◌, trim, lock_again, lock,
  stack_bytes, prefault_stack_pages, prefault_heap, pin_to, pin, raise_to, schedule,
}

-- `mlockall` by its first reply, in a set-up that returns 0.
abbrev pub locked_after : Bool → Reply → Bool → Bool
locked_after false r before = before
locked_after true (done n) before = true
locked_after true (fails e) before = if is_inval e then true else before

-- The CPU, by whether it is set and its number.
abbrev pub affinity_after : Bool → ℤ → Option ℕ → Option ℕ
affinity_after true (pos cpu) before = some cpu
affinity_after _ _ before = before

abbrev pub fifo_after : ℤ → Option ℕ → Option ℕ
fifo_after (pos (suc n)) before = some (suc n)
fifo_after _ before = before

-- What a configuration asks of a process, from `p` to `q`, but for the hold, if `mlockall` replies `r`.
pub record Configured (cfg : RtSetupConfig) (r : Reply) (p q : Process) : Type 0 where
  pub trimmed : q.trim_disabled ≡ (if cfg.disable_malloc_trim then true else p.trim_disabled)
  pub wired : q.locked ≡ locked_after cfg.lock_all_memory r p.locked
  pub stack :
      q.stack_touched
      ≡ (if cfg.prefault_stack then touch_pages p.page stack_bytes else p.stack_touched)
  pub heap : q.heap_touched ≡ (
      if ltb 0 cfg.prefault_heap_bytes
      then touch_pages p.page cfg.prefault_heap_bytes
      else p.heap_touched)
  pub pinned : q.affinity ≡ affinity_after cfg.set_cpu_affinity cfg.cpu_id p.affinity
  pub scheduled : q.fifo ≡ fifo_after cfg.sched_priority p.fifo

pub then_do-true :
    (a b : Step) (p : Process) (s : Os)
    → ((a then_do b) p s).0.0 ≡ true
    → ((a p s).0.0 ≡ true) × ((a then_do b) p s ≡ b (a p s).0.1 (a p s).1)
then_do-true a b p s e = elim (Bool-cases (a p s).0.0) [
  | inl t ↦ (t, ground (arith, t))
  | inr f ↦ absurd (ground (arith, f, e))
]

pub trim-goes_on :
    (cfg : RtSetupConfig) (p : Process) (s : Os)
    → trim cfg p s ≡ (
      (
        true,
        record p { trim_disabled = if cfg.disable_malloc_trim then true else p.trim_disabled },
      ),
      s,
    )
unfolding trim go_on
trim-goes_on cfg p s = ground arith

pub lock-process :
    (cfg : RtSetupConfig) (p : Process) (s : Os)
    → (lock cfg p s).0.0 ≡ true
    → (lock cfg p s).0.1
      ≡ record p { locked = locked_after cfg.lock_all_memory (s.reply s.calls) p.locked }
unfolding lock lock_again go_on stop call
lock-process cfg p s e = elim (Bool-cases cfg.lock_all_memory) [
  | inr off ↦ ground (arith, off)
  | inl on ↦ elim (Reply-cases (s.reply s.calls)) [
    | inl (n, r) ↦ ground (arith, on, r)
    | inr (err, r) ↦ ground (arith, on, r, e)
  ]
]

pub stack-goes_on :
    (cfg : RtSetupConfig) (p : Process) (s : Os)
    → prefault_stack_pages cfg p s ≡ (
      (
        true,
        record p {
          stack_touched =
              if cfg.prefault_stack then touch_pages p.page stack_bytes else p.stack_touched;
        },
      ),
      s,
    )
unfolding prefault_stack_pages go_on
stack-goes_on cfg p s = ground arith

pub heap-process :
    (cfg : RtSetupConfig) (p : Process) (s : Os)
    → (prefault_heap cfg p s).0.0 ≡ true
    → (prefault_heap cfg p s).0.1 ≡ record p {
      heap_touched =
          if ltb 0 cfg.prefault_heap_bytes
          then touch_pages p.page cfg.prefault_heap_bytes
          else p.heap_touched;
    }
unfolding prefault_heap go_on stop
heap-process cfg p s e = ground (arith, e)

pub pin-process :
    (cfg : RtSetupConfig) (p : Process) (s : Os)
    → (pin cfg p s).0.0 ≡ true
    → (pin cfg p s).0.1
      ≡ record p { affinity = affinity_after cfg.set_cpu_affinity cfg.cpu_id p.affinity }
unfolding pin pin_to go_on stop
pin-process cfg p s e = ground (arith, e)

pub schedule-process :
    (cfg : RtSetupConfig) (p : Process) (s : Os)
    → (schedule cfg p s).0.0 ≡ true
    → (schedule cfg p s).0.1 ≡ record p { fifo = fifo_after cfg.sched_priority p.fifo }
unfolding schedule raise_to go_on stop
schedule-process cfg p s e = ground (arith, e)
