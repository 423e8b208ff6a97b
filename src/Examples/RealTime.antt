-- ===== src/Examples/RealTime.antt =====
-- Limits on a CPU's latency, a set-up and a wait.
use axon_sdk_for_physical_ai.Common.{
  ℕ, zero, suc, ◌+◌, ◌≡◌, ◌≤◌, ◌<◌, refl, pos, negsuc, List, [], ◌∷◌, true, false, none, some,
  e_perm, arith,
}
use axon_sdk_for_physical_ai.Os.{
  Os, CpuAttr, online, resume_latency, siblings_list, done, fails, new_device, call, call_open,
  close,
}
use axon_sdk_for_physical_ai.Os.Ledger.{Balanced}
use axon_sdk_for_physical_ai.Subscriber.Deadline.{Timespec}
use axon_sdk_for_physical_ai.Rt.Latency.{
  CpuLatencyHold, acquire, release, move, write_str, limit_text, put_attr, strip, acquire_cpu,
  read_line, read_attr, replace_limit, write_str, write_attr, take_hold, to_string, digits,
  acquire_system, took_four, let_go,
}
use axon_sdk_for_physical_ai.Rt.Latency.Restore.{release-acquire}
use axon_sdk_for_physical_ai.Rt.Latency.Owner.{acquire-move-release}
use axon_sdk_for_physical_ai.Rt.Setup.{
  RtSetupConfig, Process, trim, lock, lock_again, prefault_stack_pages, prefault_heap, pin, pin_to,
  limit_latency, schedule, raise_to, go_on, stop, reset_hold, rt_setup_memory_and_sched,
}
use axon_sdk_for_physical_ai.Rt.Setup.Still.{Still, until_pinned}
use axon_sdk_for_physical_ai.Rt.Setup.Hold.{HoldAfter}
use axon_sdk_for_physical_ai.Rt.Setup.Steps.{Configured}
use axon_sdk_for_physical_ai.Rt.Setup.Applied.{rt_setup-Configured}
use axon_sdk_for_physical_ai.Rt.Clock.{Waited, rt_now_ns, rt_sleep_until_prewarmed}
use axon_sdk_for_physical_ai.Rt.Clock.Awake.{rt_sleep_until_prewarmed-first}

-- "1\n" for `online`, "0\n" for the latency.
abbrev sysfs : CpuAttr → ℕ → List ℕ
sysfs online cpu = 49 ∷ 10 ∷ []
sysfs resume_latency cpu = 48 ∷ 10 ∷ []
sysfs siblings_list cpu = 48 ∷ 10 ∷ []

-- A system whose calls all return `n`.
abbrev answering : ℕ → ℕ → Os
answering n process = record {
  reply = λ i. done n;
  calls = 0;
  errno = e_perm;
  opened = [];
  closed = [];
  attr = sysfs;
  pid = process;
  device = new_device;
}

abbrev one_us : CpuLatencyHold
one_us = record { fd = none; cpu = some 3; us = 1; owner_pid = 7; restore = 48 ∷ [] }

release-acquire_example :
    ((acquire (pos 1) (pos 3) (answering 1 7)).1.attr resume_latency 3 ≡ limit_text 1)
    × ((a : CpuAttr) (c : ℕ)
        → (release one_us (acquire (pos 1) (pos 3) (answering 1 7)).1).1.attr a c
          ≡ put_attr sysfs resume_latency 3 (strip (sysfs resume_latency 3)) a c)
unfolding acquire acquire_cpu read_line read_attr replace_limit write_str write_attr take_hold
    call_open close strip limit_text to_string digits
release-acquire_example = release-acquire 1 3 (answering 1 7) one_us refl refl

abbrev system_hold : CpuLatencyHold
system_hold = record { fd = some 4; cpu = none; us = 0; owner_pid = 7; restore = [] }

acquire-move-release_example :
    Balanced 4
      (answering 4 7)
      0
      (release
        (move system_hold).0
        (release (move system_hold).1 (acquire (pos 0) (negsuc 0) (answering 4 7)).1).1).1
      0
    × ((release system_hold (answering 4 8)).1 ≡ answering 4 8)
unfolding acquire acquire_system took_four take_hold call_open call close
acquire-move-release_example =
    acquire-move-release 4 (pos 0) (negsuc 0) (answering 4 7) (answering 4 8) system_hold refl
      (omega arith)

-- Locks the memory, pins to CPU 2 and asks for priority 80 and a latency of 1 us.
abbrev pinned_80 : RtSetupConfig
pinned_80 = record {
  sched_priority = pos 80;
  lock_all_memory = true;
  prefault_stack = false;
  prefault_heap_bytes = 9000;
  set_cpu_affinity = true;
  cpu_id = pos 2;
  disable_malloc_trim = true;
  cpu_latency_us = pos 1;
}

-- A process that an earlier set-up has given a hold of the system.
abbrev fresh : Process
fresh = record {
  page = 4096;
  trim_disabled = false;
  locked = false;
  stack_touched = [];
  heap_touched = [];
  affinity = none;
  setup_hold = some system_hold;
  fifo = none;
}

-- `mlockall` fails with EPERM, and everything else succeeds.
abbrev may_not_lock : Os
may_not_lock = record (answering 1 7) {
  reply = λ i. elim i [ zero ↦ fails e_perm | suc n ↦ done 1 ];
}

rt_setup-Configured_example :
    Configured pinned_80
      (fails e_perm)
      fresh
      (rt_setup_memory_and_sched pinned_80 fresh may_not_lock).0.1
    × Still may_not_lock (until_pinned pinned_80 fresh may_not_lock).1
    × HoldAfter
        (pos 1)
        (some 2)
        (some system_hold)
        (rt_setup_memory_and_sched pinned_80 fresh may_not_lock).0.1.setup_hold
        (until_pinned pinned_80 fresh may_not_lock).1
        (rt_setup_memory_and_sched pinned_80 fresh may_not_lock).1
unfolding rt_setup_memory_and_sched trim lock lock_again prefault_stack_pages prefault_heap pin
    pin_to limit_latency schedule raise_to go_on stop call reset_hold release let_go acquire
    acquire_cpu read_line read_attr replace_limit write_str write_attr take_hold call_open close
    strip limit_text to_string digits
rt_setup-Configured_example = rt_setup-Configured pinned_80 fresh may_not_lock refl refl

abbrev ticks : ℕ → Timespec
ticks i = record { tv_sec = i; tv_nsec = 500 }

rt_sleep_until_prewarmed-first_example :
    (m : ℕ) × (v : Waited) × (rt_sleep_until_prewarmed 4 ticks 2500000000 2000 ≡ some v)
    × (v.now ≡ rt_now_ns (ticks m))
    × (v.readings ≡ m + 1)
    × (2500000000 ≤ v.now)
    × ((j : ℕ) → j < m → rt_now_ns (ticks j) < 2500000000)
unfolding rt_now_ns
rt_sleep_until_prewarmed-first_example =
    rt_sleep_until_prewarmed-first 4 ticks 2500000000 2000 3 (omega arith) (omega arith)
