-- ===== src/Rt/Setup.antt =====
-- src/rt.cpp: `rt_setup_memory_and_sched`. What it changes of the process is a record; the calls whose
-- results the code ignores (`mallopt`, `free`) always succeed. Builds modelled define MCL_ONFAULT.
pub mod Still
pub mod Hold
pub mod Limit
pub mod Steps
pub mod Applied
use axon_sdk_for_physical_ai.Common.{
  ℕ, zero, suc, ◌+◌, ℤ, pos, negsuc, List, [], Bool, true, false, Option, none, some, if◌then◌else◌,
  ◌==◌, ltb, ◌&&◌, Errno, e_inval,
}
use axon_sdk_for_physical_ai.Os.{M, ◌>>=◌, ◌>>◌, pure, get_errno, call}
use axon_sdk_for_physical_ai.Rt.{touch_pages}
use axon_sdk_for_physical_ai.Rt.Latency.{CpuLatencyHold, acquire, release, assign}

-- `RtSetupConfig`.
pub record RtSetupConfig : Type 0 where
  pub sched_priority : ℤ
  pub lock_all_memory : Bool
  pub prefault_stack : Bool
  pub prefault_heap_bytes : ℕ
  pub set_cpu_affinity : Bool
  pub cpu_id : ℤ
  pub disable_malloc_trim : Bool
  pub cpu_latency_us : ℤ

-- The process that is set up. `locked` tells whether `mlockall` has succeeded; `setup_hold` is
-- `g_setup_latency_hold`; `fifo` is the priority under SCHED_FIFO.
pub record Process : Type 0 where
  pub page : ℕ
  pub trim_disabled : Bool
  pub locked : Bool
  pub stack_touched : List ℕ
  pub heap_touched : List ℕ
  pub affinity : Option ℕ
  pub setup_hold : Option CpuLatencyHold
  pub fifo : Option ℕ

abbrev pub is_inval : Errno → Bool
is_inval e_inval = true
is_inval _ = false

-- A step of the set-up: whether it goes on, and the process after it.
abbrev pub Step : Type 0
Step = Process → M (Bool × Process)

unfoldable pub stop : Step
stop p = pure (false, p)

unfoldable pub go_on : Step
go_on p = pure (true, p)

-- Steps one after the other, up to the first that returns -1.
infixr 4 ◌then_do◌
abbrev pub ◌then_do◌ : Step → Step → Step
(a then_do b) p = do r ← a p; elim (r.0) [ false ↦ pure r | true ↦ b r.1 ]

unfoldable pub trim : RtSetupConfig → Step
trim cfg p = if cfg.disable_malloc_trim then go_on (record p { trim_disabled = true }) else go_on p

-- The second `mlockall`, after EINVAL for MCL_ONFAULT.
unfoldable pub lock_again : Step
lock_again p = do
  second ← call
  elim second [ none ↦ stop p | some n ↦ go_on (record p { locked = true }) ]

-- `mlockall`; `flags` has MCL_ONFAULT, so the second condition is never met.
unfoldable pub lock : RtSetupConfig → Step
lock cfg p = elim cfg.lock_all_memory [
  | false ↦ go_on p
  | true ↦ do
    first ← call
    err ← get_errno
    elim first [
      | some n ↦ go_on (record p { locked = true })
      | none ↦ elim (is_inval err) [ true ↦ lock_again p | false ↦ go_on p ]
    ]
]

abbrev pub stack_bytes : ℕ
stack_bytes = 65536

unfoldable pub prefault_stack_pages : RtSetupConfig → Step
prefault_stack_pages cfg p = elim cfg.prefault_stack [
  | true ↦ go_on (record p { stack_touched = touch_pages p.page stack_bytes })
  | false ↦ go_on p
]

unfoldable pub prefault_heap : RtSetupConfig → Step
prefault_heap cfg p = elim (ltb 0 cfg.prefault_heap_bytes) [
  | false ↦ go_on p
  | true ↦ do
    heap ← call
    elim heap [
      | none ↦ stop p
      | some address ↦
          go_on (record p { heap_touched = touch_pages p.page cfg.prefault_heap_bytes })
    ]
]

unfoldable pub pin_to : ℕ → Step
pin_to cpu p = do
  r ← call
  elim r [ none ↦ stop p | some n ↦ go_on (record p { affinity = some cpu }) ]

unfoldable pub pin : RtSetupConfig → Step
pin cfg p = elim cfg.set_cpu_affinity [
  | false ↦ go_on p
  | true ↦ elim cfg.cpu_id [ negsuc n ↦ go_on p | pos cpu ↦ pin_to cpu p ]
]

-- `g_setup_latency_hold.reset()`.
unfoldable pub reset_hold : Option CpuLatencyHold → M (Unit {0})
reset_hold none = pure tt
reset_hold (some h) = do _ ← release h; pure tt

abbrev pub hold_cpu : RtSetupConfig → ℤ
hold_cpu cfg = if cfg.set_cpu_affinity then cfg.cpu_id else negsuc 0

unfoldable pub limit_latency : RtSetupConfig → Step
limit_latency cfg p = elim cfg.cpu_latency_us [
  | negsuc n ↦ go_on p
  | pos us ↦ do
    reset_hold p.setup_hold
    hold ← acquire (pos us) (hold_cpu cfg)
    elim hold [
      | none ↦ stop (record p { setup_hold = none })
      | some h ↦ go_on (record p { setup_hold = some h })
    ]
]

unfoldable pub raise_to : ℕ → Step
raise_to priority p = do
  r ← call
  elim r [ none ↦ stop p | some n ↦ go_on (record p { fifo = some priority }) ]

unfoldable pub schedule : RtSetupConfig → Step
schedule cfg p = elim cfg.sched_priority [
  | negsuc n ↦ go_on p
  | pos priority ↦ elim (ltb 0 priority) [ true ↦ raise_to priority p | false ↦ go_on p ]
]

-- `rt_setup_memory_and_sched`: whether it returns 0.
unfoldable pub rt_setup_memory_and_sched : RtSetupConfig → Step
rt_setup_memory_and_sched cfg =
    trim cfg
    then_do lock cfg
    then_do prefault_stack_pages cfg
    then_do prefault_heap cfg
    then_do pin cfg
    then_do limit_latency cfg
    then_do schedule cfg
