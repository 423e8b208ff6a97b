-- ===== src/Rt/Setup/Applied.antt =====
-- What a set-up that returns 0 has done.
use axon_sdk_for_physical_ai.Rt.Setup.Steps.{
  Configured, locked_after, affinity_after, fifo_after, then_do-true, trim-goes_on, lock-process,
  stack-goes_on, heap-process, pin-process, schedule-process,
}
use axon_sdk_for_physical_ai.Rt.Setup.Limit.{limit_latency-HoldAfter}
use mathlib.Core.Path.{fun_ext}
use axon_sdk_for_physical_ai.Common.{
  ◌≡◌, sym, ap, ◌∙◌, subst, true, arith, Bool-cases, inl, inr, if◌then◌else◌, ltb,
}
use axon_sdk_for_physical_ai.Os.{Os, Reply}
use axon_sdk_for_physical_ai.Rt.{touch_pages}
use axon_sdk_for_physical_ai.Rt.Setup.Still.{
  Still, until_pinned, until_pinned-Still, schedule-Still,
}
use axon_sdk_for_physical_ai.Rt.Setup.Hold.{OwnedBy, cpu_wanted, HoldAfter, HoldAfter-Still}
use axon_sdk_for_physical_ai.Rt.Setup.{
  RtSetupConfig, Process, Step, ◌then_do◌, trim, lock, stack_bytes, prefault_stack_pages,
  prefault_heap, pin, limit_latency, schedule, rt_setup_memory_and_sched,
}

then_do_assoc : (a b c : Step) → ((a then_do b) then_do c) ≡ (a then_do (b then_do c))
then_do_assoc a b c = fun_ext λ p. fun_ext λ s. elim (Bool-cases (a p s).0.0) [
  | inl on ↦ ground (arith, on)
  | inr out ↦ ground (arith, out)
]

setup-until_pinned :
    (cfg : RtSetupConfig)
    → rt_setup_memory_and_sched cfg
      ≡ (until_pinned cfg then_do limit_latency cfg then_do schedule cfg)
unfolding rt_setup_memory_and_sched
setup-until_pinned cfg =
    let rest = limit_latency cfg then_do schedule cfg in
    let tail4 = prefault_heap cfg then_do pin cfg in
    let tail3 = prefault_stack_pages cfg then_do tail4 in
    sym (
      then_do_assoc (trim cfg) (lock cfg then_do tail3) rest
      ∙ ap (λ x. trim cfg then_do x) (then_do_assoc (lock cfg) tail3 rest)
      ∙ ap (λ x. trim cfg then_do lock cfg then_do x)
          (then_do_assoc (prefault_stack_pages cfg) tail4 rest)
      ∙ ap (λ x. trim cfg then_do lock cfg then_do prefault_stack_pages cfg then_do x)
          (then_do_assoc (prefault_heap cfg) (pin cfg) rest))

-- The process after the steps up to the affinity.
abbrev pinned_process : RtSetupConfig → Reply → Process → Process
pinned_process cfg r p = record p {
  trim_disabled = if cfg.disable_malloc_trim then true else p.trim_disabled;
  locked = locked_after cfg.lock_all_memory r p.locked;
  stack_touched = if cfg.prefault_stack then touch_pages p.page stack_bytes else p.stack_touched;
  heap_touched =
      if ltb 0 cfg.prefault_heap_bytes
      then touch_pages p.page cfg.prefault_heap_bytes
      else p.heap_touched;
  affinity = affinity_after cfg.set_cpu_affinity cfg.cpu_id p.affinity;
}

until_pinned-process :
    (cfg : RtSetupConfig) (p : Process) (s : Os)
    → (until_pinned cfg p s).0.0 ≡ true
    → (until_pinned cfg p s).0.1 ≡ pinned_process cfg (s.reply s.calls) p
until_pinned-process cfg p s e =
    let p1 : Process = record p {
      trim_disabled = if cfg.disable_malloc_trim then true else p.trim_disabled;
    } in
    let tail4 = prefault_heap cfg then_do pin cfg in
    let tail3 = prefault_stack_pages cfg then_do tail4 in
    let r1 = trim-goes_on cfg p s in
    let a1 : until_pinned cfg p s ≡ (lock cfg then_do tail3) p1 s = ground (arith, r1) in
    let (t2, a2) = then_do-true (lock cfg) tail3 p1 s (ap (λ x. x.0.0) (sym a1) ∙ e) in
    let l2 = lock-process cfg p1 s t2 in
    let x2 = lock cfg p1 s in
    let p3 : Process = record x2.0.1 {
      stack_touched =
          if cfg.prefault_stack then touch_pages x2.0.1.page stack_bytes else x2.0.1.stack_touched;
    } in
    let a3 : tail3 x2.0.1 x2.1 ≡ tail4 p3 x2.1 = ground (arith, stack-goes_on cfg x2.0.1 x2.1) in
    let to3 = a1 ∙ a2 ∙ a3 in
    let (t4, a4) =
      then_do-true (prefault_heap cfg) (pin cfg) p3 x2.1 (ap (λ x. x.0.0) (sym to3) ∙ e) in
    let x4 = prefault_heap cfg p3 x2.1 in
    let l4 = heap-process cfg p3 x2.1 t4 in
    let to4 = to3 ∙ a4 in
    let l5 = pin-process cfg x4.0.1 x4.1 (ap (λ x. x.0.0) (sym to4) ∙ e) in
    let stacked =
      ap {A = Process} {B = Process}
        (λ x. record x {
          stack_touched =
              if cfg.prefault_stack then touch_pages x.page stack_bytes else x.stack_touched;
          heap_touched =
              if ltb 0 cfg.prefault_heap_bytes
              then touch_pages x.page cfg.prefault_heap_bytes
              else x.heap_touched;
        })
        l2 in
    ap (λ x. x.0.1) to4
    ∙ l5
    ∙ ap {A = Process} {B = Process}
        (λ x. record x { affinity = affinity_after cfg.set_cpu_affinity cfg.cpu_id x.affinity })
        (l4 ∙ stacked)

-- The fields of a process at the end of the steps.
chain-Configured :
    (cfg : RtSetupConfig) (r : Reply) (p p5 p6 p7 : Process)
    → p5 ≡ pinned_process cfg r p
    → p6 ≡ record p5 { setup_hold = p6.setup_hold }
    → p7 ≡ record p6 { fifo = fifo_after cfg.sched_priority p6.fifo }
    → Configured cfg r p p7
chain-Configured cfg r p p5 p6 p7 e5 e6 e7 = record {
  trimmed = ground (arith, e5, e6, e7);
  wired = ground (arith, e5, e6, e7);
  stack = ground (arith, e5, e6, e7);
  heap = ground (arith, e5, e6, e7);
  pinned = ground (arith, e5, e6, e7);
  scheduled = ground (arith, e5, e6, e7);
}

-- When `rt_setup_memory_and_sched` returns 0, for a process whose earlier hold, if it has one, is its own, the
-- process has what the configuration asks for and is otherwise as it was: the trim threshold, the stack and
-- the heap touched page by page, the CPU and the priority; the memory is wired unless the first `mlockall`
-- fails with an error other than EINVAL, and then it is as it was. The steps up to the affinity leave sysfs
-- and the descriptors alone. From then on, without a latency asked for, so do the others and the hold is as
-- it was; with one, the process has a new hold of that latency: of the CPU of the affinity if it is set, whose
-- attribute then has that limit, otherwise of the system, by an open descriptor. The earlier hold has been let
-- go first: its descriptor, if it has one, is closed, and the value that it keeps of a CPU is back, if the
-- write of it succeeds; no other attribute or descriptor has changed.
pub rt_setup-Configured :
    (cfg : RtSetupConfig) (p : Process) (s : Os)
    → OwnedBy s.pid p.setup_hold
    → (rt_setup_memory_and_sched cfg p s).0.0 ≡ true
    → Configured cfg (s.reply s.calls) p (rt_setup_memory_and_sched cfg p s).0.1
      × Still s (until_pinned cfg p s).1
      × HoldAfter cfg.cpu_latency_us
          (cpu_wanted cfg.set_cpu_affinity cfg.cpu_id)
          p.setup_hold
          (rt_setup_memory_and_sched cfg p s).0.1.setup_hold
          (until_pinned cfg p s).1
          (rt_setup_memory_and_sched cfg p s).1
rt_setup-Configured cfg p s own e =
    let pre = until_pinned cfg p s in
    let rest = limit_latency cfg then_do schedule cfg in
    let whole = ap (λ f. f p s) (setup-until_pinned cfg) in
    let still = until_pinned-Still cfg p s in
    let (t1, a1) = then_do-true (until_pinned cfg) rest p s (ap (λ x. x.0.0) (sym whole) ∙ e) in
    let l1 = until_pinned-process cfg p s t1 in
    let to1 = whole ∙ a1 in
    let (t2, a2) =
      then_do-true (limit_latency cfg) (schedule cfg) pre.0.1 pre.1
        (ap (λ x. x.0.0) (sym to1) ∙ e) in
    let x2 = limit_latency cfg pre.0.1 pre.1 in
    let same_hold : pre.0.1.setup_hold ≡ p.setup_hold = ap (λ x. x.setup_hold) l1 in
    let owned : OwnedBy pre.1.pid pre.0.1.setup_hold =
      subst (OwnedBy pre.1.pid) (sym same_hold)
        (subst (λ n. OwnedBy n p.setup_hold) (sym still.pid) own) in
    let (l2, held) = limit_latency-HoldAfter cfg pre.0.1 pre.1 owned t2 in
    let to2 = to1 ∙ a2 in
    let x3 = schedule cfg x2.0.1 x2.1 in
    let l3 = schedule-process cfg x2.0.1 x2.1 (ap (λ x. x.0.0) (sym to2) ∙ e) in
    let cpu = cpu_wanted cfg.set_cpu_affinity cfg.cpu_id in
    let after =
      HoldAfter-Still cfg.cpu_latency_us cpu pre.0.1.setup_hold x2.0.1.setup_hold pre.1 x2.1 x3.1
        (schedule-Still cfg x2.0.1 x2.1) held in
    let kept : x2.0.1.setup_hold ≡ x3.0.1.setup_hold = ap (λ x. x.setup_hold) (sym l3) in
    let ended =
      subst (λ o. HoldAfter cfg.cpu_latency_us cpu o x3.0.1.setup_hold pre.1 x3.1) same_hold
        (subst (λ h. HoldAfter cfg.cpu_latency_us cpu pre.0.1.setup_hold h pre.1 x3.1) kept
          after) in
    subst
      (λ x.
        Configured cfg (s.reply s.calls) p x.0.1
        × Still s pre.1
        × HoldAfter cfg.cpu_latency_us cpu p.setup_hold x.0.1.setup_hold pre.1 x.1)
      (sym to2)
      (chain-Configured cfg (s.reply s.calls) p pre.0.1 x2.0.1 x3.0.1 l1 l2 l3, still, ended)
