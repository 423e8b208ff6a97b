-- ===== src/Rt/Setup/Still.antt =====
-- src/rt.cpp: the steps of a set-up that leave sysfs and the descriptors alone.
use axon_sdk_for_physical_ai.Common.{◌≡◌, refl, ◌∙◌, Bool-cases, inl, inr, subst, arith}
use axon_sdk_for_physical_ai.Os.{Os, call}
use axon_sdk_for_physical_ai.Rt.Setup.{
  RtSetupConfig, Process, Step, stop, go_on, ◌then_do◌, trim, lock_again, lock,
  prefault_stack_pages, prefault_heap, pin_to, pin, raise_to, schedule,
}

-- What leaves the attributes, the descriptors and the process alone.
pub record Still (s t : Os) : Type 0 where
  pub attr : t.attr ≡ s.attr
  pub opened : t.opened ≡ s.opened
  pub closed : t.closed ≡ s.closed
  pub pid : t.pid ≡ s.pid

pub Still-refl : (s : Os) → Still s s
Still-refl s = record { attr = refl; opened = refl; closed = refl; pid = refl }

pub Still-trans : (s t u : Os) → Still s t → Still t u → Still s u
Still-trans s t u a b = record {
  attr = b.attr ∙ a.attr;
  opened = b.opened ∙ a.opened;
  closed = b.closed ∙ a.closed;
  pid = b.pid ∙ a.pid;
}

-- The steps before the latency limit.
abbrev pub until_pinned : RtSetupConfig → Step
until_pinned cfg =
    trim cfg
    then_do lock cfg
    then_do prefault_stack_pages cfg
    then_do prefault_heap cfg
    then_do pin cfg

then_do-Still :
    (a b : Step)
    → ((p : Process) (s : Os) → Still s (a p s).1)
    → ((p : Process) (s : Os) → Still s (b p s).1)
    → (p : Process) (s : Os) → Still s ((a then_do b) p s).1
then_do-Still a b ha hb p s = elim (Bool-cases (a p s).0.0) [
  | inr out ↦ subst (λ x. Still s x) (ground (arith, out)) (ha p s)
  | inl on ↦
      subst (λ x. Still s x) (ground (arith, on))
        (Still-trans s (a p s).1 (b (a p s).0.1 (a p s).1).1 (ha p s) (hb (a p s).0.1 (a p s).1))
]

module _ (cfg : RtSetupConfig) (p : Process) (s : Os) where
  trim-Still : Still s (trim cfg p s).1
  unfolding trim go_on
  trim-Still = record {
    attr = ground arith;
    opened = ground arith;
    closed = ground arith;
    pid = ground arith;
  }

  lock-Still : Still s (lock cfg p s).1
  unfolding lock lock_again go_on stop call
  lock-Still = record {
    attr = ground arith;
    opened = ground arith;
    closed = ground arith;
    pid = ground arith;
  }

  stack-Still : Still s (prefault_stack_pages cfg p s).1
  unfolding prefault_stack_pages go_on
  stack-Still = record {
    attr = ground arith;
    opened = ground arith;
    closed = ground arith;
    pid = ground arith;
  }

  heap-Still : Still s (prefault_heap cfg p s).1
  unfolding prefault_heap go_on stop call
  heap-Still = record {
    attr = ground arith;
    opened = ground arith;
    closed = ground arith;
    pid = ground arith;
  }

  pin-Still : Still s (pin cfg p s).1
  unfolding pin pin_to go_on stop call
  pin-Still = record {
    attr = ground arith;
    opened = ground arith;
    closed = ground arith;
    pid = ground arith;
  }

  pub schedule-Still : Still s (schedule cfg p s).1
  unfolding schedule raise_to go_on stop call
  schedule-Still = record {
    attr = ground arith;
    opened = ground arith;
    closed = ground arith;
    pid = ground arith;
  }

pub until_pinned-Still :
    (cfg : RtSetupConfig) (p : Process) (s : Os) → Still s (until_pinned cfg p s).1
until_pinned-Still cfg =
    let tail4 = prefault_heap cfg then_do pin cfg in
    let tail3 = prefault_stack_pages cfg then_do tail4 in
    then_do-Still (trim cfg) (lock cfg then_do tail3) (trim-Still cfg) (
      then_do-Still (lock cfg) tail3 (lock-Still cfg) (
        then_do-Still (prefault_stack_pages cfg) tail4 (stack-Still cfg)
          (then_do-Still (prefault_heap cfg) (pin cfg) (heap-Still cfg) (pin-Still cfg))))
