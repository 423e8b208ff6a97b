-- ===== src/Rt/Setup/Limit.antt =====
-- src/rt.cpp: the step of a set-up that takes the latency limit.
use axon_sdk_for_physical_ai.Common.{
  ℤ-cases, ℕ, zero, suc, ◌≡◌, sym, ◌∙◌, subst, ℤ, pos, negsuc, true, Option, none, some, arith,
  Option-cases, inl, inr,
}
use axon_sdk_for_physical_ai.Os.{Os, call, call_open, close}
use axon_sdk_for_physical_ai.Os.Ledger.{Balanced}
use axon_sdk_for_physical_ai.Rt.Latency.{CpuLatencyHold, take_hold, acquire_system, acquire}
use axon_sdk_for_physical_ai.Rt.Latency.Restore.{acquire_cpu-IsHeld}
use axon_sdk_for_physical_ai.Rt.Latency.Owner.{fd_of, acquire-Balanced, acquire-us}
use axon_sdk_for_physical_ai.Rt.Setup.Still.{Still, Still-refl}
use axon_sdk_for_physical_ai.Rt.Setup.{
  RtSetupConfig, Process, stop, go_on, reset_hold, hold_cpu, limit_latency,
}
use axon_sdk_for_physical_ai.Rt.Setup.Hold.{
  OwnedBy, cpu_wanted, InForce, Replaced, HoldAfter, reset_hold-LetGo,
}

abbrev cpu_of : ℤ → Option ℕ
cpu_of (pos cpu) = some cpu
cpu_of (negsuc n) = none

hold_cpu-wanted :
    (cfg : RtSetupConfig) → cpu_of (hold_cpu cfg) ≡ cpu_wanted cfg.set_cpu_affinity cfg.cpu_id
hold_cpu-wanted cfg = ground arith

record Acquired (us : ℕ) (cpu : Option ℕ) (s t : Os) (h : CpuLatencyHold) : Type 0 where
  in_force : InForce us cpu s.attr h t
  owner : h.owner_pid ≡ s.pid

acquire_system-Acquired :
    (us : ℕ) (s : Os) (h : CpuLatencyHold)
    → (acquire_system us s).0 ≡ some h
    → Acquired us none s (acquire_system us s).1 h
unfolding acquire_system take_hold call_open call close
acquire_system-Acquired us s h e = elim (Option-cases (call_open s).0) [
  | inl out ↦ absurd (ground (arith, out, e))
  | inr (fd, at) ↦ record {
    in_force = (ground (arith, at, e), (fd, ground (arith, at, e)), ground (arith, at, e));
    owner = ground (arith, at, e);
  }
]

acquire-Acquired :
    (us : ℕ) (cpu : ℤ) (s : Os) (h : CpuLatencyHold)
    → (acquire (pos us) cpu s).0 ≡ some h
    → Acquired us (cpu_of cpu) s (acquire (pos us) cpu s).1 h
unfolding acquire
acquire-Acquired us (pos cpu) s h e =
    let is = acquire_cpu-IsHeld us cpu s h e in
    record { in_force = (is.of_cpu, is.no_fd, is.limited); owner = is.owner ∙ is.same_pid }
acquire-Acquired us (negsuc zero) s h e = acquire_system-Acquired us s h e
acquire-Acquired us (negsuc (suc n)) s h e = absurd (ground (arith, e))

-- The hold that was acquired once the old one was let go.
acquired-Replaced :
    (cfg : RtSetupConfig) (us : ℕ) (old new : Option CpuLatencyHold) (v end : Os)
    (h : CpuLatencyHold)
    → OwnedBy v.pid old
    → (acquire (pos us) (hold_cpu cfg) (reset_hold old v).1).0 ≡ some h
    → new ≡ some h
    → (acquire (pos us) (hold_cpu cfg) (reset_hold old v).1).1 ≡ end
    → Replaced us (cpu_wanted cfg.set_cpu_affinity cfg.cpu_id) old new v end
unfolding fd_of
acquired-Replaced cfg us old new v end h own got kept last =
    let t = (reset_hold old v).1 in
    let gone = reset_hold-LetGo old v own in
    let r = acquire (pos us) (hold_cpu cfg) t in
    let is = acquire-Acquired us (hold_cpu cfg) t h got in
    let force =
      subst (λ c. InForce us c t.attr h end) (hold_cpu-wanted cfg)
        (subst (InForce us (cpu_of (hold_cpu cfg)) t.attr h) last is.in_force) in
    record {
      hold = h;
      kept = kept;
      limit = acquire-us us (hold_cpu cfg) t h got;
      owner = is.owner ∙ gone.pid;
      in_force =
          subst (λ f. InForce us (cpu_wanted cfg.set_cpu_affinity cfg.cpu_id) f h end) gone.attr
            force;
      descriptors = λ a.
          let taken : Balanced a t 0 r.1 (fd_of a r.0) =
            omega (arith, acquire-Balanced a (pos us) (hold_cpu cfg) t 0) in
          let ended =
            subst (λ x. Balanced a t 0 end (fd_of a x)) (got ∙ sym kept)
              (subst (λ x. Balanced a t 0 x (fd_of a r.0)) last taken) in
          omega (arith, gone.descriptors a, ended);
    }

-- When the step of the latency limit goes on, nothing else of the process has changed, and the hold is as the
-- configuration asks.
pub limit_latency-HoldAfter :
    (cfg : RtSetupConfig) (p : Process) (v : Os)
    → OwnedBy v.pid p.setup_hold
    → (limit_latency cfg p v).0.0 ≡ true
    → ((limit_latency cfg p v).0.1
        ≡ record p { setup_hold = (limit_latency cfg p v).0.1.setup_hold })
      × HoldAfter cfg.cpu_latency_us
          (cpu_wanted cfg.set_cpu_affinity cfg.cpu_id)
          p.setup_hold
          (limit_latency cfg p v).0.1.setup_hold
          v
          (limit_latency cfg p v).1
unfolding limit_latency go_on stop
limit_latency-HoldAfter cfg p v own e =
    let new = (limit_latency cfg p v).0.1.setup_hold in
    let end = (limit_latency cfg p v).1 in
    let cpu = cpu_wanted cfg.set_cpu_affinity cfg.cpu_id in
    elim (ℤ-cases cfg.cpu_latency_us) [
      | inr (n, off) ↦ (
        ground (arith, off),
        subst (λ z. HoldAfter z cpu p.setup_hold new v end) (sym off)
            (ground (arith, off), subst (Still v) (ground (arith, off)) (Still-refl v)),
      )
      | inl (us, on) ↦
          let t = (reset_hold p.setup_hold v).1 in
          elim (Option-cases (acquire (pos us) (hold_cpu cfg) t).0) [
            | inl out ↦ absurd (ground (arith, on, out, e))
            | inr (h, got) ↦ (
              ground (arith, on, got),
              subst (λ z. HoldAfter z cpu p.setup_hold new v end) (sym on)
                  (acquired-Replaced cfg us p.setup_hold new v end h own got
                    (ground (arith, on, got)) (ground (arith, on, got))),
            )
          ]
    ]
