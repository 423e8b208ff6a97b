-- ===== src/Rt/Setup/Hold.antt =====
-- src/rt.cpp: the latency limit that a set-up holds, and the hold that it replaces.

use axon_sdk_for_physical_ai.Common.{
  ℕ, ◌≡◌, refl, ap, ◌∙◌, ℤ, pos, negsuc, List, Bool, true, false, Option, none, some, arith,
  Option-cases, Bool-cases, inl, inr, if◌then◌else◌,
}
use axon_sdk_for_physical_ai.Os.{Os, CpuAttr, resume_latency, call_open, close}
use axon_sdk_for_physical_ai.Os.Ledger.{Balanced, count}
use axon_sdk_for_physical_ai.Rt.Latency.{
  is_empty, write_attr, write_str, put_attr, CpuLatencyHold, limit_text, let_go, release,
}
use axon_sdk_for_physical_ai.Rt.Latency.Restore.{write_str-attr}
use axon_sdk_for_physical_ai.Rt.Latency.Owner.{fd_of, release-Balanced}
use axon_sdk_for_physical_ai.Rt.Setup.Still.{Still, Still-trans}
use axon_sdk_for_physical_ai.Rt.Setup.{reset_hold}

-- The hold that a process has, if any, is its own.
abbrev pub OwnedBy : ℕ → Option CpuLatencyHold → Type 0
OwnedBy pid none = Unit {0}
OwnedBy pid (some h) = pid ≡ h.owner_pid

-- The CPU whose latency is limited, by whether the affinity is set and to which; `none` is the whole system.
abbrev pub cpu_wanted : Bool → ℤ → Option ℕ
cpu_wanted true (pos cpu) = some cpu
cpu_wanted _ _ = none

-- The attributes once a hold of this process has been let go at `v`: the limit of a CPU is back at the value
-- that the hold keeps, if the write of it succeeds.
abbrev pub restored : Option CpuLatencyHold → Os → CpuAttr → ℕ → List ℕ
restored none v = v.attr
restored (some h) v = elim h.fd [
  | some fd ↦ v.attr
  | none ↦ elim h.cpu [
    | none ↦ v.attr
    | some cpu ↦
        if is_empty h.restore
        then v.attr
        else if (write_str resume_latency cpu h.restore v).0
        then put_attr v.attr resume_latency cpu h.restore
        else v.attr
  ]
]

-- A hold that limits the latency of the system, by an open descriptor, or of one CPU, by its attribute, which
-- is the only one changed; the attributes before it are `before`.
abbrev pub InForce : ℕ → Option ℕ → (CpuAttr → ℕ → List ℕ) → CpuLatencyHold → Os → Type 0
InForce us none before h t = (h.cpu ≡ none) × ((fd : ℕ) × (h.fd ≡ some fd)) × (t.attr ≡ before)
InForce us (some cpu) before h t =
    (h.cpu ≡ some cpu)
    × (h.fd ≡ none)
    × (t.attr ≡ put_attr before resume_latency cpu (limit_text us))

-- From `v` to `t` the hold `old` was let go and a limit of `us` was taken in its place: by `descriptors` the
-- descriptor of `old`, if it has one, was closed, and that of the new hold is open.
pub record Replaced (us : ℕ) (cpu : Option ℕ) (old new : Option CpuLatencyHold) (v t : Os)
    : Type 0 where
  pub hold : CpuLatencyHold
  pub kept : new ≡ some hold
  pub limit : hold.us ≡ us
  pub owner : hold.owner_pid ≡ v.pid
  pub in_force : InForce us cpu (restored old v) hold t
  pub descriptors : (a : ℕ) → Balanced a v (fd_of a old) t (fd_of a new)

-- The hold after a set-up, by the latency that the configuration asks for.
abbrev pub HoldAfter :
    ℤ → Option ℕ → Option CpuLatencyHold → Option CpuLatencyHold → Os → Os → Type 0
HoldAfter (negsuc n) cpu old new v t = (new ≡ old) × Still v t
HoldAfter (pos us) cpu old new v t = Replaced us cpu old new v t

write_str-refused :
    (a : CpuAttr) (cpu : ℕ) (text : List ℕ) (s : Os)
    → (write_str a cpu text s).0 ≡ false
    → (write_str a cpu text s).1.attr ≡ s.attr
unfolding write_str write_attr call_open close
write_str-refused a cpu text s e = ground (arith, e)

close-attr : (fd : ℕ) (s : Os) → (close fd s).1.attr ≡ s.attr
unfolding close
close-attr fd s = ground arith

let_go-restored : (h : CpuLatencyHold) (v : Os) → (let_go h v).1.attr ≡ restored (some h) v
unfolding let_go
let_go-restored h v = elim (Option-cases h.fd) [
  | inr (fd, at) ↦ ground (arith, at, close-attr fd v)
  | inl no_fd ↦ elim (Option-cases h.cpu) [
    | inl none_set ↦ ground (arith, no_fd, none_set)
    | inr (cpu, of) ↦ elim (Bool-cases (write_str resume_latency cpu h.restore v).0) [
      | inl written ↦
          ground (arith, no_fd, of, written, write_str-attr resume_latency cpu h.restore v written)
      | inr not_written ↦ ground (
        arith,
        no_fd,
        of,
        not_written,
        write_str-refused resume_latency cpu h.restore v not_written,
      )
    ]
  ]
]

release-restored :
    (h : CpuLatencyHold) (v : Os) → v.pid ≡ h.owner_pid → (release h v).1.attr ≡ restored (some h) v
unfolding release
release-restored h v own = let is = let_go-restored h v in ground (arith, own, is)

let_go-pid : (h : CpuLatencyHold) (v : Os) → (let_go h v).1.pid ≡ v.pid
unfolding let_go write_str write_attr call_open close
let_go-pid h v = ground arith

release-pid : (h : CpuLatencyHold) (v : Os) → (release h v).1.pid ≡ v.pid
unfolding release
release-pid h v = let same = let_go-pid h v in ground (arith, same)

-- The old hold, if there is one, is let go.
pub record LetGo (old : Option CpuLatencyHold) (v t : Os) : Type 0 where
  pub attr : t.attr ≡ restored old v
  pub pid : t.pid ≡ v.pid
  pub descriptors : (a : ℕ) → Balanced a v (fd_of a old) t 0

pub reset_hold-LetGo :
    (old : Option CpuLatencyHold) (v : Os) → OwnedBy v.pid old → LetGo old v (reset_hold old v).1
unfolding reset_hold fd_of
reset_hold-LetGo none v own = record { attr = refl; pid = refl; descriptors = λ a. omega arith }
reset_hold-LetGo (some h) v own = record {
  attr = release-restored h v own;
  pid = release-pid h v;
  descriptors = λ a. omega (arith, release-Balanced a h v 0 own);
}

InForce-Still :
    (us : ℕ) (cpu : Option ℕ) (before : CpuAttr → ℕ → List ℕ) (h : CpuLatencyHold) (t u : Os)
    → Still t u
    → InForce us cpu before h t
    → InForce us cpu before h u
InForce-Still us none before h t u still (a, b, c) = (a, b, still.attr ∙ c)
InForce-Still us (some cpu) before h t u still (a, b, c) = (a, b, still.attr ∙ c)

-- A step that leaves sysfs and the descriptors alone may follow.
pub HoldAfter-Still :
    (latency : ℤ) (cpu : Option ℕ) (old new : Option CpuLatencyHold) (v t u : Os)
    → Still t u
    → HoldAfter latency cpu old new v t
    → HoldAfter latency cpu old new v u
HoldAfter-Still (negsuc n) cpu old new v t u still (same, quiet) =
    (same, Still-trans v t u quiet still)
HoldAfter-Still (pos us) cpu old new v t u still h = record {
  hold = h.hold;
  kept = h.kept;
  limit = h.limit;
  owner = h.owner;
  in_force = InForce-Still us cpu (restored old v) h.hold t u still h.in_force;
  descriptors = λ a.
      let opened = ap (count a) still.opened in
      let closed = ap (count a) still.closed in omega (arith, h.descriptors a);
}
