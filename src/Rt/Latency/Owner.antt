-- ===== src/Rt/Latency/Owner.antt =====
-- The descriptor of a system-wide limit has one owner, whatever is moved and whatever fails.
use axon_sdk_for_physical_ai.Common.{
  ◌≢◌, ℕ, ◌≡◌, sym, ap, ◌∙◌, subst, ℤ, pos, negsuc, zero, suc, List, Option, none, some, arith,
  Option-cases, Bool-cases, inl, inr, ◌+◌,
}
use axon_sdk_for_physical_ai.Os.{Os, CpuAttr, online, resume_latency, call, call_open, close}
use axon_sdk_for_physical_ai.Os.Ledger.{Balanced, close-Balanced, count_option, count}
use axon_sdk_for_physical_ai.Rt.Latency.Restore.{acquire_cpu-IsHeld}
use axon_sdk_for_physical_ai.Rt.Latency.{
  is_zero_text, read_attr, read_line, write_attr, write_str, CpuLatencyHold, limit_text, take_hold,
  replace_limit, acquire_cpu, acquire_system, acquire, let_go, release, move, emptied,
}

read_line-Balanced :
    (a : ℕ) (b : CpuAttr) (cpu : ℕ) (s : Os) (h : ℕ) → Balanced a s h (read_line b cpu s).1 h
unfolding read_line read_attr call_open close count
read_line-Balanced a b cpu s h = ground arith

write_str-Balanced :
    (a : ℕ) (b : CpuAttr) (cpu : ℕ) (text : List ℕ) (s : Os) (h : ℕ)
    → Balanced a s h (write_str b cpu text s).1 h
unfolding write_str write_attr call_open close count
write_str-Balanced a b cpu text s h = ground arith

-- How many copies of a descriptor a hold has.
unfoldable pub fd_of : ℕ → Option CpuLatencyHold → ℕ
fd_of a none = 0
fd_of a (some h) = count_option a h.fd

acquire_system-Balanced :
    (a us : ℕ) (s : Os) (h : ℕ)
    → Balanced a s h (acquire_system us s).1 (h + fd_of a (acquire_system us s).0)
unfolding acquire_system fd_of take_hold call_open call close count count_option
acquire_system-Balanced a us s h = ground arith

replace_limit-Balanced :
    (a us cpu : ℕ) (s : Os) (h : ℕ)
    → Balanced a s h (replace_limit us cpu s).1 (h + fd_of a (replace_limit us cpu s).0)
unfolding replace_limit fd_of take_hold count_option
replace_limit-Balanced a us cpu s h =
    let r = read_line resume_latency cpu s in
    ground (
      arith,
      read_line-Balanced a resume_latency cpu s h,
      write_str-Balanced a resume_latency cpu (limit_text us) r.1 h,
    )

acquire_cpu-Balanced :
    (a us cpu : ℕ) (s : Os) (h : ℕ)
    → Balanced a s h (acquire_cpu us cpu s).1 (h + fd_of a (acquire_cpu us cpu s).0)
unfolding acquire_cpu fd_of
acquire_cpu-Balanced a us cpu s h =
    let r = read_line online cpu s in
    let u : Os = record r.1 { errno = s.errno } in
    let before = read_line-Balanced a online cpu s h in
    elim (Bool-cases (is_zero_text r.0)) [
      | inl off ↦ ground (arith, off, before)
      | inr on ↦
          let step : replace_limit us cpu u ≡ acquire_cpu us cpu s = ground (arith, on) in
          subst (λ x. Balanced a s h x.1 (h + fd_of a x.0)) step
            (ground (arith, before, replace_limit-Balanced a us cpu u h))
    ]

pub acquire-Balanced :
    (a : ℕ) (us cpu : ℤ) (s : Os) (h : ℕ)
    → Balanced a s h (acquire us cpu s).1 (h + fd_of a (acquire us cpu s).0)
unfolding acquire fd_of
acquire-Balanced a (negsuc n) cpu s h = omega arith
acquire-Balanced a (pos us) (negsuc zero) s h = acquire_system-Balanced a us s h
acquire-Balanced a (pos us) (negsuc (suc n)) s h = omega arith
acquire-Balanced a (pos us) (pos cpu) s h = acquire_cpu-Balanced a us cpu s h

let_go-Balanced :
    (a : ℕ) (x : CpuLatencyHold) (s : Os) (h : ℕ)
    → Balanced a s (h + count_option a x.fd) (let_go x s).1 h
unfolding let_go count_option
let_go-Balanced a x s h = elim (Option-cases x.fd) [
  | inr (fd, e) ↦ ground (arith, e, close-Balanced a fd s h)
  | inl e ↦ elim (Option-cases x.cpu) [
    | inl f ↦ ground (arith, e, f)
    | inr (cpu, f) ↦ ground (arith, e, f, write_str-Balanced a resume_latency cpu x.restore s h)
  ]
]

pub release-Balanced :
    (a : ℕ) (x : CpuLatencyHold) (s : Os) (h : ℕ)
    → s.pid ≡ x.owner_pid
    → Balanced a s (h + count_option a x.fd) (release x s).1 h
unfolding release
release-Balanced a x s h own = ground (arith, own, let_go-Balanced a x s h)

acquire_system-owner :
    (us : ℕ) (s : Os) (x : CpuLatencyHold)
    → (acquire_system us s).0 ≡ some x
    → (acquire_system us s).1.pid ≡ x.owner_pid
unfolding acquire_system take_hold call_open call close
acquire_system-owner us s x e = ground (arith, e)

pub acquire-owner :
    (us cpu : ℤ) (s : Os) (x : CpuLatencyHold)
    → (acquire us cpu s).0 ≡ some x
    → (acquire us cpu s).1.pid ≡ x.owner_pid
unfolding acquire
acquire-owner (negsuc n) cpu s x e = absurd (ground (arith, e))
acquire-owner (pos us) (negsuc zero) s x e = acquire_system-owner us s x e
acquire-owner (pos us) (negsuc (suc n)) s x e = absurd (ground (arith, e))
acquire-owner (pos us) (pos cpu) s x e = sym (acquire_cpu-IsHeld us cpu s x e).owner

acquire_system-us :
    (us : ℕ) (s : Os) (x : CpuLatencyHold) → (acquire_system us s).0 ≡ some x → x.us ≡ us
unfolding acquire_system take_hold
acquire_system-us us s x e = ground (arith, e)

replace_limit-us :
    (us cpu : ℕ) (s : Os) (x : CpuLatencyHold) → (replace_limit us cpu s).0 ≡ some x → x.us ≡ us
unfolding replace_limit take_hold
replace_limit-us us cpu s x e = ground (arith, e)

acquire_cpu-us :
    (us cpu : ℕ) (s : Os) (x : CpuLatencyHold) → (acquire_cpu us cpu s).0 ≡ some x → x.us ≡ us
unfolding acquire_cpu
acquire_cpu-us us cpu s x e =
    let r = read_line online cpu s in
    let u : Os = record r.1 { errno = s.errno } in
    elim (Bool-cases (is_zero_text r.0)) [
      | inl off ↦ absurd (ground (arith, off, e))
      | inr on ↦
          let step : replace_limit us cpu u ≡ acquire_cpu us cpu s = ground (arith, on) in
          replace_limit-us us cpu u x (ap (λ y. y.0) step ∙ e)
    ]

pub acquire-us :
    (us : ℕ) (cpu : ℤ) (s : Os) (x : CpuLatencyHold)
    → (acquire (pos us) cpu s).0 ≡ some x
    → x.us ≡ us
unfolding acquire
acquire-us us (negsuc zero) s x e = acquire_system-us us s x e
acquire-us us (negsuc (suc n)) s x e = absurd (ground (arith, e))
acquire-us us (pos cpu) s x e = acquire_cpu-us us cpu s x e

release-emptied : (x : CpuLatencyHold) (s : Os) → (release (emptied x) s).1 ≡ s
unfolding release let_go
release-emptied x s = ground arith

release-other : (x : CpuLatencyHold) (s : Os) → s.pid ≢ x.owner_pid → (release x s).1 ≡ s
unfolding release
release-other x s other = ground (arith, other)

-- When `acquire` gives a hold, system-wide or of one CPU, and the process moves it and then releases both
-- the object moved from and the one moved to, each file descriptor has been closed as often as it has been
-- opened since before `acquire`, whichever calls failed on the way; and a process other than the owner that
-- releases the hold makes no call and leaves its system as it was.
pub acquire-move-release :
    (a : ℕ) (us cpu : ℤ) (s u : Os) (x : CpuLatencyHold)
    → (acquire us cpu s).0 ≡ some x
    → u.pid ≢ x.owner_pid
    → Balanced a s 0 (release (move x).0 (release (move x).1 (acquire us cpu s).1).1).1 0
      × ((release x u).1 ≡ u)
unfolding move fd_of
acquire-move-release a us cpu s u x e other =
    let t = (acquire us cpu s).1 in
    let taken = acquire-Balanced a us cpu s 0 in
    let given = release-Balanced a x t 0 (acquire-owner us cpu s x e) in
    (
      subst (λ v. Balanced a s 0 (release x v).1 0) (sym (release-emptied x t))
          (ground (arith, e, taken, given)),
      release-other x u other,
    )
