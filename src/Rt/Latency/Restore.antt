-- ===== src/Rt/Latency/Restore.antt =====
-- The limit of a CPU is put back as it was.
use axon_sdk_for_physical_ai.Common.{
  ℕ, ◌≡◌, sym, ap, ◌∙◌, subst, pos, List, true, false, none, some, arith, Option-cases, Bool-cases,
  inl, inr,
}
use axon_sdk_for_physical_ai.Os.{Os, CpuAttr, online, resume_latency, call_open, close}
use axon_sdk_for_physical_ai.Rt.Latency.{
  is_zero_text, is_empty, strip, read_attr, read_line, write_attr, write_str, put_attr,
  CpuLatencyHold, limit_text, take_hold, replace_limit, acquire_cpu, acquire, let_go, release,
}

-- What a part of the code leaves alone.
record Keeps (s t : Os) : Type 0 where
  attr : t.attr ≡ s.attr
  pid : t.pid ≡ s.pid

Keeps-trans : (s t u : Os) → Keeps s t → Keeps t u → Keeps s u
Keeps-trans s t u a b = record { attr = b.attr ∙ a.attr; pid = b.pid ∙ a.pid }

call_open-Keeps : (s : Os) → Keeps s (call_open s).1
unfolding call_open
call_open-Keeps s = record { attr = ground arith; pid = ground arith }

close-Keeps : (fd : ℕ) (s : Os) → Keeps s (close fd s).1
unfolding close
close-Keeps fd s = record { attr = ground arith; pid = ground arith }

read_line-Keeps : (a : CpuAttr) (cpu : ℕ) (s : Os) → Keeps s (read_line a cpu s).1
unfolding read_line read_attr call_open close
read_line-Keeps a cpu s = record { attr = ground arith; pid = ground arith }

read_line-text :
    (a : CpuAttr) (cpu : ℕ) (s : Os) (text : List ℕ)
    → (read_line a cpu s).0 ≡ some text
    → text ≡ strip (s.attr a cpu)
unfolding read_line read_attr call_open close
read_line-text a cpu s text e = ground (arith, e)

read_line-ne-nil :
    (a : CpuAttr) (cpu : ℕ) (s : Os) (text : List ℕ)
    → (read_line a cpu s).0 ≡ some text
    → is_empty text ≡ false
unfolding read_line read_attr call_open close
read_line-ne-nil a cpu s text e = ground (arith, e)

pub write_str-attr :
    (a : CpuAttr) (cpu : ℕ) (text : List ℕ) (s : Os)
    → (write_str a cpu text s).0 ≡ true
    → (write_str a cpu text s).1.attr ≡ put_attr s.attr a cpu text
unfolding write_str write_attr call_open close
write_str-attr a cpu text s e = ground (arith, e)

write_str-pid :
    (a : CpuAttr) (cpu : ℕ) (text : List ℕ) (s : Os) → (write_str a cpu text s).1.pid ≡ s.pid
unfolding write_str write_attr call_open close
write_str-pid a cpu text s = ground arith

-- A hold of one CPU, as `acquire` leaves it: the limit is in force, and the value that was there is
-- kept.
pub record IsHeld (us cpu : ℕ) (s : Os) (h : CpuLatencyHold) (t : Os) : Type 0 where
  pub no_fd : h.fd ≡ none
  pub of_cpu : h.cpu ≡ some cpu
  pub owner : h.owner_pid ≡ t.pid
  kept : h.restore ≡ strip (s.attr resume_latency cpu)
  pub limited : t.attr ≡ put_attr s.attr resume_latency cpu (limit_text us)
  pub same_pid : t.pid ≡ s.pid
  some_text : is_empty h.restore ≡ false

pub replace_limit-IsHeld :
    (us cpu : ℕ) (s : Os) (h : CpuLatencyHold)
    → (replace_limit us cpu s).0 ≡ some h
    → IsHeld us cpu s h (replace_limit us cpu s).1
unfolding replace_limit take_hold
replace_limit-IsHeld us cpu s h e =
    let r = read_line resume_latency cpu s in
    let keeps = read_line-Keeps resume_latency cpu s in
    elim (Option-cases r.0) [
      | inl out ↦ absurd (ground (arith, out, e))
      | inr (text, got) ↦
          let is = read_line-text resume_latency cpu s text got in
          let w = write_str resume_latency cpu (limit_text us) r.1 in
          let same = write_str-pid resume_latency cpu (limit_text us) r.1 in
          elim (Bool-cases w.0) [
            | inr failed ↦ absurd (ground (arith, got, failed, e))
            | inl written ↦
                let put = write_str-attr resume_latency cpu (limit_text us) r.1 written in
                record {
                  no_fd = ground (arith, got, written, e);
                  of_cpu = ground (arith, got, written, e);
                  owner = ground (arith, got, written, e);
                  kept = ground (arith, got, written, e, is);
                  limited = ground (arith, got, written, e, put, keeps.attr);
                  same_pid = ground (arith, got, written, e, same, keeps.pid);
                  some_text =
                      ground
                        (arith, got, written, e, read_line-ne-nil resume_latency cpu s text got);
                }
          ]
    ]

pub acquire_cpu-IsHeld :
    (us cpu : ℕ) (s : Os) (h : CpuLatencyHold)
    → (acquire_cpu us cpu s).0 ≡ some h
    → IsHeld us cpu s h (acquire_cpu us cpu s).1
unfolding acquire_cpu
acquire_cpu-IsHeld us cpu s h e =
    let r = read_line online cpu s in
    let keeps = read_line-Keeps online cpu s in
    let u : Os = record r.1 { errno = s.errno } in
    elim (Bool-cases (is_zero_text r.0)) [
      | inl off ↦ absurd (ground (arith, off, e))
      | inr on ↦
          let step : replace_limit us cpu u ≡ acquire_cpu us cpu s = ground (arith, on) in
          let is = replace_limit-IsHeld us cpu u h (ap (λ x. x.0) step ∙ e) in
          subst (λ x. IsHeld us cpu s h x.1) step
            (record {
              no_fd = is.no_fd;
              of_cpu = is.of_cpu;
              owner = is.owner;
              kept = is.kept ∙ ap (λ f. strip (f resume_latency cpu)) keeps.attr;
              limited =
                  is.limited ∙ ap (λ f. put_attr f resume_latency cpu (limit_text us)) keeps.attr;
              same_pid = is.same_pid ∙ keeps.pid;
              some_text = is.some_text;
            })
    ]

let_go-attr :
    (h : CpuLatencyHold) (cpu : ℕ) (s : Os)
    → h.fd ≡ none
    → h.cpu ≡ some cpu
    → is_empty h.restore ≡ false
    → (write_str resume_latency cpu h.restore s).0 ≡ true
    → (let_go h s).1.attr ≡ put_attr s.attr resume_latency cpu h.restore
unfolding let_go
let_go-attr h cpu s a b c w =
    let put = write_str-attr resume_latency cpu h.restore s w in ground (arith, a, b, c, put)

pub release-attr :
    (h : CpuLatencyHold) (s : Os) → s.pid ≡ h.owner_pid → (release h s).1.attr ≡ (let_go h s).1.attr
unfolding release
release-attr h s own = ground (arith, own)

put-put :
    (f : CpuAttr → ℕ → List ℕ) (a : CpuAttr) (cpu : ℕ) (x y : List ℕ) (b : CpuAttr) (c : ℕ)
    → put_attr (put_attr f a cpu x) a cpu y b c ≡ put_attr f a cpu y b c
put-put f a cpu x y b c = ground arith

-- When `acquire` gives a hold of one CPU, the limit is in force at once, and when the same process
-- releases the hold straight after and its write succeeds, each attribute of each CPU is as it was
-- before, the limit less the white space after it.
pub release-acquire :
    (us cpu : ℕ) (s : Os) (h : CpuLatencyHold)
    → (acquire (pos us) (pos cpu) s).0 ≡ some h
    → (write_str resume_latency cpu h.restore (acquire (pos us) (pos cpu) s).1).0 ≡ true
    → ((acquire (pos us) (pos cpu) s).1.attr resume_latency cpu ≡ limit_text us)
      × ((a : CpuAttr) (c : ℕ)
          → (release h (acquire (pos us) (pos cpu) s).1).1.attr a c
            ≡ put_attr s.attr resume_latency cpu (strip (s.attr resume_latency cpu)) a c)
unfolding acquire
release-acquire us cpu s h e w =
    let t = (acquire_cpu us cpu s).1 in
    let is = acquire_cpu-IsHeld us cpu s h e in
    let back =
      release-attr h t (sym is.owner) ∙ let_go-attr h cpu t is.no_fd is.of_cpu is.some_text w in
    (
      ground (arith, is.limited),
      λ a c.
          ap (λ f. f a c) back
          ∙ ap (λ f. put_attr f resume_latency cpu h.restore a c) is.limited
          ∙ put-put s.attr resume_latency cpu (limit_text us) h.restore a c
          ∙ ap (λ x. put_attr s.attr resume_latency cpu x a c) is.kept,
    )
