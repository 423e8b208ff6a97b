-- ===== src/Rt/Latency.antt =====
-- src/rt.cpp: `CpuLatencyHold`, a limit on the wake-up latency of a CPU or of the system, and the sysfs
-- reads and writes that it makes. A text is a list of bytes. A write of a whole value to an attribute
-- puts it there, and any other outcome leaves it as it was.
pub mod Restore
pub mod Owner
use axon_sdk_for_physical_ai.Common.{
  ℕ, zero, suc, ◌+◌, ◌-◌, ◌/◌, ◌%◌, ℤ, pos, negsuc, List, [], ◌∷◌, ◌++◌, Bool, true, false, Option,
  none, some, length, if◌then◌else◌, ◌==◌, ◌||◌, ◌&&◌, not, Errno, e_inval, e_nodev, e_io,
}
use axon_sdk_for_physical_ai.Os.{
  Os, CpuAttr, online, resume_latency, siblings_list, M, ◌>>=◌, ◌>>◌, pure, done, fails, set_errno,
  get_errno, call, call_open, close,
}

-- `while (!out.empty() && (out.back() == '\n' || out.back() == ' ')) out.pop_back()`.
unfoldable pub strip : List ℕ → List ℕ
strip [] = []
strip (c ∷ s) = elim (strip s) [
  | [] ↦ if (c == 10) || (c == 32) then [] else c ∷ []
  | d ∷ r ↦ c ∷ d ∷ r
]

-- What `read` finds in an attribute. The buffer of 63 bytes holds each of them whole.
unfoldable pub read_attr : CpuAttr → ℕ → M (Option (List ℕ))
read_attr a cpu s = elim (s.reply s.calls) [
  | done n ↦ (some (s.attr a cpu), record s { calls = s.calls + 1 })
  | fails e ↦ (none, record s { calls = s.calls + 1; errno = e })
]

-- `read_line`.
unfoldable pub read_line : CpuAttr → ℕ → M (Option (List ℕ))
read_line a cpu = do
  opened ← call_open
  elim opened [
    | none ↦ pure none
    | some fd ↦ do
      got ← read_attr a cpu
      err ← get_errno
      close fd
      elim got [
        | none ↦ do set_errno err; pure none
        | some text ↦ elim (strip text) [
          | [] ↦ do set_errno e_io; pure none
          | c ∷ r ↦ pure (some (c ∷ r))
        ]
      ]
  ]

abbrev pub same_attr : CpuAttr → CpuAttr → Bool
same_attr online online = true
same_attr resume_latency resume_latency = true
same_attr siblings_list siblings_list = true
same_attr _ _ = false

abbrev pub put_attr : (CpuAttr → ℕ → List ℕ) → CpuAttr → ℕ → List ℕ → CpuAttr → ℕ → List ℕ
put_attr f a cpu text b c = if same_attr a b && (cpu == c) then text else f b c

-- `::write` of a text to an attribute: the number of bytes taken.
unfoldable pub write_attr : CpuAttr → ℕ → List ℕ → M (Option ℕ)
write_attr a cpu text s = elim (s.reply s.calls) [
  | done n ↦ (
    some n,
    record s {
      calls = s.calls + 1;
      attr = if n == length text then put_attr s.attr a cpu text else s.attr;
    },
  )
  | fails e ↦ (none, record s { calls = s.calls + 1; errno = e })
]

-- `write_str`.
unfoldable pub write_str : CpuAttr → ℕ → List ℕ → M Bool
write_str a cpu text = do
  opened ← call_open
  elim opened [
    | none ↦ pure false
    | some fd ↦ do
      written ← write_attr a cpu text
      err ← get_errno
      close fd
      set_errno err
      pure (elim written [ none ↦ false | some n ↦ n == length text ])
  ]

-- `CpuLatencyHold`. `fd` is `none` for -1; `cpu` is `none` for -1, and then there is no path.
pub record CpuLatencyHold : Type 0 where
  pub fd : Option ℕ
  pub cpu : Option ℕ
  pub us : ℕ
  pub owner_pid : ℕ
  pub restore : List ℕ

-- The digits of a number, the last first; a round takes one, so the number is fuel enough.
unfoldable pub digits : ℕ → ℕ → List ℕ → List ℕ
digits zero n out = out
digits (suc fuel) n out =
    let rest = digits fuel (n / 10) ((48 + n % 10) ∷ out) in if n == 0 then out else rest

-- `std::to_string`.
unfoldable pub to_string : ℕ → List ℕ
to_string n = if n == 0 then 48 ∷ [] else digits n n []

-- "n/a" stands for no latency at all.
unfoldable pub limit_text : ℕ → List ℕ
limit_text us = if us == 0 then 110 ∷ 47 ∷ 97 ∷ [] else to_string us

-- The hold, taken by the process that runs.
unfoldable pub take_hold : Option ℕ → Option ℕ → ℕ → List ℕ → M (Option CpuLatencyHold)
take_hold fd cpu us restore s =
    (some (record { fd = fd; cpu = cpu; us = us; owner_pid = s.pid; restore = restore }), s)

-- Whether `::write` took the four bytes of the limit.
unfoldable pub took_four : Option ℕ → Bool
took_four none = false
took_four (some n) = n == 4

-- The system-wide hold: the request lasts as long as the descriptor is open.
unfoldable pub acquire_system : ℕ → M (Option CpuLatencyHold)
acquire_system us = do
  opened ← call_open
  elim opened [
    | none ↦ pure none
    | some fd ↦ do
      written ← call
      err ← get_errno
      elim (took_four written) [
        | true ↦ take_hold (some fd) none us []
        | false ↦ do close fd; set_errno err; pure none
      ]
  ]

abbrev pub is_zero_text : Option (List ℕ) → Bool
is_zero_text (some (c ∷ [])) = c == 48
is_zero_text _ = false

-- The end of the hold of one CPU: the value is read, to be put back, and replaced.
unfoldable pub replace_limit : ℕ → ℕ → M (Option CpuLatencyHold)
replace_limit us cpu = do
  prev ← read_line resume_latency cpu
  elim prev [
    | none ↦ pure none
    | some text ↦ do
      written ← write_str resume_latency cpu (limit_text us)
      elim written [ false ↦ pure none | true ↦ take_hold none (some cpu) us text ]
  ]

unfoldable pub acquire_cpu : ℕ → ℕ → M (Option CpuLatencyHold)
acquire_cpu us cpu = do
  saved ← get_errno
  state ← read_line online cpu
  elim (is_zero_text state) [
    | true ↦ do set_errno e_nodev; pure none
    | false ↦ do set_errno saved; replace_limit us cpu
  ]

-- `acquire`, with its guard on negative arguments.
unfoldable pub acquire : ℤ → ℤ → M (Option CpuLatencyHold)
acquire (negsuc n) cpu = do set_errno e_inval; pure none
acquire (pos us) (negsuc zero) = acquire_system us
acquire (pos us) (negsuc (suc n)) = do set_errno e_inval; pure none
acquire (pos us) (pos cpu) = acquire_cpu us cpu

abbrev pub is_empty : List ℕ → Bool
is_empty [] = true
is_empty (c ∷ s) = false

-- The part of `release` that acts on the system, for a process that owns the hold.
unfoldable pub let_go : CpuLatencyHold → M (Unit {0})
let_go h = elim h.fd [
  | some fd ↦ close fd
  | none ↦ if is_empty h.restore then pure tt else elim h.cpu [
    | none ↦ pure tt
    | some cpu ↦ do _ ← write_str resume_latency cpu h.restore; pure tt
  ]
]

-- What a move leaves of a hold.
abbrev pub emptied : CpuLatencyHold → CpuLatencyHold
emptied h = record h { fd = none; restore = [] }

-- What `release` leaves of a hold.
abbrev pub released : CpuLatencyHold → CpuLatencyHold
released h = elim h.fd [ some fd ↦ record h { fd = none } | none ↦ record h { restore = [] } ]

-- `release`. A child of `fork` has the hold and another pid.
unfoldable pub release : CpuLatencyHold → M CpuLatencyHold
release h s =
    let t = if s.pid == h.owner_pid then (let_go h s).1 else s in
    (released h, record t { errno = s.errno })

-- The move constructor: the new hold, and what is left of the old.
unfoldable pub move : CpuLatencyHold → CpuLatencyHold × CpuLatencyHold
move o = (o, emptied o)

-- The move assignment, from another hold: the target is released first.
unfoldable pub assign : CpuLatencyHold → CpuLatencyHold → M (CpuLatencyHold × CpuLatencyHold)
assign target o = do _ ← release target; pure (move o)
