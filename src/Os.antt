-- ===== src/Os.antt =====
-- The operating system, as the code meets it. `reply` gives the outcome of each call in order, and is a
-- parameter of every theorem: the calls may fail at any point. `opened` and `closed` log the file
-- descriptors that the process has been given and has closed; `errno` is the thread's.
pub mod Ledger
pub mod Objects
use axon_sdk_for_physical_ai.Common.{
  ℕ, ◌+◌, List, [], ◌∷◌, Bool, true, false, Option, none, some, Errno,
}

-- A call returns a number that is not negative (a descriptor, a count, an address) or sets `errno`.
pub data Reply : Type 0 where
  done : ℕ → Reply
  fails : Errno → Reply

-- The attributes that sysfs has for each CPU.
pub data CpuAttr : Type 0 where
  online resume_latency siblings_list : CpuAttr

-- The objects that the device libraries give out, by their handle or address: a device allocation, a
-- reserved range of addresses, a mapping into one, a surface, its EGL image, a graphics resource.
pub data Object : Type 0 where
  handle range mapping surface image resource : ℕ → Object

-- The device libraries: whether the code has made its context, the objects that they have given out, and
-- those that they have got back.
pub record Device : Type 0 where
  pub started : Bool
  pub taken : List Object
  pub returned : List Object

-- `attr` is the content of sysfs, as bytes; `pid` is the process.
pub record Os : Type 0 where
  pub reply : ℕ → Reply
  pub calls : ℕ
  pub errno : Errno
  pub opened : List ℕ
  pub closed : List ℕ
  pub attr : CpuAttr → ℕ → List ℕ
  pub pid : ℕ
  pub device : Device

abbrev pub new_device : Device
new_device = record { started = false; taken = []; returned = [] }

abbrev pub M : Type 0 → Type 0
M A = Os → A × Os

infixl 5 ◌>>=◌ ◌>>◌
abbrev pub ◌>>=◌ : {A B : Type 0} → M A → (A → M B) → M B
◌>>=◌ m f s = let (a, s') = m s in f a s'

abbrev pub ◌>>◌ : {A B : Type 0} → M A → M B → M B
◌>>◌ m k s = k (m s).1

abbrev pub pure : {A : Type 0} → A → M A
pure a s = (a, s)

abbrev pub set_errno : Errno → M (Unit {0})
set_errno e s = (tt, record s { errno = e })

abbrev pub get_errno : M Errno
get_errno s = (s.errno, s)

-- A call whose result is a number; `none` is the code's -1.
unfoldable pub call : M (Option ℕ)
call s = elim (s.reply s.calls) [
  | done n ↦ (some n, record s { calls = s.calls + 1 })
  | fails e ↦ (none, record s { calls = s.calls + 1; errno = e })
]

-- A call whose result is a new file descriptor.
unfoldable pub call_open : M (Option ℕ)
call_open s = elim (s.reply s.calls) [
  | done fd ↦ (some fd, record s { calls = s.calls + 1; opened = fd ∷ s.opened })
  | fails e ↦ (none, record s { calls = s.calls + 1; errno = e })
]

-- `::close`, whose result the code ignores; the descriptor is gone even if the call reports an error.
unfoldable pub close : ℕ → M (Unit {0})
close fd s = elim (s.reply s.calls) [
  | done n ↦ (tt, record s { calls = s.calls + 1; closed = fd ∷ s.closed })
  | fails e ↦ (tt, record s { calls = s.calls + 1; errno = e; closed = fd ∷ s.closed })
]

-- `if (fd >= 0) ::close(fd)`.
unfoldable pub close_option : Option ℕ → M (Unit {0})
close_option none = pure tt
close_option (some fd) = close fd

-- A call of a device library, which leaves `errno` alone: whether it succeeds.
unfoldable pub device_call : M Bool
device_call s = elim (s.reply s.calls) [
  | done n ↦ (true, record s { calls = s.calls + 1 })
  | fails e ↦ (false, record s { calls = s.calls + 1 })
]

-- One that returns a number.
unfoldable pub device_query : M (Option ℕ)
device_query s = elim (s.reply s.calls) [
  | done n ↦ (some n, record s { calls = s.calls + 1 })
  | fails e ↦ (none, record s { calls = s.calls + 1 })
]

-- One that gives out an object, or none.
unfoldable pub device_take : (ℕ → Object) → M (Option ℕ)
device_take mk s = elim (s.reply s.calls) [
  | done n ↦ (
    some n,
    record s { calls = s.calls + 1; device = record s.device { taken = mk n ∷ s.device.taken } },
  )
  | fails e ↦ (none, record s { calls = s.calls + 1 })
]

-- One that takes an object back; the code ignores its result.
unfoldable pub device_return : Object → M (Unit {0})
device_return o s = (
  tt,
  record s { calls = s.calls + 1; device = record s.device { returned = o ∷ s.device.returned } },
)

-- One that gives out a file descriptor.
unfoldable pub device_fd : M (Option ℕ)
device_fd s = elim (s.reply s.calls) [
  | done fd ↦ (some fd, record s { calls = s.calls + 1; opened = fd ∷ s.opened })
  | fails e ↦ (none, record s { calls = s.calls + 1 })
]

-- The context is made.
unfoldable pub start_device : M (Unit {0})
start_device s = (tt, record s { device = record s.device { started = true } })
