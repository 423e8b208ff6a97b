-- ===== src/Os/Objects.antt =====
-- Accounts of the device libraries' objects.
use axon_sdk_for_physical_ai.Common.{
  ℕ, ◌+◌, ◌≡◌, refl, List, [], ◌∷◌, Bool, false, Option, none, some, if◌then◌else◌, ◌==◌, arith,
}
use axon_sdk_for_physical_ai.Os.{
  Os, Object, handle, range, mapping, surface, image, resource, device_call, device_query,
  device_take, device_return, device_fd, start_device,
}
use axon_sdk_for_physical_ai.Os.Ledger.{count, count_option, Balanced}

unfoldable pub same_object : Object → Object → Bool
same_object (handle a) (handle b) = a == b
same_object (range a) (range b) = a == b
same_object (mapping a) (mapping b) = a == b
same_object (surface a) (surface b) = a == b
same_object (image a) (image b) = a == b
same_object (resource a) (resource b) = a == b
same_object _ _ = false

abbrev pub one_if_same : Object → Object → ℕ
one_if_same o x = if same_object o x then 1 else 0

-- How often an object stands in a list.
unfoldable pub tally : Object → List Object → ℕ
tally o [] = 0
tally o (x ∷ xs) = one_if_same o x + tally o xs

-- From `s` to `t`, where the process held `before` and now holds `after` copies of an object: what was
-- taken and not returned is what is held.
abbrev pub Settled : Object → Os → ℕ → Os → ℕ → Type 0
Settled o s before t after =
    tally o t.device.taken + tally o s.device.returned + before
    ≡ tally o s.device.taken + tally o t.device.returned + after

pub device_call-Settled : (o : Object) (s : Os) (h : ℕ) → Settled o s h (device_call s).1 h
unfolding device_call
device_call-Settled o s h = ground arith

pub device_query-Settled : (o : Object) (s : Os) (h : ℕ) → Settled o s h (device_query s).1 h
unfolding device_query
device_query-Settled o s h = ground arith

pub device_fd-Settled : (o : Object) (s : Os) (h : ℕ) → Settled o s h (device_fd s).1 h
unfolding device_fd
device_fd-Settled o s h = ground arith

pub start_device-Settled : (o : Object) (s : Os) (h : ℕ) → Settled o s h (start_device s).1 h
unfolding start_device
start_device-Settled o s h = refl

-- How many copies of an object a call gave out.
unfoldable pub given : Object → (ℕ → Object) → Option ℕ → ℕ
given o mk none = 0
given o mk (some n) = one_if_same o (mk n)

pub device_take-Settled :
    (o : Object) (mk : ℕ → Object) (s : Os) (h : ℕ)
    → Settled o s h (device_take mk s).1 (h + given o mk (device_take mk s).0)
unfolding device_take tally given
device_take-Settled o mk s h = ground arith

pub device_return-Settled :
    (o x : Object) (s : Os) (h : ℕ) → Settled o s (h + one_if_same o x) (device_return x s).1 h
unfolding device_return tally
device_return-Settled o x s h = ground arith

pub device_fd-Balanced :
    (a : ℕ) (s : Os) (h : ℕ) → Balanced a s h (device_fd s).1 (h + count_option a (device_fd s).0)
unfolding device_fd count count_option
device_fd-Balanced a s h = ground arith
