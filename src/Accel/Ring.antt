-- ===== src/Accel/Ring.antt =====
-- The buffers of a device pool, and an imported one, are given back whole.
use axon_sdk_for_physical_ai.Accel.Owned.{owned, owned_option, fd_held, fd_option}
use axon_sdk_for_physical_ai.Accel.Gives.{accel_alloc-Gives, accel_import-Gives}
use axon_sdk_for_physical_ai.Common.{
  ℕ, zero, suc, ◌+◌, ◌≡◌, refl, subst, List, [], ◌∷◌, ◌++◌, false, Option, none, some, arith,
  Option-cases, inl, inr,
}
use axon_sdk_for_physical_ai.Os.{Os, Object, device_return, close_option, close}
use axon_sdk_for_physical_ai.Os.Ledger.{Balanced, count, count_option}
use axon_sdk_for_physical_ai.Os.Objects.{Settled, tally}
use axon_sdk_for_physical_ai.Accel.{
  AccelBuffer, undo_alloc, accel_alloc, accel_import, accel_free, allocate_accelerator, free_each,
}

pub accel_free-Settled :
    (o : Object) (b : AccelBuffer) (s : Os) (h : ℕ)
    → Settled o s (h + owned o b) (accel_free b s).1 h
unfolding accel_free owned close_option close undo_alloc device_return tally
accel_free-Settled o b s h = ground arith

pub accel_free-Balanced :
    (a : ℕ) (b : AccelBuffer) (s : Os) (h : ℕ) → Balanced a s (h + fd_held a b) (accel_free b s).1 h
unfolding accel_free fd_held close_option close undo_alloc device_return count count_option
accel_free-Balanced a b s h = ground arith

-- What the buffers of a pool hold.
unfoldable pub owned_each : Object → List AccelBuffer → ℕ
owned_each o [] = 0
owned_each o (b ∷ bs) = owned o b + owned_each o bs

unfoldable pub fds_each : ℕ → List AccelBuffer → ℕ
fds_each a [] = 0
fds_each a (b ∷ bs) = fd_held a b + fds_each a bs

owned_each-append :
    (o : Object) (bs : List AccelBuffer) (b : AccelBuffer)
    → owned_each o (bs ++ b ∷ []) ≡ owned_each o bs + owned o b
unfolding owned_each
owned_each-append o [] b = omega arith
owned_each-append o (x ∷ bs) b = omega (arith, owned_each-append o bs b)

fds_each-append :
    (a : ℕ) (bs : List AccelBuffer) (b : AccelBuffer)
    → fds_each a (bs ++ b ∷ []) ≡ fds_each a bs + fd_held a b
unfolding fds_each
fds_each-append a [] b = omega arith
fds_each-append a (x ∷ bs) b = omega (arith, fds_each-append a bs b)

pub free_each-Settled :
    (o : Object) (bs : List AccelBuffer) (s : Os) (h : ℕ)
    → Settled o s (h + owned_each o bs) (free_each bs s).1 h
unfolding free_each owned_each
free_each-Settled o [] s h = omega arith
free_each-Settled o (b ∷ bs) s h = omega (
  arith,
  accel_free-Settled o b s (h + owned_each o bs),
  free_each-Settled o bs (accel_free b s).1 h,
)

pub free_each-Balanced :
    (a : ℕ) (bs : List AccelBuffer) (s : Os) (h : ℕ)
    → Balanced a s (h + fds_each a bs) (free_each bs s).1 h
unfolding free_each fds_each
free_each-Balanced a [] s h = omega arith
free_each-Balanced a (b ∷ bs) s h = omega (
  arith,
  accel_free-Balanced a b s (h + fds_each a bs),
  free_each-Balanced a bs (accel_free b s).1 h,
)

-- The accounts of a loop that adds buffers.
record Adds (o : Object) (a : ℕ) (s : Os) (before after : List AccelBuffer) (t : Os) : Type 0 where
  settled : (h : ℕ) → Settled o s (h + owned_each o before) t (h + owned_each o after)
  balanced : (h : ℕ) → Balanced a s (h + fds_each a before) t (h + fds_each a after)

allocate_accelerator-Adds :
    (o : Object) (a left size : ℕ) (bs : List AccelBuffer) (s : Os)
    → let r = allocate_accelerator left size bs s in Adds o a s bs r.0.1 r.1
unfolding allocate_accelerator owned_option fd_option
allocate_accelerator-Adds o a zero size bs s = record { settled = λ h. refl; balanced = λ h. refl }
allocate_accelerator-Adds o a (suc left) size bs s =
    let r = accel_alloc size s in
    let g = accel_alloc-Gives o a size s in
    elim (Option-cases r.0) [
      | inl e ↦
          let step : ((false, bs), r.1) ≡ allocate_accelerator (suc left) size bs s =
            ground (arith, e) in
          subst (λ x. Adds o a s bs x.0.1 x.1) step
            (record {
              settled = λ h. ground (arith, e, g.settled (h + owned_each o bs));
              balanced = λ h. ground (arith, e, g.balanced (h + fds_each a bs));
            })
      | inr (b, e) ↦
          let step : allocate_accelerator left size (bs ++ b ∷ []) r.1
              ≡ allocate_accelerator (suc left) size bs s =
            ground (arith, e) in
          let rest = allocate_accelerator-Adds o a left size (bs ++ b ∷ []) r.1 in
          subst (λ x. Adds o a s bs x.0.1 x.1) step
            (record {
              settled = λ h. ground (
                arith,
                e,
                g.settled (h + owned_each o bs),
                owned_each-append o bs b,
                rest.settled h,
              );
              balanced = λ h. ground (
                arith,
                e,
                g.balanced (h + fds_each a bs),
                fds_each-append a bs b,
                rest.balanced h,
              );
            })
    ]

-- Whether or not each of its buffers can be made, and whichever call of the driver fails, after
-- `allocate_accelerator` and then `free_all` on what it made, each allocation handle, address range and
-- mapping has been returned as often as it has been taken, and each file descriptor closed as often as
-- opened.
pub allocate_accelerator-free_each :
    (o : Object) (a n size : ℕ) (s : Os)
    → let r = allocate_accelerator n size [] s in
      let t = (free_each r.0.1 r.1).1 in Settled o s 0 t 0 × Balanced a s 0 t 0
unfolding owned_each fds_each
allocate_accelerator-free_each o a n size s =
    let r = allocate_accelerator n size [] s in
    let made = allocate_accelerator-Adds o a n size [] s in
    (
      omega (arith, made.settled 0, free_each-Settled o r.0.1 r.1 0),
      omega (arith, made.balanced 0, free_each-Balanced a r.0.1 r.1 0),
    )

-- An import that is freed when it gave a buffer.
unfoldable pub import_and_free : Option ℕ → ℕ → Os → Os
import_and_free fd size s =
    let r = accel_import fd size s in elim (r.0) [ none ↦ r.1 | some b ↦ (accel_free b r.1).1 ]

-- For any descriptor that was received, after `accel_import` fails, or gives a buffer which `accel_free`
-- then frees, each allocation handle, address range and mapping has been returned as often as it has been
-- taken, and each file descriptor closed as often as opened meanwhile: that of the received one, which
-- belongs to the caller, is not closed.
pub accel_import-accel_free :
    (o : Object) (a : ℕ) (fd : Option ℕ) (size : ℕ) (s : Os)
    → Settled o s 0 (import_and_free fd size s) 0 × Balanced a s 0 (import_and_free fd size s) 0
unfolding import_and_free owned_option fd_option
accel_import-accel_free o a fd size s =
    let r = accel_import fd size s in
    let g = accel_import-Gives o a fd size s in
    elim (Option-cases r.0) [
      | inl e ↦ (ground (arith, e, g.settled 0), ground (arith, e, g.balanced 0))
      | inr (b, e) ↦ (
        ground (arith, e, g.settled 0, accel_free-Settled o b r.1 0),
        ground (arith, e, g.balanced 0, accel_free-Balanced a b r.1 0),
      )
    ]
