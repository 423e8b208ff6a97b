-- ===== src/Accel/Neutral.antt =====
-- The parts that take nothing and give nothing back.
use axon_sdk_for_physical_ai.Common.{ℕ, ◌≡◌, refl, subst, Bool, arith, Bool-cases, inl, inr}
use axon_sdk_for_physical_ai.Os.{Os, Object, device_call, device_query, start_device}
use axon_sdk_for_physical_ai.Os.Ledger.{Balanced}
use axon_sdk_for_physical_ai.Os.Objects.{Settled}
use axon_sdk_for_physical_ai.Accel.{
  M, ◌and_then◌, mark_started, accel_init, aligned_size, usable_size,
}

-- What a part of the code that takes nothing leaves: both accounts.
pub record Neutral (o : Object) (a : ℕ) (s t : Os) : Type 0 where
  pub settled : (h : ℕ) → Settled o s h t h
  pub balanced : (h : ℕ) → Balanced a s h t h

device_call-Neutral : (o : Object) (a : ℕ) (s : Os) → Neutral o a s (device_call s).1
unfolding device_call
device_call-Neutral o a s = record { settled = λ h. ground arith; balanced = λ h. ground arith }

mark_started-Neutral : (o : Object) (a : ℕ) (s : Os) → Neutral o a s (mark_started s).1
unfolding mark_started start_device
mark_started-Neutral o a s = record { settled = λ h. refl; balanced = λ h. refl }

and_then-Neutral :
    (o : Object) (a : ℕ) (m n : M Bool)
    → ((s : Os) → Neutral o a s (m s).1)
    → ((s : Os) → Neutral o a s (n s).1)
    → (s : Os) → Neutral o a s ((m and_then n) s).1
and_then-Neutral o a m n f g s =
    let x = f s in
    let y = g (m s).1 in
    elim (Bool-cases (m s).0) [
      | inl went ↦
          let step : n (m s).1 ≡ (m and_then n) s = ground (arith, went) in
          subst (λ r. Neutral o a s r.1) step
            (record {
              settled = λ h. ground (arith, x.settled h, y.settled h);
              balanced = λ h. ground (arith, x.balanced h, y.balanced h);
            })
      | inr failed ↦
          let step : (m s).1 ≡ ((m and_then n) s).1 = ground (arith, failed) in
          subst (λ t. Neutral o a s t) step x
    ]

start-Neutral :
    (o : Object) (a : ℕ) (s : Os)
    → Neutral o a s
        ((device_call and_then device_call and_then device_call and_then device_call
            and_then mark_started)
          s).1
start-Neutral o a =
    let call = device_call-Neutral o a in
    and_then-Neutral o a device_call _ call (
      and_then-Neutral o a device_call _ call (
        and_then-Neutral o a device_call _ call
          (and_then-Neutral o a device_call mark_started call (mark_started-Neutral o a))))

pub accel_init-Neutral : (o : Object) (a : ℕ) (s : Os) → Neutral o a s (accel_init s).1
unfolding accel_init
accel_init-Neutral o a s = elim (Bool-cases s.device.started) [
  | inl on ↦
      let step : device_call s ≡ accel_init s = ground (arith, on) in
      subst (λ r. Neutral o a s r.1) step (device_call-Neutral o a s)
  | inr off ↦
      let step : (device_call and_then device_call and_then device_call and_then device_call
              and_then mark_started)
            s
          ≡ accel_init s =
        ground (arith, off) in
      subst (λ r. Neutral o a s r.1) step (start-Neutral o a s)
]

aligned_size-Neutral : (o : Object) (a size : ℕ) (s : Os) → Neutral o a s (aligned_size size s).1
unfolding aligned_size device_query
aligned_size-Neutral o a size s = record {
  settled = λ h. ground arith;
  balanced = λ h. ground arith;
}

pub usable_size-Neutral : (o : Object) (a size : ℕ) (s : Os) → Neutral o a s (usable_size size s).1
unfolding usable_size
usable_size-Neutral o a size s =
    let n = accel_init-Neutral o a s in
    let m = aligned_size-Neutral o a size (accel_init s).1 in
    record {
      settled = λ h. ground (arith, n.settled h, m.settled h);
      balanced = λ h. ground (arith, n.balanced h, m.balanced h);
    }
