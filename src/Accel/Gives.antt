-- ===== src/Accel/Gives.antt =====
-- What `accel_alloc` and `accel_import` take, on every path.
use axon_sdk_for_physical_ai.Accel.Owned.{
  owned, owned_option, fd_held, fd_option, mapped_at, Gives, map_rw-Settled, map_rw-Balanced,
  map_rw-ne-zero, export_buffer-Settled, export_buffer-Balanced,
}
use axon_sdk_for_physical_ai.Accel.Neutral.{usable_size-Neutral}
use axon_sdk_for_physical_ai.Common.{
  ℕ, ◌+◌, ◌≡◌, refl, subst, Option, none, some, arith, Option-cases, inl, inr,
}
use axon_sdk_for_physical_ai.Os.{Os, Object, handle, device_take, device_return}
use axon_sdk_for_physical_ai.Os.Ledger.{Balanced, count_option}
use axon_sdk_for_physical_ai.Os.Objects.{
  given, one_if_same, device_take-Settled, device_return-Settled,
}
use axon_sdk_for_physical_ai.Accel.{
  map_rw, accel_buffer, export_buffer, alloc_aligned, usable_size, accel_alloc, import_aligned,
  accel_import,
}

pub device_take-Balanced :
    (a : ℕ) (mk : ℕ → Object) (s : Os) (h : ℕ) → Balanced a s h (device_take mk s).1 h
unfolding device_take
device_take-Balanced a mk s h = ground arith

pub device_return-Balanced :
    (a : ℕ) (x : Object) (s : Os) (h : ℕ) → Balanced a s h (device_return x s).1 h
unfolding device_return
device_return-Balanced a x s h = refl

alloc_aligned-Gives :
    (o : Object) (a sz : ℕ) (s : Os) → Gives o a s (alloc_aligned sz s).0 (alloc_aligned sz s).1
unfolding alloc_aligned owned_option owned fd_option fd_held count_option given mapped_at
alloc_aligned-Gives o a sz s =
    let t = device_take handle s in
    let took = device_take-Settled o handle s in
    let took_fd = device_take-Balanced a handle s in
    let m = map_rw t.1 in
    let maps = map_rw-Settled o t.1 in
    let maps_fd = map_rw-Balanced a t.1 in
    elim (Option-cases t.0) [
      | inl e ↦
          let step : (none, t.1) ≡ alloc_aligned sz s = ground (arith, e) in
          subst (λ r. Gives o a s r.0 r.1) step
            (record {
              settled = λ h. ground (arith, e, took h);
              balanced = λ h. ground (arith, took_fd h);
            })
      | inr (x, e) ↦ elim (Option-cases m.0) [
        | inl f ↦
            let u = (device_return (handle x) m.1).1 in
            let step : (none, u) ≡ alloc_aligned sz s = ground (arith, e, f) in
            subst (λ r. Gives o a s r.0 r.1) step
              (record {
                settled = λ h. ground (
                  arith,
                  e,
                  f,
                  took h,
                  maps (h + one_if_same o (handle x)),
                  device_return-Settled o (handle x) m.1 h,
                );
                balanced = λ h.
                    ground (arith, took_fd h, maps_fd h, device_return-Balanced a (handle x) m.1 h);
              })
        | inr (ptr, f) ↦
            let last = export_buffer-Settled o ptr sz x m.1 in
            let step : export_buffer ptr sz x m.1 ≡ alloc_aligned sz s = ground (arith, e, f) in
            subst (λ r. Gives o a s r.0 r.1) step
              (record {
                settled = λ h.
                    let ne = map_rw-ne-zero t.1 ptr f in
                    ground (arith, e, f, took h, maps (h + one_if_same o (handle x)), last h ne);
                balanced = λ h. ground (
                  arith,
                  took_fd h,
                  maps_fd h,
                  export_buffer-Balanced a ptr sz x m.1 h (map_rw-ne-zero t.1 ptr f),
                );
              })
      ]
    ]

import_aligned-Gives :
    (o : Object) (a sz : ℕ) (s : Os) → Gives o a s (import_aligned sz s).0 (import_aligned sz s).1
unfolding import_aligned owned_option owned fd_option fd_held count_option given mapped_at
import_aligned-Gives o a sz s =
    let t = device_take handle s in
    let took = device_take-Settled o handle s in
    let took_fd = device_take-Balanced a handle s in
    let m = map_rw t.1 in
    let maps = map_rw-Settled o t.1 in
    let maps_fd = map_rw-Balanced a t.1 in
    elim (Option-cases t.0) [
      | inl e ↦
          let step : (none, t.1) ≡ import_aligned sz s = ground (arith, e) in
          subst (λ r. Gives o a s r.0 r.1) step
            (record {
              settled = λ h. ground (arith, e, took h);
              balanced = λ h. ground (arith, took_fd h);
            })
      | inr (x, e) ↦ elim (Option-cases m.0) [
        | inl f ↦
            let u = (device_return (handle x) m.1).1 in
            let step : (none, u) ≡ import_aligned sz s = ground (arith, e, f) in
            subst (λ r. Gives o a s r.0 r.1) step
              (record {
                settled = λ h. ground (
                  arith,
                  e,
                  f,
                  took h,
                  maps (h + one_if_same o (handle x)),
                  device_return-Settled o (handle x) m.1 h,
                );
                balanced = λ h.
                    ground (arith, took_fd h, maps_fd h, device_return-Balanced a (handle x) m.1 h);
              })
        | inr (ptr, f) ↦
            let step : (some (accel_buffer ptr none sz x), m.1) ≡ import_aligned sz s =
              ground (arith, e, f) in
            subst (λ r. Gives o a s r.0 r.1) step
              (record {
                settled = λ h.
                    let ne = map_rw-ne-zero t.1 ptr f in
                    ground (arith, e, f, took h, maps (h + one_if_same o (handle x)), ne);
                balanced = λ h. ground (arith, took_fd h, maps_fd h);
              })
      ]
    ]

pub accel_alloc-Gives :
    (o : Object) (a size : ℕ) (s : Os) → Gives o a s (accel_alloc size s).0 (accel_alloc size s).1
unfolding accel_alloc owned_option fd_option
accel_alloc-Gives o a size s =
    let n = usable_size-Neutral o a size s in
    let u = usable_size size s in
    elim (Option-cases u.0) [
      | inl e ↦
          let step : (none, u.1) ≡ accel_alloc size s = ground (arith, e) in
          subst (λ r. Gives o a s r.0 r.1) step
            (record {
              settled = λ h. ground (arith, n.settled h);
              balanced = λ h. ground (arith, n.balanced h);
            })
      | inr (sz, e) ↦
          let g = alloc_aligned-Gives o a sz u.1 in
          let step : alloc_aligned sz u.1 ≡ accel_alloc size s = ground (arith, e) in
          subst (λ r. Gives o a s r.0 r.1) step
            (record {
              settled = λ h. omega (arith, n.settled h, g.settled h);
              balanced = λ h. omega (arith, n.balanced h, g.balanced h);
            })
    ]

pub accel_import-Gives :
    (o : Object) (a : ℕ) (fd : Option ℕ) (size : ℕ) (s : Os)
    → Gives o a s (accel_import fd size s).0 (accel_import fd size s).1
unfolding accel_import owned_option fd_option
accel_import-Gives o a none size s = record {
  settled = λ h. omega arith;
  balanced = λ h. omega arith;
}
accel_import-Gives o a (some fd) size s =
    let n = usable_size-Neutral o a size s in
    let u = usable_size size s in
    elim (Option-cases u.0) [
      | inl e ↦
          let step : (none, u.1) ≡ accel_import (some fd) size s = ground (arith, e) in
          subst (λ r. Gives o a s r.0 r.1) step
            (record {
              settled = λ h. ground (arith, n.settled h);
              balanced = λ h. ground (arith, n.balanced h);
            })
      | inr (sz, e) ↦
          let g = import_aligned-Gives o a sz u.1 in
          let step : import_aligned sz u.1 ≡ accel_import (some fd) size s = ground (arith, e) in
          subst (λ r. Gives o a s r.0 r.1) step
            (record {
              settled = λ h. omega (arith, n.settled h, g.settled h);
              balanced = λ h. omega (arith, n.balanced h, g.balanced h);
            })
    ]
