-- ===== src/Subscriber/Devices/Ledger.antt =====
-- src/subscriber.cpp: the objects and descriptors of a subscriber that imports device buffers.
use axon_sdk_for_physical_ai.Common.{
  ℕ, ◌+◌, ◌≡◌, refl, List, [], ◌∷◌, Bool, Option, none, some, arith, Option-cases, inl, inr,
}
use axon_sdk_for_physical_ai.Os.{handle, Os, Object}
use axon_sdk_for_physical_ai.Os.Ledger.{Balanced, count, count_option}
use axon_sdk_for_physical_ai.Os.Objects.{Settled}
use axon_sdk_for_physical_ai.Accel.{AccelBuffer, accel_import, free_each}
use axon_sdk_for_physical_ai.Accel.Owned.{owned, owned_option, fd_held, fd_option}
use axon_sdk_for_physical_ai.Accel.Gives.{accel_import-Gives}
use axon_sdk_for_physical_ai.Accel.Ring.{
  owned_each, fds_each, free_each-Settled, free_each-Balanced,
}
use axon_sdk_for_physical_ai.NvBuffer.{SurfaceInfo, nvbuf_import, nvbuf_cuda_map}
use axon_sdk_for_physical_ai.NvBuffer.Ring.{free_surfaces}
use axon_sdk_for_physical_ai.NvBuffer.Owned.{view_owned, view_option, nvbuf_cuda_map-Settled}
use axon_sdk_for_physical_ai.NvBuffer.Life.{
  Moves, surface_held, desc_held, surface_option, desc_option, surfaces_held, descs_held,
}
use axon_sdk_for_physical_ai.NvBuffer.Views.{views_owned}
use axon_sdk_for_physical_ai.NvBuffer.Pools.{free_surfaces-Moves}
use axon_sdk_for_physical_ai.NvBuffer.Imports.{nvbuf_import-Moves, nvbuf_cuda_map-Balanced}
use axon_sdk_for_physical_ai.Sidecar.{close_each}
use axon_sdk_for_physical_ai.Sidecar.Client.Ledger.{close_each-Balanced}
use axon_sdk_for_physical_ai.Publisher.{unmap_each}
use axon_sdk_for_physical_ai.Subscriber.Fences.{close_slots, close_fences}
use axon_sdk_for_physical_ai.Subscriber.Ledger.{
  slots_held, subscriber_held, close_slots-Balanced, unmap_each-Balanced,
}
use axon_sdk_for_physical_ai.Subscriber.Devices.{
  DeviceSubscriber, detach_devices, import_each, or_no_buffer, import_surface, import_surfaces,
}
use axon_sdk_for_physical_ai.Subscriber.Devices.Still.{
  still, unmap_each-device, close_each-device, close_slots-device,
}

-- What a subscriber holds of an object, and its copies of a descriptor.
unfoldable pub objects_held : Object → DeviceSubscriber → ℕ
objects_held o v =
    owned_each o v.accel_bufs + (surfaces_held o v.nvbufs + views_owned o v.nvbufs v.nvcudas)

unfoldable pub fds_held : ℕ → DeviceSubscriber → ℕ
fds_held a v = fds_each a v.accel_bufs + (descs_held a v.nvbufs + subscriber_held a v.host)

pub detach_devices-Settled :
    (o : Object) (v : DeviceSubscriber) (s : Os) (h : ℕ)
    → Settled o s (h + objects_held o v) (detach_devices v s).1 h
unfolding detach_devices close_fences objects_held
detach_devices-Settled o v s h =
    let s1 = (unmap_each v.host.views s).1 in
    let s2 = (free_each v.accel_bufs s1).1 in
    let s3 = (free_surfaces v.nvbufs v.nvcudas s2).1 in
    let s4 = (close_each v.host.fds s3).1 in
    let s5 = (close_slots v.host.ring.fences s4).1 in
    let inner = h + (surfaces_held o v.nvbufs + views_owned o v.nvbufs v.nvcudas) in
    omega (
      arith,
      still o s s1 (inner + owned_each o v.accel_bufs) (unmap_each-device v.host.views s),
      free_each-Settled o v.accel_bufs s1 inner,
      (free_surfaces-Moves o 0 v.nvbufs v.nvcudas s2).settled h,
      still o s3 s4 h (close_each-device v.host.fds s3),
      still o s4 s5 h (close_slots-device v.host.ring.fences s4),
    )

pub detach_devices-Balanced :
    (a : ℕ) (v : DeviceSubscriber) (s : Os)
    → Balanced a s (fds_held a v) (detach_devices v s).1 (count_option a v.host.client.sock)
unfolding detach_devices close_fences fds_held subscriber_held
detach_devices-Balanced a v s =
    let s1 = (unmap_each v.host.views s).1 in
    let s2 = (free_each v.accel_bufs s1).1 in
    let s3 = (free_surfaces v.nvbufs v.nvcudas s2).1 in
    let s4 = (close_each v.host.fds s3).1 in
    let sock = count_option a v.host.client.sock in
    let ring = slots_held a v.host.ring.fences in
    let own = subscriber_held a v.host in
    omega (
      arith,
      unmap_each-Balanced a v.host.views s (fds_held a v),
      free_each-Balanced a v.accel_bufs s1 (descs_held a v.nvbufs + own),
      (free_surfaces-Moves (handle 0) a v.nvbufs v.nvcudas s2).balanced own,
      close_each-Balanced a v.host.fds s3 (ring + sock),
      (close_slots-Balanced a v.host.ring.fences s4 sock).0,
    )

-- Then the socket is all that is left.
pub detach_devices-sock :
    (a : ℕ) (v : DeviceSubscriber) (s : Os)
    → subscriber_held a (detach_devices v s).0.host ≡ count_option a v.host.client.sock
unfolding detach_devices close_fences subscriber_held count
detach_devices-sock a v s = omega (
  arith,
  (close_slots-Balanced a v.host.ring.fences
      (close_each v.host.fds
        (free_surfaces v.nvbufs v.nvcudas
          (free_each v.accel_bufs (unmap_each v.host.views s).1).1).1).1
      0).1,
)

or_no_buffer-owned :
    (o : Object) (a : ℕ) (b : Option AccelBuffer)
    → (owned o (or_no_buffer b) ≡ owned_option o b) × (fd_held a (or_no_buffer b) ≡ fd_option a b)
unfolding owned owned_option fd_held fd_option
or_no_buffer-owned o a none = (refl, refl)
or_no_buffer-owned o a (some b) = (refl, refl)

-- The buffers that the loop imports are held, and nothing else.
pub import_each-Moves :
    (o : Object) (a size : ℕ) (fds : List ℕ) (s : Os)
    → let r = import_each size fds s in Moves o a s 0 0 r.1 (owned_each o r.0) (fds_each a r.0)
unfolding import_each owned_each fds_each
import_each-Moves o a size [] s = record { settled = λ h. refl; balanced = λ h. refl }
import_each-Moves o a size (fd ∷ fds) s =
    let r = accel_import (some fd) size s in
    let one = accel_import-Gives o a (some fd) size s in
    let same = or_no_buffer-owned o a r.0 in
    let rest = import_each-Moves o a size fds r.1 in
    record {
      settled = λ h. omega (arith, one.settled h, same.0, rest.settled (h + owned_option o r.0));
      balanced = λ h. omega (arith, one.balanced h, same.1, rest.balanced (h + fd_option a r.0));
    }

module _ (o : Object) (a : ℕ) (imported : ℕ → ℕ → SurfaceInfo) (pitched : ℕ → Bool)
    (params_size : ℕ) (owns : (x n : ℕ) → (imported x n).desc ≡ n) where
  import_surface-Moves :
      (fd : ℕ) (s : Os)
      → let r = import_surface imported pitched params_size fd s in
        Moves o a s 0 0 r.1 (surface_held o r.0.0 + view_owned o r.0.0 r.0.1) (desc_held a r.0.0)
  unfolding import_surface surface_option desc_option view_option surface_held desc_held view_owned
  import_surface-Moves fd s =
      let r = nvbuf_import imported (some fd) s in
      let made = nvbuf_import-Moves o a imported (some fd) s owns in
      elim (Option-cases r.0) [
        | inl e ↦ record {
          settled = λ h. ground (arith, e, made.settled h);
          balanced = λ h. ground (arith, e, made.balanced h);
        }
        | inr (b, e) ↦
            let mapped = nvbuf_cuda_map-Settled o pitched b r.1 in
            let mapped_fd = nvbuf_cuda_map-Balanced a pitched b r.1 in
            elim (Option-cases (nvbuf_cuda_map pitched b r.1).0) [
              | inl f ↦ record {
                settled = λ h. ground (arith, e, f, made.settled h, mapped (h + surface_held o b));
                balanced =
                    λ h. ground (arith, e, f, made.balanced h, mapped_fd (h + desc_held a b));
              }
              | inr (c, f) ↦ record {
                settled = λ h. ground (arith, e, f, made.settled h, mapped (h + surface_held o b));
                balanced =
                    λ h. ground (arith, e, f, made.balanced h, mapped_fd (h + desc_held a b));
              }
            ]
      ]

  pub import_surfaces-Moves :
      (fds : List ℕ) (s : Os)
      → let r = import_surfaces imported pitched params_size fds s in
        Moves o a s 0 0 r.1 (surfaces_held o r.0.0 + views_owned o r.0.0 r.0.1) (descs_held a r.0.0)
  unfolding import_surfaces surfaces_held descs_held views_owned
  import_surfaces-Moves [] s = record { settled = λ h. refl; balanced = λ h. refl }
  import_surfaces-Moves (fd ∷ fds) s =
      let r = import_surface imported pitched params_size fd s in
      let one = import_surface-Moves fd s in
      let rest = import_surfaces-Moves fds r.1 in
      record {
        settled = λ h. omega (
          arith,
          one.settled h,
          rest.settled (h + (surface_held o r.0.0 + view_owned o r.0.0 r.0.1)),
        );
        balanced = λ h. omega (arith, one.balanced h, rest.balanced (h + desc_held a r.0.0));
      }
