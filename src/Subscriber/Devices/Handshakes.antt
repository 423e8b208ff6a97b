-- ===== src/Subscriber/Devices/Handshakes.antt =====
-- src/subscriber.cpp: the accounts of `wait_handshake` where device buffers are imported.
use axon_sdk_for_physical_ai.Subscriber.Devices.Attached.{bare, attach_buffers-Attached}
use axon_sdk_for_physical_ai.Subscriber.Attach.{adopt, open_channel}
use axon_sdk_for_physical_ai.Sidecar.Client.Ledger.{
  close_each-Balanced, connect-Balanced, recv_pool_handshake-Balanced, handshake_lost,
}
use axon_sdk_for_physical_ai.Sidecar.{close_each}
use axon_sdk_for_physical_ai.Descriptor.{wire_version}
use axon_sdk_for_physical_ai.Common.{
  List, ℕ, ◌+◌, ◌≡◌, [], Bool, arith, Bool-cases, inl, inr, refl, subst, Option-cases, ◌==◌,
}
use axon_sdk_for_physical_ai.Os.{Os, Object}
use axon_sdk_for_physical_ai.Os.Ledger.{count, Balanced}
use axon_sdk_for_physical_ai.Os.Objects.{Settled}
use axon_sdk_for_physical_ai.Accel.Ring.{owned_each}
use axon_sdk_for_physical_ai.NvBuffer.{SurfaceInfo}
use axon_sdk_for_physical_ai.NvBuffer.Life.{surfaces_held, descs_held}
use axon_sdk_for_physical_ai.NvBuffer.Views.{views_owned}
use axon_sdk_for_physical_ai.Sidecar.Client.{Message, connect, recv_pool_handshake}
use axon_sdk_for_physical_ai.Subscriber.{Subscriber}
use axon_sdk_for_physical_ai.Subscriber.Ledger.{
  subscriber_held, open_channel-Balanced, adopt-held, with_client, wait_lost, count-none,
}
use axon_sdk_for_physical_ai.Subscriber.Devices.{
  open_channel, adopt, attach_devices, detach_devices, receive_devices, DeviceSubscriber,
  attach_buffers, attach_surfaces, has_params, wait_handshake_devices,
}
use axon_sdk_for_physical_ai.Subscriber.Devices.Still.{
  still, open_channel-device, recv_pool_handshake-device, close_each-device, connect-device,
}
use axon_sdk_for_physical_ai.Subscriber.Devices.Ledger.{
  objects_held, fds_held, import_surfaces-Moves, detach_devices-Settled, detach_devices-Balanced,
  detach_devices-sock,
}

with_host :
    (o : Object) (v : DeviceSubscriber) (host : Subscriber)
    → objects_held o (record v { host = host }) ≡ objects_held o v
unfolding objects_held
with_host o v host = refl

host_fds :
    (a : ℕ) (v : DeviceSubscriber) (host : Subscriber)
    → fds_held a (record v { host = host }) + subscriber_held a v.host
      ≡ fds_held a v + subscriber_held a host
unfolding fds_held
host_fds a v host = omega arith

no_fds : (a : ℕ) (v : DeviceSubscriber) (s : Os) → count a (detach_devices v s).0.host.fds ≡ 0
unfolding detach_devices count
no_fds a v s = refl

-- The accounts of a step from `v` to `w`, with the descriptors that it loses.
pub record Keeps (o : Object) (a : ℕ) (s : Os) (v : DeviceSubscriber) (t : Os)
    (w : DeviceSubscriber) (lost : List ℕ) : Type 0 where
  pub settled : (h : ℕ) → Settled o s (h + objects_held o v) t (h + objects_held o w)
  pub balanced : Balanced a s (fds_held a v) t (fds_held a w + count a lost)

module _ (o : Object) (a : ℕ) (imported : ℕ → ℕ → SurfaceInfo) (pitched : ℕ → Bool)
    (params_size : ℕ) (owns : (x n : ℕ) → (imported x n).desc ≡ n) where
  attach_surfaces-Settled :
      (m : Message) (v : DeviceSubscriber) (s : Os) (h : ℕ)
      → v.nvbufs ≡ []
      → v.nvcudas ≡ []
      → let r = attach_surfaces imported pitched params_size m v s in
        Settled o s (h + objects_held o v) r.1 (h + objects_held o r.0)
        × Balanced a s (fds_held a v) r.1 (fds_held a r.0)
  unfolding attach_surfaces objects_held fds_held subscriber_held surfaces_held descs_held
      views_owned
  attach_surfaces-Settled m v s h nb nc =
      elim (Bool-cases (has_params imported pitched params_size m)) [
        | inr out ↦ (ground (arith, out), ground (arith, out))
        | inl there ↦
            let made = import_surfaces-Moves o a imported pitched params_size owns v.host.fds s in
            (
              ground (arith, there, nb, nc, made.settled (h + owned_each o v.accel_bufs)),
              ground (arith, there, nb, made.balanced (fds_held a v)),
            )
      ]

  attach_devices-Settled :
      (timeout : ℕ) (m : Message) (v : DeviceSubscriber) (s : Os) (h : ℕ)
      → let r = attach_devices imported pitched params_size timeout m v s in
        Settled o s (h + objects_held o v) r.1 (h + objects_held o r.0.1)
  unfolding attach_devices detach_devices
  attach_devices-Settled timeout m v s h =
      let g = detach_devices v s in
      let host = adopt m g.0.host in
      let b = attach_buffers (bare host) g.1 in
      let views = attach_buffers-Attached o a host g.1 in
      let f = attach_surfaces imported pitched params_size m b.0 b.1 in
      let surfaces = attach_surfaces-Settled m b.0 b.1 h views.no_bufs views.no_cudas in
      let c = open_channel timeout f.0.host f.1 in
      omega (
        arith,
        detach_devices-Settled o v s h,
        views.settled h,
        surfaces.0,
        still o f.1 c.1 (h + objects_held o f.0) (open_channel-device timeout f.0.host f.1),
        with_host o f.0 c.0.1,
      )

  attach_devices-Balanced :
      (timeout : ℕ) (m : Message) (v : DeviceSubscriber) (s : Os)
      → let r = attach_devices imported pitched params_size timeout m v s in
        Balanced a s (fds_held a v + count a m.fds) r.1 (fds_held a r.0.1)
  unfolding attach_devices detach_devices
  attach_devices-Balanced timeout m v s =
      let g = detach_devices v s in
      let host = adopt m g.0.host in
      let b = attach_buffers (bare host) g.1 in
      let views = attach_buffers-Attached o a host g.1 in
      let f = attach_surfaces imported pitched params_size m b.0 b.1 in
      let surfaces = attach_surfaces-Settled m b.0 b.1 0 views.no_bufs views.no_cudas in
      let c = open_channel timeout f.0.host f.1 in
      omega (
        arith,
        detach_devices-Balanced a v s,
        detach_devices-sock a v s,
        no_fds a v s,
        adopt-held a m g.0.host,
        views.balanced,
        surfaces.1,
        open_channel-Balanced a timeout f.0.host f.1,
        host_fds a f.0 c.0.1,
      )

  receive_devices-Keeps :
      (inbox : ℕ → Message) (timeout : ℕ) (v : DeviceSubscriber) (s : Os)
      → let r = receive_devices imported pitched params_size inbox timeout v s in
        Keeps o a s v r.1 r.0.1 (handshake_lost inbox s)
  unfolding receive_devices
  receive_devices-Keeps inbox timeout v s =
      let r = recv_pool_handshake inbox s in
      let calm = recv_pool_handshake-device inbox s in
      let got = recv_pool_handshake-Balanced inbox a s (fds_held a v) in
      elim (Option-cases r.0) [
        | inl out ↦ record {
          settled = λ h. ground (arith, out, still o s r.1 (h + objects_held o v) calm);
          balanced = ground (arith, out, got, count-none a);
        }
        | inr (m, e) ↦ elim (Bool-cases (m.header.wire_version == wire_version)) [
          | inr differs ↦
              let t = (close_each m.fds r.1).1 in
              let held = fds_held a v + count a (handshake_lost inbox s) in
              record {
                settled = λ h. ground (
                  arith,
                  e,
                  differs,
                  still o s r.1 (h + objects_held o v) calm,
                  still o r.1 t (h + objects_held o v) (close_each-device m.fds r.1),
                );
                balanced = ground (arith, e, differs, got, close_each-Balanced a m.fds r.1 held);
              }
          | inl same ↦
              let step : attach_devices imported pitched params_size timeout m v r.1
                  ≡ receive_devices imported pitched params_size inbox timeout v s =
                ground (arith, e, same) in
              subst (λ x. Keeps o a s v x.1 x.0.1 (handshake_lost inbox s)) step
                (record {
                  settled = λ h. omega (
                    arith,
                    still o s r.1 (h + objects_held o v) calm,
                    attach_devices-Settled timeout m v r.1 h,
                  );
                  balanced = ground (arith, e, got, attach_devices-Balanced timeout m v r.1);
                })
        ]
      ]

  pub wait_handshake_devices-Keeps :
      (inbox : ℕ → Message) (timeout : ℕ) (v : DeviceSubscriber) (s : Os)
      → let r = wait_handshake_devices imported pitched params_size inbox timeout v s in
        Keeps o a s v r.1 r.0.1 (wait_lost inbox timeout v.host s)
  unfolding wait_handshake_devices wait_lost objects_held fds_held
  wait_handshake_devices-Keeps inbox timeout v s =
      let r = connect timeout v.host.client s in
      let host : Subscriber = record v.host { client = r.0.1 } in
      let w : DeviceSubscriber = record v { host = host } in
      let calm = connect-device timeout v.host.client s in
      let next = receive_devices-Keeps inbox timeout w r.1 in
      let joined = connect-Balanced a timeout v.host.client s in
      elim (Bool-cases r.0.0) [
        | inr out ↦ record {
          settled = λ h. ground (arith, out, still o s r.1 (h + objects_held o v) calm);
          balanced = ground (arith, out, joined, with_client a v.host r.0.1, count-none a);
        }
        | inl up ↦ record {
          settled =
              λ h. ground (arith, up, still o s r.1 (h + objects_held o v) calm, next.settled h);
          balanced = ground (arith, up, joined, with_client a v.host r.0.1, next.balanced);
        }
      ]
