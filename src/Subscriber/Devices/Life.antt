-- ===== src/Subscriber/Devices/Life.antt =====
-- src/subscriber.cpp: a subscriber that imports device buffers, from its creation to its end.
use axon_sdk_for_physical_ai.Subscriber.Devices.Handshakes.{Keeps, wait_handshake_devices-Keeps}
use axon_sdk_for_physical_ai.Common.{List, ℕ, ◌+◌, ◌≡◌, [], Bool, arith, refl, ◌++◌, zero, suc}
use axon_sdk_for_physical_ai.Os.{Os, Object, M, pure, ◌>>=◌, close_option, call}
use axon_sdk_for_physical_ai.Os.Ledger.{
  count, Balanced, count_option, count-append, close_option-Balanced, call-Balanced,
}
use axon_sdk_for_physical_ai.Os.Objects.{Settled}
use axon_sdk_for_physical_ai.Accel.Ring.{owned_each, fds_each}
use axon_sdk_for_physical_ai.NvBuffer.{SurfaceInfo}
use axon_sdk_for_physical_ai.NvBuffer.Life.{surfaces_held, descs_held}
use axon_sdk_for_physical_ai.NvBuffer.Views.{views_owned}
use axon_sdk_for_physical_ai.Sidecar.Client.{Message}
use axon_sdk_for_physical_ai.Subscriber.Ledger.{subscriber_held, wait_lost, count-none, slots_held}
use axon_sdk_for_physical_ai.Subscriber.Devices.{
  detach_devices, DeviceSubscriber, wait_handshake_devices, destroy_devices, new_subscriber,
}
use axon_sdk_for_physical_ai.Subscriber.Devices.Still.{still, close_option-device, call-device}
use axon_sdk_for_physical_ai.Subscriber.Devices.Ledger.{
  objects_held, fds_held, detach_devices-Settled, detach_devices-Balanced,
}

destroy_devices-Settled :
    (o : Object) (a : ℕ) (v : DeviceSubscriber) (s : Os) (h : ℕ)
    → Settled o s (h + objects_held o v) (destroy_devices v s).1 h
      × Balanced a s (fds_held a v) (destroy_devices v s).1 0
unfolding destroy_devices detach_devices
destroy_devices-Settled o a v s h =
    let g = detach_devices v s in
    let sock = v.host.client.sock in
    let t = (close_option sock g.1).1 in
    (
      ground (
        arith,
        detach_devices-Settled o v s h,
        still o g.1 t h (close_option-device sock g.1),
        still o t (call t).1 h (call-device t),
      ),
      ground (
        arith,
        detach_devices-Balanced a v s,
        close_option-Balanced a sock g.1 0,
        call-Balanced a t 0,
      ),
    )

new_subscriber-empty :
    (o : Object) (a : ℕ) → (objects_held o new_subscriber ≡ 0) × (fds_held a new_subscriber ≡ 0)
unfolding objects_held fds_held new_subscriber owned_each fds_each surfaces_held descs_held
    views_owned subscriber_held slots_held count count_option
new_subscriber-empty o a = (refl, refl)

-- `n` handshakes, each with its timeout.
module _ (imported : ℕ → ℕ → SurfaceInfo) (pitched : ℕ → Bool) (params_size : ℕ)
    (inbox : ℕ → Message) (timeout : ℕ → ℕ) where
  unfoldable pub handshakes : ℕ → M DeviceSubscriber
  handshakes zero = pure new_subscriber
  handshakes (suc n) = do
    v ← handshakes n
    (shook, w) ← wait_handshake_devices imported pitched params_size inbox (timeout n) v
    pure w

  -- The descriptors that they lose.
  unfoldable pub handshakes_lost : ℕ → Os → List ℕ
  handshakes_lost zero s = []
  handshakes_lost (suc n) s =
      let r = handshakes n s in wait_lost inbox (timeout n) r.0.host r.1 ++ handshakes_lost n s

  -- The life of a subscriber.
  unfoldable pub subscriber_life : ℕ → M (Unit {0})
  subscriber_life n = do v ← handshakes n; destroy_devices v

  handshakes-Keeps :
      (o : Object) (a n : ℕ) (s : Os)
      → ((x m : ℕ) → (imported x m).desc ≡ m)
      → Keeps o a s new_subscriber (handshakes n s).1 (handshakes n s).0 (handshakes_lost n s)
  unfolding handshakes handshakes_lost
  handshakes-Keeps o a zero s owns = record {
    settled = λ h. refl;
    balanced = omega (arith, count-none a);
  }
  handshakes-Keeps o a (suc n) s owns =
      let r = handshakes n s in
      let before = handshakes-Keeps o a n s owns in
      let lost = wait_lost inbox (timeout n) r.0.host r.1 in
      let one =
        wait_handshake_devices-Keeps o a imported pitched params_size owns inbox (timeout n) r.0
          r.1 in
      record {
        settled = λ h. omega (arith, before.settled h, one.settled h);
        balanced =
            omega (arith, before.balanced, one.balanced, count-append a lost (handshakes_lost n s));
      }

  -- If the library keeps the descriptor that a surface is imported from as the surface's own, then whatever
  -- arrives and whichever calls fail, after a subscriber has been created, has made any number of
  -- handshakes, failed or not, and has been destroyed, each object of the device libraries has been
  -- returned as often as it has been taken, and each file descriptor closed as often as opened, but for
  -- those that came with a handshake message of the wrong size.
  pub subscriber_life-Settled :
      (o : Object) (a n : ℕ) (s : Os)
      → ((x m : ℕ) → (imported x m).desc ≡ m)
      → Settled o s 0 (subscriber_life n s).1 0
        × Balanced a s 0 (subscriber_life n s).1 (count a (handshakes_lost n s))
  unfolding subscriber_life
  subscriber_life-Settled o a n s owns =
      let made = handshakes-Keeps o a n s owns in
      let v = (handshakes n s).0 in
      let ended = destroy_devices-Settled o a v (handshakes n s).1 0 in
      let empty = new_subscriber-empty o a in
      (
        omega (arith, made.settled 0, ended.0, empty.0),
        omega (arith, made.balanced, ended.1, empty.1),
      )
