-- ===== src/Subscriber/Devices/Attached.antt =====
-- src/subscriber.cpp: what the loops of `wait_handshake` over the buffers take.
use axon_sdk_for_physical_ai.Common.{ℕ, ◌+◌, ◌≡◌, [], arith, Bool-cases, inl, inr}
use axon_sdk_for_physical_ai.Os.{Os, Object}
use axon_sdk_for_physical_ai.Os.Ledger.{Balanced}
use axon_sdk_for_physical_ai.Os.Objects.{Settled}
use axon_sdk_for_physical_ai.Accel.Ring.{owned_each, fds_each}
use axon_sdk_for_physical_ai.NvBuffer.Life.{surfaces_held, descs_held}
use axon_sdk_for_physical_ai.NvBuffer.Views.{views_owned}
use axon_sdk_for_physical_ai.Publisher.{map_each}
use axon_sdk_for_physical_ai.Subscriber.{Subscriber}
use axon_sdk_for_physical_ai.Subscriber.Ledger.{subscriber_held, map_each-Balanced}
use axon_sdk_for_physical_ai.Subscriber.Devices.{DeviceSubscriber, attach_buffers}
use axon_sdk_for_physical_ai.Subscriber.Devices.Still.{still, map_each-device}
use axon_sdk_for_physical_ai.Subscriber.Devices.Ledger.{objects_held, fds_held, import_each-Moves}

-- A subscriber without device buffers.
abbrev pub bare : Subscriber → DeviceSubscriber
bare host = record { host = host; accel_bufs = []; nvbufs = []; nvcudas = [] }

-- What `attach_buffers` makes of it.
pub record Attached (o : Object) (a : ℕ) (host : Subscriber) (s : Os) (w : DeviceSubscriber)
    (t : Os) : Type 0 where
  pub settled : (h : ℕ) → Settled o s h t (h + objects_held o w)
  pub balanced : Balanced a s (subscriber_held a host) t (fds_held a w)
  pub no_bufs : w.nvbufs ≡ []
  pub no_cudas : w.nvcudas ≡ []

pub attach_buffers-Attached :
    (o : Object) (a : ℕ) (host : Subscriber) (s : Os)
    → Attached o a host s (attach_buffers (bare host) s).0 (attach_buffers (bare host) s).1
unfolding attach_buffers objects_held fds_held surfaces_held descs_held views_owned owned_each
    fds_each subscriber_held
attach_buffers-Attached o a host s = elim (Bool-cases host.device_backed) [
  | inl device ↦
      let made = import_each-Moves o a host.buffer_size host.fds s in
      record {
        settled = λ h. ground (arith, device, made.settled h);
        balanced = ground (arith, device, made.balanced (subscriber_held a host));
        no_bufs = ground (arith, device);
        no_cudas = ground (arith, device);
      }
  | inr mapped ↦
      let t = (map_each host.fds s).1 in
      let same = map_each-Balanced a host.fds s (subscriber_held a host) in
      record {
        settled = λ h. ground (arith, mapped, still o s t h (map_each-device host.fds s));
        balanced = ground (arith, mapped, same);
        no_bufs = ground (arith, mapped);
        no_cudas = ground (arith, mapped);
      }
]
