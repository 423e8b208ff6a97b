-- ===== src/Subscriber/Attach.antt =====
-- src/subscriber.cpp: how a subscriber attaches to a pool and lets go of it.
use axon_sdk_for_physical_ai.Common.{
  ℕ, [], Bool, false, none, some, ◌+◌, if◌then◌else◌, ◌==◌, not, wrap64, e_proto, e_notsup,
}
use axon_sdk_for_physical_ai.Types.{backend_byte, accelerator}
use axon_sdk_for_physical_ai.Descriptor.{wire_version}
use axon_sdk_for_physical_ai.Os.{M, ◌>>=◌, ◌>>◌, pure, set_errno, call}
use axon_sdk_for_physical_ai.Sidecar.{close_each}
use axon_sdk_for_physical_ai.Sidecar.Client.{Message, connect, recv_pool_handshake, pauses}
use axon_sdk_for_physical_ai.Publisher.{map_each, unmap_each}
use axon_sdk_for_physical_ai.Publisher.Channel.{attach_loop}
use axon_sdk_for_physical_ai.Subscriber.{Subscriber}
use axon_sdk_for_physical_ai.Subscriber.Fences.{close_fences}

-- `detach`.
unfoldable pub detach : Subscriber → M Subscriber
detach s = do
  unmap_each s.views
  close_each s.fds
  ring ← close_fences s.ring
  pure (record s {
    ring = ring;
    have_last_good = false;
    views = [];
    device_ptrs = [];
    device_backed = false;
    fds = [];
  })

-- What the header of the handshake says of the pool.
unfoldable pub adopt : Message → Subscriber → Subscriber
adopt m s = record s {
  fds = m.fds;
  buffer_size = m.header.buffer_size;
  pool_generation = m.header.pool_generation;
  device_backed = m.header.backend == backend_byte accelerator;
}

-- `delete meta`, and `create_subscriber` of the channel.
unfoldable pub open_channel : ℕ → Subscriber → M (Bool × Subscriber)
open_channel timeout_ms s = do
  _ ← if s.attached then call else pure none
  up ← attach_loop (pauses timeout_ms)
  let t = record s { attached = up }
  pure (up, if up then record t { handshake_count = wrap64 (t.handshake_count + 1) } else t)

-- The attaching part of `wait_handshake`, in a build without CUDA.
unfoldable pub attach : ℕ → Message → Subscriber → M (Bool × Subscriber)
attach timeout_ms m s = do
  gone ← detach s
  let t = adopt m gone
  if t.device_backed
      then (do set_errno e_notsup; pure (false, t))
      else do views ← map_each t.fds; open_channel timeout_ms (record t { views = views })

module _ (inbox : ℕ → Message) where
  -- The rest of `wait_handshake`, on a connected client.
  unfoldable pub receive : ℕ → Subscriber → M (Bool × Subscriber)
  receive timeout_ms s = do
    received ← recv_pool_handshake inbox
    elim received [
      | none ↦ pure (false, s)
      | some m ↦
          if not (m.header.wire_version == wire_version)
          then (do close_each m.fds; set_errno e_proto; pure (false, s))
          else attach timeout_ms m s
    ]

  -- `wait_handshake`; `false` is the error return.
  unfoldable pub wait_handshake : ℕ → Subscriber → M (Bool × Subscriber)
  wait_handshake timeout_ms s = do
    (connected, client) ← connect timeout_ms s.client
    let t = record s { client = client }
    if connected then receive timeout_ms t else pure (false, t)
