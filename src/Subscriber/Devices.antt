-- ===== src/Subscriber/Devices.antt =====
-- src/subscriber.cpp, built with CUDA and Jetson support: how a subscriber imports device buffers and
-- surfaces, and gives them back. What the Jetson library reports of an imported surface, whether a frame
-- is pitch-linear, and the size of the parameters of one surface are parameters.
pub mod Still
pub mod Ledger
pub mod Attached
pub mod Handshakes
pub mod Life
use axon_sdk_for_physical_ai.Common.{
  ℕ, zero, suc, ◌*◌, ◌+◌, List, [], ◌∷◌, Bool, true, false, Option, none, some, map, length,
  if◌then◌else◌, ◌==◌, ◌&&◌, not, wrap64, e_proto,
}
use axon_sdk_for_physical_ai.Types.{
  backend_byte, nv_buf_surface, last_known_good, custom, u8, unknown_units, unknown_clock,
  unknown_layout,
}
use axon_sdk_for_physical_ai.Descriptor.{wire_version}
use axon_sdk_for_physical_ai.Os.{M, ◌>>=◌, ◌>>◌, pure, set_errno, call, close_option}
use axon_sdk_for_physical_ai.Sidecar.{close_each}
use axon_sdk_for_physical_ai.Sidecar.Client.{Message, connect, recv_pool_handshake}
use axon_sdk_for_physical_ai.Publisher.{map_each, unmap_each}
use axon_sdk_for_physical_ai.Accel.{AccelBuffer, no_buffer, accel_import, free_each}
use axon_sdk_for_physical_ai.NvBuffer.{
  NvBuf, NvBufCuda, SurfaceInfo, no_nvbuf, no_cuda, nvbuf_import, nvbuf_cuda_map,
}
use axon_sdk_for_physical_ai.NvBuffer.Ring.{free_surfaces}
use axon_sdk_for_physical_ai.Subscriber.{Subscriber, TensorView}
use axon_sdk_for_physical_ai.Subscriber.Fences.{close_fences, empty_ring}
use axon_sdk_for_physical_ai.Subscriber.Attach.{adopt, open_channel}

-- `TensorSubscriber::Impl` with the fields that these builds add.
pub record DeviceSubscriber : Type 0 where
  pub host : Subscriber
  pub accel_bufs : List AccelBuffer
  pub nvbufs : List NvBuf
  pub nvcudas : List NvBufCuda

abbrev empty_view : TensorView
empty_view = record {
  data_ptr = none;
  device_ptr = none;
  accel_handle = record { opaque = 0; backend = custom; size_bytes = 0 };
  shape = record { dims = []; rank = 0 };
  dtype = u8;
  staleness_ns = 0;
  seqno = 0;
  sync_fd = none;
  seqlock_retries = 0;
  row_pitch = 0;
  depth_scale = 0;
  invalid_value = 0;
  sample_units = unknown_units;
  capture_clock = unknown_clock;
  layout = unknown_layout;
  capture_ts_ns = 0;
  intr_fx = 0;
  intr_fy = 0;
  intr_cx = 0;
  intr_cy = 0;
  intr_ref_width = 0;
  intr_ref_height = 0;
}

-- `TensorSubscriber::create`, which makes no call of the system.
unfoldable pub new_subscriber : DeviceSubscriber
new_subscriber = record {
  host = record {
    client = record { sock = none };
    attached = false;
    fds = [];
    views = [];
    buffer_size = 0;
    pool_generation = 0;
    device_backed = false;
    device_ptrs = [];
    fallback = last_known_good;
    have_last_good = false;
    last_good = empty_view;
    last_good_publish_ts_ns = 0;
    handshake_count = 0;
    fallback_count = 0;
    seen_notify = 0;
    seen_seqno = 0;
    ring = empty_ring;
  };
  accel_bufs = [];
  nvbufs = [];
  nvcudas = [];
}

-- `detach`.
unfoldable pub detach_devices : DeviceSubscriber → M DeviceSubscriber
detach_devices v = do
  unmap_each v.host.views
  free_each v.accel_bufs
  free_surfaces v.nvbufs v.nvcudas
  close_each v.host.fds
  ring ← close_fences v.host.ring
  pure (record {
    host = record v.host {
      ring = ring;
      have_last_good = false;
      views = [];
      device_ptrs = [];
      device_backed = false;
      fds = [];
    };
    accel_bufs = [];
    nvbufs = [];
    nvcudas = [];
  })

-- A pointer, where the null pointer is `none`.
abbrev pub pointer : ℕ → Option ℕ
pointer zero = none
pointer (suc a) = some (suc a)

abbrev pub or_no_buffer : Option AccelBuffer → AccelBuffer
or_no_buffer none = no_buffer
or_no_buffer (some b) = b

-- The loop over `accel_import`: a buffer that cannot be imported is left empty.
unfoldable pub import_each : ℕ → List ℕ → M (List AccelBuffer)
import_each size [] = pure []
import_each size (fd ∷ fds) = do
  b ← accel_import (some fd) size
  bs ← import_each size fds
  pure (or_no_buffer b ∷ bs)

-- The host views, or the device buffers of an accelerator pool.
unfoldable pub attach_buffers : DeviceSubscriber → M DeviceSubscriber
attach_buffers v =
    if v.host.device_backed
    then (do
      bufs ← import_each v.host.buffer_size v.host.fds
      pure (record v {
        host = record v.host { device_ptrs = map (λ b. pointer b.device_ptr) bufs };
        accel_bufs = bufs;
      }))
    else (do
      views ← map_each v.host.fds
      pure (record v { host = record v.host { views = views } }))

module _ (imported : ℕ → ℕ → SurfaceInfo) (pitched : ℕ → Bool) (params_size : ℕ) where
  -- One round of the loop over `nvbuf_import`: the surface, and its CUDA view if there is one.
  unfoldable pub import_surface : ℕ → M (NvBuf × NvBufCuda)
  import_surface fd = do
    b ← nvbuf_import imported (some fd)
    elim b [
      | none ↦ pure (no_nvbuf, no_cuda)
      | some x ↦ do
        c ← nvbuf_cuda_map pitched x
        elim c [ none ↦ pure (x, no_cuda) | some y ↦ pure (x, y) ]
    ]

  unfoldable pub import_surfaces : List ℕ → M (List NvBuf × List NvBufCuda)
  import_surfaces [] = pure ([], [])
  import_surfaces (fd ∷ fds) = do
    one ← import_surface fd
    rest ← import_surfaces fds
    pure (one.0 ∷ rest.0, one.1 ∷ rest.1)

  -- Whether the handshake brings parameters for each surface.
  unfoldable pub has_params : Message → Bool
  has_params m =
      (m.header.backend == backend_byte nv_buf_surface)
      && (m.header.ext_len == length m.fds * params_size)

  unfoldable pub attach_surfaces : Message → DeviceSubscriber → M DeviceSubscriber
  attach_surfaces m v =
      if has_params m
      then (do
        made ← import_surfaces v.host.fds
        pure (record v {
          host = record v.host { device_ptrs = map (λ c. pointer c.device_ptr) made.1 };
          nvbufs = made.0;
          nvcudas = made.1;
        }))
      else pure v

  -- The attaching part of `wait_handshake`.
  unfoldable pub attach_devices : ℕ → Message → DeviceSubscriber → M (Bool × DeviceSubscriber)
  attach_devices timeout_ms m v = do
    gone ← detach_devices v
    with_views ← attach_buffers (record gone { host = adopt m gone.host })
    with_surfaces ← attach_surfaces m with_views
    (up, host) ← open_channel timeout_ms with_surfaces.host
    pure (up, record with_surfaces { host = host })

  module _ (inbox : ℕ → Message) where
    unfoldable pub receive_devices : ℕ → DeviceSubscriber → M (Bool × DeviceSubscriber)
    receive_devices timeout_ms v = do
      received ← recv_pool_handshake inbox
      elim received [
        | none ↦ pure (false, v)
        | some m ↦
            if not (m.header.wire_version == wire_version)
            then (do close_each m.fds; set_errno e_proto; pure (false, v))
            else attach_devices timeout_ms m v
      ]

    -- `wait_handshake`; `false` is the error return.
    unfoldable pub wait_handshake_devices : ℕ → DeviceSubscriber → M (Bool × DeviceSubscriber)
    wait_handshake_devices timeout_ms v = do
      (connected, client) ← connect timeout_ms v.host.client
      let w = record v { host = record v.host { client = client } }
      if connected then receive_devices timeout_ms w else pure (false, w)

-- `~TensorSubscriber`.
unfoldable pub destroy_devices : DeviceSubscriber → M (Unit {0})
destroy_devices v = do
  gone ← detach_devices v
  close_option gone.host.client.sock
  _ ← if gone.host.attached then call else pure none
  pure tt
