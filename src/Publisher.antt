-- ===== src/Publisher.antt =====
-- include/axon/publisher.h and src/publisher.cpp: the publisher's state and operations. The pool is the
-- caller's, so each operation takes it as it is at that time.
pub mod Channel
pub mod Steps
pub mod Slot
pub mod Ledger
pub mod Ring
pub mod Frames
pub mod Runs
use axon_sdk_for_physical_ai.Common.{
  ℕ, ◌+◌, ◌%◌, List, [], ◌∷◌, Bool, true, false, Option, none, some, length, get_or, get_elem?,
  if◌then◌else◌, ltb, ◌==◌, ◌&&◌, ◌||◌, not, wrap32, wrap64, e_inval, e_toobig, map,
}
use axon_sdk_for_physical_ai.Types.{
  AcceleratorHandle, v4l2, custom, backend_byte, SyncFenceKind, sync_file_via_sidecar, no_fence,
  dma_resv_implicit,
}
use axon_sdk_for_physical_ai.Descriptor.{
  TensorDescriptor, clear_descriptor, descriptor_error, wire_version,
}
use axon_sdk_for_physical_ai.Os.{M, ◌>>=◌, ◌>>◌, pure, set_errno, call}
use axon_sdk_for_physical_ai.Pool.{TensorPool}
use axon_sdk_for_physical_ai.Sidecar.{
  SidecarServer, set_pool, accept_and_handshake, broadcast_sync_fence, broadcast_pool,
  max_handshake_ext,
}
use axon_sdk_for_physical_ai.Sidecar as Sidecar
use axon_sdk_for_physical_ai.Publisher.Channel.{create_channel, destroy_channel}

-- `TensorPublisher::Impl`. `slot` is what the metadata channel shows: `none` until the first publish.
pub record TensorPublisher : Type 0 where
  pub buffer_size : ℕ
  pub rejected : ℕ
  pub server : SidecarServer
  pub slot : Option TensorDescriptor
  pub host_views : List (Option ℕ)
  pub staging : TensorDescriptor
  pub next_index : ℕ
  pub seqno : ℕ
  pub pool_cached : Bool
  pub cached_gen : ℕ

-- `AcquiredDescriptor`; the descriptor itself is the publisher's `staging`.
pub record AcquiredDescriptor : Type 0 where
  pub buffer_index : Option ℕ
  pub host_view : Option ℕ
  pub accel_handle : AcceleratorHandle

unfoldable pub cache_pool : Bool → TensorPool → TensorPublisher → TensorPublisher
cache_pool force pool p =
    if not force && p.pool_cached && (p.cached_gen == pool.gen) then p else record p {
      server =
          (set_pool pool.share_fds (wrap32 pool.gen) p.buffer_size wire_version
            (backend_byte pool.cfg.backend) pool.import_blob p.server).1;
      pool_cached = true;
      cached_gen = pool.gen;
    }

unfoldable pub unmap_each : List (Option ℕ) → M (Unit {0})
unmap_each [] = pure tt
unmap_each (none ∷ views) = unmap_each views
unmap_each (some v ∷ views) = do _ ← call; unmap_each views

-- `mmap` of each descriptor; a refusal leaves a null view.
unfoldable pub map_each : List ℕ → M (List (Option ℕ))
map_each [] = pure []
map_each (fd ∷ fds) = do mapped ← call; views ← map_each fds; pure (mapped ∷ views)

unfoldable pub map_views : TensorPool → TensorPublisher → M TensorPublisher
map_views pool p = do
  unmap_each p.host_views
  views ← map_each pool.share_fds
  pure (record p { host_views = views })

-- The size to map, by `lseek` on the first descriptor if the pool has none.
unfoldable pub pool_size : TensorPool → M ℕ
pool_size pool =
    if not (pool.buffer_size == 0) then pure pool.buffer_size else elim pool.share_fds [
      | [] ↦ pure 0
      | _ ∷ _ ↦ do size ← call; elim size [ none ↦ pure 0 | some n ↦ pure n ]
    ]

unfoldable pub new_publisher : ℕ → SidecarServer → TensorPublisher
new_publisher size server = record {
  buffer_size = size;
  rejected = 0;
  server = server;
  slot = none;
  host_views = [];
  staging = clear_descriptor;
  next_index = 0;
  seqno = 0;
  pool_cached = false;
  cached_gen = 0;
}

-- The two planes; if one cannot be made, the other is taken down.
unfoldable pub open_planes : M (Option SidecarServer)
open_planes = do
  server ← Sidecar.create
  channel ← create_channel
  elim server [
    | none ↦ elim channel [ true ↦ do destroy_channel; pure none | false ↦ pure none ]
    | some s ↦ elim channel [ true ↦ pure (some s) | false ↦ do Sidecar.destroy s; pure none ]
  ]

-- `TensorPublisher::create`.
unfoldable pub create : TensorPool → M (Option TensorPublisher)
create pool = do
  size ← pool_size pool
  if size == 0
      then (do set_errno e_inval; pure none)
      else if ltb max_handshake_ext (length pool.import_blob)
      then (do set_errno e_toobig; pure none)
      else do
        planes ← open_planes
        elim planes [
          | none ↦ pure none
          | some server ↦ do p ← map_views pool (new_publisher size server); pure (some p)
        ]

-- `~TensorPublisher`.
unfoldable pub destroy : TensorPublisher → M (Unit {0})
destroy p = do unmap_each p.host_views; Sidecar.destroy p.server; destroy_channel

abbrev with_server : TensorPublisher → Option ℕ × SidecarServer → Option ℕ × TensorPublisher
with_server p (accepted, server) = (accepted, record p { server = server })

-- The connections that are pending are `fuel` at most.
unfoldable pub handshake_pool : ℕ → TensorPool → TensorPublisher → M (Option ℕ × TensorPublisher)
handshake_pool fuel pool p = do
  let q = cache_pool false pool p
  r ← accept_and_handshake fuel 0 q.server
  pure (with_server q r)

-- Round-robin over the pool: no slot is locked.
unfoldable pub acquire_descriptor :
    TensorPool → TensorPublisher → AcquiredDescriptor × TensorPublisher
acquire_descriptor pool p =
    if length pool.share_fds == 0
    then (
      record {
        buffer_index = none;
        host_view = none;
        accel_handle = record { opaque = 0; backend = v4l2; size_bytes = 0 };
      },
      p,
    )
    else let idx = p.next_index % length pool.share_fds in
      (
        record {
          buffer_index = some idx;
          host_view = get_or p.host_views idx none;
          accel_handle = record { opaque = 0; backend = custom; size_bytes = p.buffer_size };
        },
        record p {
          next_index = wrap64 (p.next_index + 1);
          staging = record clear_descriptor { bo_handle = idx; pool_generation = pool.gen };
        },
      )

-- The fields that the publisher stamps.
unfoldable pub stamp : TensorPool → ℕ → Option ℕ → TensorPublisher → TensorDescriptor
stamp pool now index p = record p.staging {
  seqno = wrap64 (p.seqno + 1);
  pool_generation = pool.gen;
  bo_handle = elim index [ none ↦ 0 | some i ↦ i ];
  producer_publish_ts_ns = now;
}

unfoldable pub send_fence : SyncFenceKind → Option ℕ → SidecarServer → M ℕ
send_fence sync_file_via_sidecar (some fd) s = broadcast_sync_fence s
send_fence _ _ s = pure 0

-- The rest of `publish`, once the descriptor is accepted.
unfoldable pub publish_accepted :
    ℕ → TensorPool → ℕ → Option ℕ → Option ℕ → TensorPublisher → M TensorPublisher
publish_accepted fuel pool now index sync_fd p = do
  let d = stamp pool now index p
  _ ← send_fence d.sync_fence_kind sync_fd p.server
  let q = cache_pool false pool (record p { staging = d; seqno = d.seqno; slot = some d })
  r ← accept_and_handshake fuel 0 q.server
  pure (with_server q r).1

-- `publish` at time `now`, of the descriptor in `staging`; `false` is the error return.
unfoldable pub publish :
    ℕ → TensorPool → ℕ → Option ℕ → Option ℕ → TensorPublisher → M (Bool × TensorPublisher)
publish fuel pool now index sync_fd p = elim (descriptor_error p.staging p.buffer_size) [
  | some e ↦ do set_errno e; pure (false, record p { rejected = wrap64 (p.rejected + 1) })
  | none ↦ do q ← publish_accepted fuel pool now index sync_fd p; pure (true, q)
]

unfoldable pub rejected_count : TensorPublisher → ℕ
rejected_count p = p.rejected

-- `reannounce_pool`: the numbers of consumers that were sent the pool and of those accepted, where `none`
-- is the error return of the handshake. The code adds the two.
unfoldable pub reannounce_pool :
    ℕ → TensorPool → TensorPublisher → M ((ℕ × Option ℕ) × TensorPublisher)
reannounce_pool fuel pool p = do
  mapped ← map_views pool p
  let q = cache_pool true pool mapped
  reached ← broadcast_pool q.server
  r ← accept_and_handshake fuel 0 q.server
  pure ((reached, r.0), (with_server q r).1)
