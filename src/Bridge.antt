-- ===== src/Bridge.antt =====
-- The producer and the consumer of axon_bridge.h in
-- integrations/ros2_offload/ros2_ws/src/axon_ros2/include/axon_ros2 (the ros1 copy is the same): a pool or
-- its mappings, and the sidecar, without the metadata plane. The messages that a consumer receives are the
-- parameter `inbox`.
pub mod Ledger
pub mod Producers
pub mod Payload
use axon_sdk_for_physical_ai.Common.{
  ℕ, zero, suc, ◌+◌, List, [], ◌∷◌, ◌++◌, Bool, true, false, Option, none, some, length, get_elem?,
  if◌then◌else◌, wrap32,
}
use axon_sdk_for_physical_ai.Os.{Os, M, ◌>>=◌, ◌>>◌, pure, call, close, close_option}
use axon_sdk_for_physical_ai.Types.{PoolBackend, backend_byte}
use axon_sdk_for_physical_ai.Descriptor.{wire_version}
use axon_sdk_for_physical_ai.Pool.{TensorPool, TensorPoolConfig}
use axon_sdk_for_physical_ai.Pool.Alloc as Alloc
use axon_sdk_for_physical_ai.Sidecar.{SidecarServer, set_pool, accept_and_handshake}
use axon_sdk_for_physical_ai.Sidecar as Sidecar
use axon_sdk_for_physical_ai.Sidecar.Client.{Message, SidecarClient, connect, recv_pool_handshake}
use axon_sdk_for_physical_ai.Publisher.{unmap_each}

-- `Producer`.
pub record Producer : Type 0 where
  pub pool : TensorPool
  pub views : List (Option ℕ)
  pub server : SidecarServer
  pub buffer_size : ℕ

-- The loop of `Producer::create` that maps the buffers: whether all are mapped, and those that are.
unfoldable pub map_loop : List ℕ → List (Option ℕ) → M (Bool × List (Option ℕ))
map_loop [] views = pure (true, views)
map_loop (fd ∷ fds) views = do
  mapped ← call
  elim mapped [ none ↦ pure (false, views) | some v ↦ map_loop fds (views ++ some v ∷ []) ]

abbrev pub producer_config : ℕ → ℕ → PoolBackend → TensorPoolConfig
producer_config n_buffers buffer_size backend = record {
  n_buffers = n_buffers;
  buffer_size = buffer_size;
  backend = backend;
  v4l2_device = false;
}

-- The producer, with its bundle in the server.
unfoldable pub announced : PoolBackend → ℕ → TensorPool → List (Option ℕ) → SidecarServer → Producer
announced backend buffer_size pool views server = record {
  pool = pool;
  views = views;
  server =
      (set_pool pool.share_fds (wrap32 pool.gen) buffer_size wire_version (backend_byte backend) []
        server).1;
  buffer_size = buffer_size;
}

-- A return of null, with the pool destroyed.
unfoldable pub give_up_producer : TensorPool → List (Option ℕ) → M (Option Producer)
give_up_producer pool views = do unmap_each views; Alloc.destroy pool; pure none

-- `Producer::create` from the mapped pool on.
unfoldable pub serve : PoolBackend → ℕ → TensorPool → List (Option ℕ) → M (Option Producer)
serve backend buffer_size pool views = do
  server ← Sidecar.create
  elim server [
    | none ↦ give_up_producer pool views
    | some v ↦ pure (some (announced backend buffer_size pool views v))
  ]

-- `Producer::create` from the pool on.
unfoldable pub map_and_serve : PoolBackend → ℕ → TensorPool → M (Option Producer)
map_and_serve backend buffer_size pool = do
  (all, views) ← map_loop pool.share_fds []
  elim all [ false ↦ give_up_producer pool views | true ↦ serve backend buffer_size pool views ]

-- `Producer::create`; `pg` is the page size.
unfoldable pub create_producer : ℕ → ℕ → ℕ → PoolBackend → M (Option Producer)
create_producer pg n_buffers buffer_size backend = do
  pool ← Alloc.create pg (producer_config n_buffers buffer_size backend)
  elim pool [ none ↦ pure none | some p ↦ map_and_serve backend buffer_size p ]

-- `~Producer`, and its members.
unfoldable pub destroy_producer : Producer → M (Unit {0})
destroy_producer p = do unmap_each p.views; Sidecar.destroy p.server; Alloc.destroy p.pool

-- `poll_new_consumers`; `fuel` connections are pending at most.
unfoldable pub poll_new_consumers : ℕ → Producer → M Producer
poll_new_consumers fuel p = do
  r ← accept_and_handshake fuel 0 p.server
  pure (record p { server = r.1 })

-- The view of an index, or null.
abbrev pub view_at : List (Option ℕ) → ℕ → Option ℕ
view_at views i = elim (get_elem? views i) [ none ↦ none | some v ↦ v ]

-- `buffer`.
unfoldable pub buffer : Producer → ℕ → Option ℕ
buffer p i = view_at p.views i

-- `Consumer`.
pub record Consumer : Type 0 where
  pub client : SidecarClient
  pub views : List (Option ℕ)
  pub buffer_size : ℕ
  pub pool_generation : ℕ

-- The loop of `Consumer::create`: each descriptor is closed once it is mapped, or cannot be.
unfoldable pub map_and_close : List ℕ → M (List (Option ℕ))
map_and_close [] = pure []
map_and_close (fd ∷ fds) = do
  mapped ← call
  close fd
  views ← map_and_close fds
  pure (mapped ∷ views)

-- `~SidecarClient`.
unfoldable pub drop_client : SidecarClient → M (Option Consumer)
drop_client c = do close_option c.sock; pure none

abbrev pub no_client : SidecarClient
no_client = record { sock = none }

module _ (inbox : ℕ → Message) where
  -- `Consumer::create` once it is connected.
  unfoldable pub attach_consumer : SidecarClient → M (Option Consumer)
  attach_consumer c = do
    got ← recv_pool_handshake inbox
    elim got [
      | none ↦ drop_client c
      | some m ↦ do
        views ← map_and_close m.fds
        pure (
            some (record {
              client = c;
              views = views;
              buffer_size = m.header.buffer_size;
              pool_generation = m.header.pool_generation;
            }))
    ]

  -- `Consumer::create`.
  unfoldable pub create_consumer : ℕ → M (Option Consumer)
  create_consumer timeout_ms = do
    (connected, c) ← connect timeout_ms no_client
    elim connected [ false ↦ drop_client c | true ↦ attach_consumer c ]

-- `~Consumer`.
unfoldable pub destroy_consumer : Consumer → M (Unit {0})
destroy_consumer c = do unmap_each c.views; close_option c.client.sock

-- `payload`.
unfoldable pub payload : Consumer → ℕ → ℕ → Option ℕ
payload c bo_handle offset = elim (view_at c.views bo_handle) [
  | none ↦ none
  | some v ↦ some (v + offset)
]
