-- ===== src/Sidecar.antt =====
-- include/axon/detail/sidecar.h and src/sidecar.cpp, the publisher's side: the socket on which a pool's
-- descriptors and the sync fences reach the consumers. A call that is interrupted is made again at once,
-- so a reply stands for the first outcome that is not EINTR.
pub mod Clients
pub mod Client
use axon_sdk_for_physical_ai.Common.{
  ℕ, zero, suc, ◌+◌, ◌-◌, List, [], ◌∷◌, ◌++◌, Bool, true, false, Option, none, some, length,
  if◌then◌else◌, ltb, leb, ◌==◌, ◌&&◌, ◌||◌, wrap16, wrap32, e_inval,
}
use axon_sdk_for_physical_ai.Os.{
  M, ◌>>=◌, ◌>>◌, pure, set_errno, call, call_open, close, close_option,
}

-- `kMaxHandshakeExt` and `kMaxSidecarFds`.
abbrev pub max_handshake_ext : ℕ
max_handshake_ext = 65535

abbrev pub max_sidecar_fds : ℕ
max_sidecar_fds = 32

pub record PoolHandshakeHeader : Type 0 where
  pub msg : ℕ
  pub backend : ℕ
  pub ext_len : ℕ
  pub wire_version : ℕ
  pub pool_generation : ℕ
  pub n_buffers : ℕ
  pub buffer_size : ℕ

-- `SidecarMsg`.
abbrev pub pool_handshake_msg : ℕ
pool_handshake_msg = 1

-- `SidecarServer::Impl`, less the path.
pub record SidecarServer : Type 0 where
  pub listen_fd : Option ℕ
  pub clients : List ℕ
  pub pool_fds : List ℕ
  pub header : PoolHandshakeHeader
  pub ext : List ℕ

-- `set_pool`: whether the blob, if there is one, is carried.
unfoldable pub set_pool : List ℕ → ℕ → ℕ → ℕ → ℕ → List ℕ → SidecarServer → Bool × SidecarServer
set_pool fds generation size version backend ext s =
    let fits = ltb 0 (length ext) && leb (length ext) max_handshake_ext in
    (
      fits || (length ext == 0),
      record s {
        pool_fds = fds;
        ext = if fits then ext else [];
        header = record {
          msg = pool_handshake_msg;
          backend = backend;
          ext_len = if fits then wrap16 (length ext) else 0;
          wire_version = version;
          pool_generation = generation;
          n_buffers = wrap32 (length fds);
          buffer_size = size;
        };
      },
    )

-- `send_fds` to one socket: whether the message went out.
unfoldable pub send_fds : ℕ → M Bool
send_fds n_fds =
    if ltb max_sidecar_fds n_fds
    then (do set_errno e_inval; pure false)
    else (do sent ← call; elim sent [ none ↦ pure false | some n ↦ pure true ])

-- The loop that sends the blob, whose parts may be short. The fuel is one round for each byte: a
-- `send` of at least a byte takes at least one.
unfoldable pub send_ext : ℕ → ℕ → M Bool
send_ext zero remaining = pure false
send_ext (suc fuel) remaining = do
  sent ← call
  elim sent [
    | none ↦ pure false
    | some w ↦ if w == remaining then pure true else send_ext fuel (remaining - w)
  ]

unfoldable pub send_pool_to : SidecarServer → M Bool
send_pool_to s = do
  sent ← send_fds (length s.pool_fds)
  elim sent [
    | false ↦ pure false
    | true ↦ if length s.ext == 0 then pure true else send_ext (length s.ext) (length s.ext)
  ]

-- One connection: accepted, given the pool and kept, or closed. `none` is the error return.
unfoldable pub accept_one : SidecarServer → M (Option SidecarServer)
accept_one s = do
  accepted ← call_open
  elim accepted [
    | none ↦ pure none
    | some c ↦ do
      sent ← send_pool_to s
      if sent
          then pure (some (record s { clients = s.clients ++ c ∷ [] }))
          else (do close c; pure none)
  ]

-- `accept_and_handshake`, which goes on while connections are pending: `fuel` of them at most. The
-- first component is the number accepted, or `none` for -1.
unfoldable pub accept_and_handshake : ℕ → ℕ → SidecarServer → M (Option ℕ × SidecarServer)
accept_and_handshake zero accepted s = pure (some accepted, s)
accept_and_handshake (suc fuel) accepted s = do
  polled ← call
  elim polled [
    | none ↦ pure (none, s)
    | some n ↦ if n == 0 then pure (some accepted, s) else do
      r ← accept_one s
      elim r [ none ↦ pure (none, s) | some q ↦ accept_and_handshake fuel (accepted + 1) q ]
  ]

-- The loop of `broadcast_pool` over the clients: how many were reached.
unfoldable pub send_pool_each : List ℕ → SidecarServer → M ℕ
send_pool_each [] s = pure 0
send_pool_each (c ∷ cs) s = do
  sent ← send_pool_to s
  n ← send_pool_each cs s
  pure (if sent then n + 1 else n)

unfoldable pub broadcast_pool : SidecarServer → M ℕ
broadcast_pool s = send_pool_each s.clients s

unfoldable pub send_fence_each : List ℕ → M ℕ
send_fence_each [] = pure 0
send_fence_each (c ∷ cs) = do
  sent ← send_fds 1
  n ← send_fence_each cs
  pure (if sent then n + 1 else n)

unfoldable pub broadcast_sync_fence : SidecarServer → M ℕ
broadcast_sync_fence s = send_fence_each s.clients

-- `SidecarServer::create`: `unlink`, `socket`, `bind`, `listen`; on failure the destructor unlinks again.
unfoldable pub create : M (Option SidecarServer)
create = do
  _ ← call
  socket ← call_open
  elim socket [
    | none ↦ do _ ← call; pure none
    | some fd ↦ do
      bound ← call
      elim bound [
        | none ↦ do close fd; _ ← call; pure none
        | some _ ↦ do
          listening ← call
          elim listening [
            | none ↦ do close fd; _ ← call; pure none
            | some _ ↦ pure (
                some (record {
                  listen_fd = some fd;
                  clients = [];
                  pool_fds = [];
                  header = record {
                    msg = 0;
                    backend = 0;
                    ext_len = 0;
                    wire_version = 0;
                    pool_generation = 0;
                    n_buffers = 0;
                    buffer_size = 0;
                  };
                  ext = [];
                }))
          ]
      ]
  ]

unfoldable pub close_each : List ℕ → M (Unit {0})
close_each [] = pure tt
close_each (fd ∷ fds) = do close fd; close_each fds

-- `~SidecarServer`.
unfoldable pub destroy : SidecarServer → M (Unit {0})
destroy s = do close_each s.clients; close_option s.listen_fd; _ ← call; pure tt

-- `connected_count`.
unfoldable pub connected_count : SidecarServer → ℕ
connected_count s = length s.clients
