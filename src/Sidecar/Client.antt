-- ===== src/Sidecar/Client.antt =====
-- src/sidecar.cpp, the consumer's side. What the kernel delivers with the `n`th call is a parameter,
-- `inbox n`; whether the call succeeds, and how many bytes it reads, is its reply.
pub mod Ledger
use axon_sdk_for_physical_ai.Common.{
  ℕ, zero, suc, ◌+◌, ◌-◌, ◌/◌, List, [], ◌∷◌, ◌++◌, Bool, true, false, Option, none, some, length,
  if◌then◌else◌, ltb, ◌==◌, not, min, e_proto, e_overflow, e_timedout, e_nosys,
}
use axon_sdk_for_physical_ai.Os.{
  Os, M, ◌>>=◌, ◌>>◌, pure, done, fails, set_errno, call, call_open, close, close_option,
}
use axon_sdk_for_physical_ai.Sidecar.{
  PoolHandshakeHeader, max_sidecar_fds, pool_handshake_msg, close_each,
}

-- A message with its descriptors. Its bytes are read as a `PoolHandshakeHeader`, whose `msg` is the first
-- byte, or as a `SyncFenceHeader`, which has a token.
pub record Message : Type 0 where
  pub fds : List ℕ
  pub header : PoolHandshakeHeader
  pub token : ℕ

-- `SidecarClient::Impl`, less the path.
pub record SidecarClient : Type 0 where
  pub sock : Option ℕ

-- `sizeof(PoolHandshakeHeader)`.
abbrev pub handshake_size : ℕ
handshake_size = 24

-- The loop of `read_exact`: whether all bytes came. The fuel is the number of bytes.
unfoldable pub read_exact : ℕ → ℕ → M Bool
read_exact fuel zero = pure true
read_exact zero (suc remaining) = pure false
read_exact (suc fuel) (suc remaining) = do
  polled ← call
  elim polled [
    | none ↦ pure false
    | some n ↦ if n == 0 then (do set_errno e_timedout; pure false) else do
      got ← call
      elim got [
        | none ↦ pure false
        | some r ↦
            if r == 0
            then (do set_errno e_proto; pure false)
            else read_exact fuel (suc remaining - r)
      ]
  ]

-- The loop of `connect`, with a pause between attempts; `left` pauses remain.
unfoldable pub connect_loop : ℕ → ℕ → SidecarClient → M (Bool × SidecarClient)
connect_loop zero fd c = do
  connected ← call
  elim connected [
    | none ↦ do close fd; pure (false, c)
    | some _ ↦ do close_option c.sock; pure (true, record { sock = some fd })
  ]
connect_loop (suc left) fd c = do
  connected ← call
  elim connected [
    | none ↦ do _ ← call; connect_loop left fd c
    | some _ ↦ do close_option c.sock; pure (true, record { sock = some fd })
  ]

-- The pauses of 20 ms that fit before `timeout_ms` has been waited.
abbrev pub pauses : ℕ → ℕ
pauses timeout_ms = (timeout_ms + 19) / 20

unfoldable pub connect : ℕ → SidecarClient → M (Bool × SidecarClient)
connect timeout_ms c = do
  socket ← call_open
  elim socket [ none ↦ pure (false, c) | some fd ↦ connect_loop (pauses timeout_ms) fd c ]

-- `pidfd_getfd_fallback`, on a system that has the call or has not.
unfoldable pub pidfd_getfd_fallback : Bool → M (Option ℕ)
pidfd_getfd_fallback true = call_open
pidfd_getfd_fallback false = do set_errno e_nosys; pure none

-- `fd`.
unfoldable pub client_fd : SidecarClient → Option ℕ
client_fd c = c.sock

module _ (inbox : ℕ → Message) where
  -- The descriptors of a message are the process's once the call succeeds.
  unfoldable pub recvmsg : M (Option (ℕ × Message))
  recvmsg s = elim (s.reply s.calls) [
    | done n ↦ (
      some (n, inbox s.calls),
      record s { calls = s.calls + 1; opened = (inbox s.calls).fds ++ s.opened },
    )
    | fails e ↦ (none, record s { calls = s.calls + 1; errno = e })
  ]

  -- A message of another size than `payload_len` is an error, and its descriptors stay open.
  unfoldable pub recv_fds : ℕ → ℕ → M (Option Message)
  recv_fds max_fds payload_len = do
    r ← recvmsg
    elim r [
      | none ↦ pure none
      | some (n, m) ↦
          if not (n == payload_len)
          then (do set_errno e_proto; pure none)
          else if ltb max_fds (length m.fds)
          then (do close_each m.fds; set_errno e_overflow; pure none)
          else pure (some m)
    ]

  -- The end of `recv_pool_handshake`: the tag is checked, and the blob is read.
  unfoldable pub finish_handshake : Message → M (Option Message)
  finish_handshake m =
      if not (m.header.msg == pool_handshake_msg)
      then (do close_each m.fds; set_errno e_proto; pure none)
      else do
        framed ← read_exact m.header.ext_len m.header.ext_len
        if framed then pure (some m) else (do close_each m.fds; pure none)

  unfoldable pub recv_pool_handshake : M (Option Message)
  recv_pool_handshake = do
    polled ← call
    elim polled [
      | none ↦ pure none
      | some n ↦ if n == 0 then (do set_errno e_timedout; pure none) else do
        received ← recv_fds max_sidecar_fds handshake_size
        elim received [ none ↦ pure none | some m ↦ finish_handshake m ]
    ]
