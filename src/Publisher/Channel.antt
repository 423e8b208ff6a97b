-- ===== src/Publisher/Channel.antt =====
-- src/metadata_channel.cpp: how the shared slot is created and attached to.
use axon_sdk_for_physical_ai.Common.{suc, zero, ℕ, Bool, true, false, none, some}
use axon_sdk_for_physical_ai.Os.{M, ◌>>=◌, ◌>>◌, pure, call, call_open, close}

-- `SeqlockMetadataChannel::create_publisher`: whether there is a channel. A failed one is deleted, which
-- unlinks the name once more.
unfoldable pub create_channel : M Bool
create_channel = do
  _ ← call
  opened ← call_open
  elim opened [
    | none ↦ do _ ← call; pure false
    | some fd ↦ do
      sized ← call
      elim sized [
        | none ↦ do close fd; _ ← call; _ ← call; pure false
        | some _ ↦ do
          mapped ← call
          close fd
          elim mapped [ none ↦ do _ ← call; _ ← call; pure false | some _ ↦ pure true ]
      ]
  ]

-- `~SeqlockMetadataChannel` of the publisher: `munmap` and `shm_unlink`.
unfoldable pub destroy_channel : M (Unit {0})
destroy_channel = do _ ← call; _ ← call; pure tt

-- The end of `create_subscriber`, once the shared memory is open: `fstat`, `mmap`.
unfoldable pub map_slot : ℕ → M Bool
map_slot fd = do
  _ ← call
  mapped ← call
  close fd
  elim mapped [ none ↦ pure false | some _ ↦ pure true ]

-- The loop of `create_subscriber`, with a pause between attempts; `left` pauses remain.
unfoldable pub attach_loop : ℕ → M Bool
attach_loop zero = do opened ← call_open; elim opened [ none ↦ pure false | some fd ↦ map_slot fd ]
attach_loop (suc left) = do
  opened ← call_open
  elim opened [ none ↦ do _ ← call; attach_loop left | some fd ↦ map_slot fd ]
