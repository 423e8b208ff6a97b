-- ===== src/Examples/Publishers.antt =====
-- A publisher of the pool of three buffers, with a consumer attached to it.
use axon_sdk_for_physical_ai.Common.{
  ℕ, ◌+◌, ◌≡◌, ◌≢◌, ◌<◌, List, [], ◌∷◌, true, none, some, arith, replicate,
}
use axon_sdk_for_physical_ai.Os.Ledger.{Balanced}
use axon_sdk_for_physical_ai.Descriptor.{TensorDescriptor}
use axon_sdk_for_physical_ai.Sidecar.{SidecarServer, accept_and_handshake}
use axon_sdk_for_physical_ai.Sidecar.Clients.{accept_and_handshake-oversize}
use axon_sdk_for_physical_ai.Publisher.{TensorPublisher, publish}
use axon_sdk_for_physical_ai.Publisher.Ledger.{publisher_life, publisher_life-Balanced}
use axon_sdk_for_physical_ai.Publisher.Frames.{Frame}
use axon_sdk_for_physical_ai.Publisher.Runs.{publish_each, Accounted, publish_each-Accounted}
use axon_sdk_for_physical_ai.Publisher.Slot.{IsConsistent, publish-IsConsistent}
use axon_sdk_for_physical_ai.Publisher.Ring.{buffer_of, buffer_of-lap}
use axon_sdk_for_physical_ai.Examples.Descriptors.{depth_frame}
use axon_sdk_for_physical_ai.Examples.Pools.{pool, willing}

abbrev pub server : SidecarServer
server = record {
  listen_fd = some 9;
  clients = 12 ∷ [];
  pool_fds = 5 ∷ 5 ∷ 5 ∷ [];
  header = record {
    msg = 1;
    backend = 2;
    ext_len = 0;
    wire_version = 4;
    pool_generation = 1;
    n_buffers = 3;
    buffer_size = 153600;
  };
  ext = [];
}

abbrev pub publisher : TensorPublisher
publisher = record {
  buffer_size = 153600;
  rejected = 0;
  server = server;
  slot = none;
  host_views = some 4096 ∷ none ∷ some 8192 ∷ [];
  staging = depth_frame;
  next_index = 1;
  seqno = 6;
  pool_cached = true;
  cached_gen = 1;
}

abbrev wide_server : SidecarServer
wide_server = record server { pool_fds = replicate 33 5 }

accept_and_handshake-oversize_example :
    (accept_and_handshake 2 0 wide_server willing).0.1 ≡ wide_server
accept_and_handshake-oversize_example =
    accept_and_handshake-oversize 2 0 wide_server willing (omega arith)

-- A frame that fits, one without bytes, and one in another buffer.
abbrev frames : List Frame
frames =
    record { filled = depth_frame; pool = pool; now = 70; index = some 1; sync_fd = none }
    ∷ record {
      filled = record depth_frame { size = 0 };
      pool = pool;
      now = 80;
      index = some 2;
      sync_fd = none;
    }
    ∷ record { filled = depth_frame; pool = pool; now = 90; index = some 0; sync_fd = none }
    ∷ []

publish_each-Accounted_example :
    Accounted 153600 frames publisher
      (publish_each 2 frames publisher willing).0.0
      (publish_each 2 frames publisher willing).0.1
publish_each-Accounted_example =
    publish_each-Accounted 2 frames publisher willing (omega arith) (omega arith)

publisher-IsConsistent : IsConsistent publisher
publisher-IsConsistent = record {
  numbered = λ d e. absurd (ground (arith, e));
  checked = λ d e. absurd (ground (arith, e));
}

publish-IsConsistent_example : IsConsistent (publish 2 pool 70 (some 1) none publisher willing).0.1
publish-IsConsistent_example =
    publish-IsConsistent 2 pool 70 (some 1) none publisher willing publisher-IsConsistent

-- The caller stages the depth frame with a size that grows.
abbrev filled : ℕ → TensorDescriptor → TensorDescriptor
filled k d = record depth_frame { size = 153598 + k }

buffer_of-lap_example :
    ((j : ℕ)
      → 4 < j
      → j < 7
      → buffer_of pool filled (λ k. 70 + k) (λ k. 1) 4 publisher willing
        ≢ buffer_of pool filled (λ k. 70 + k) (λ k. 1) j publisher willing)
    × (buffer_of pool filled (λ k. 70 + k) (λ k. 1) 7 publisher willing
        ≡ buffer_of pool filled (λ k. 70 + k) (λ k. 1) 4 publisher willing)
buffer_of-lap_example =
    buffer_of-lap pool filled (λ k. 70 + k) (λ k. 1) 4 publisher willing (omega arith) (omega arith)

publisher_life-Balanced_example : Balanced 5 willing 0 (publisher_life pool willing) 0
publisher_life-Balanced_example = publisher_life-Balanced 5 pool willing
