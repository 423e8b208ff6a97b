-- ===== src/Examples/Handshakes.antt =====
-- A handshake that brings three buffers to a subscriber.
use axon_sdk_for_physical_ai.Common.{ℕ, ◌≡◌, ◌+◌, refl, [], ◌∷◌, some, arith}
use axon_sdk_for_physical_ai.Os.{close_option, call, Os, done}
use axon_sdk_for_physical_ai.Sidecar.Client.{
  finish_handshake, recvmsg, recv_fds, Message, recv_pool_handshake, read_exact,
}
use axon_sdk_for_physical_ai.Subscriber.Attach.{wait_handshake}
use axon_sdk_for_physical_ai.Subscriber.View.{WellAttached}
use axon_sdk_for_physical_ai.Subscriber.Reattach.{wait_handshake-WellAttached}
use axon_sdk_for_physical_ai.Examples.Pools.{willing}
use axon_sdk_for_physical_ai.Examples.Publishers.{server}
use axon_sdk_for_physical_ai.Examples.Subscribers.{subscriber}
use axon_sdk_for_physical_ai.Subscriber.Fences.{empty_ring, store_fence}
use axon_sdk_for_physical_ai.Subscriber.Drain.{poll_sync_fences, next_message, peek_tag, fence_fd}

-- Each call reads 24 bytes.
abbrev whole : Os
whole = record willing { reply = λ n. done 24 }

abbrev inbox : ℕ → Message
inbox n = record { fds = 30 ∷ 31 ∷ 32 ∷ []; header = server.header; token = 0 }

arrives : (recv_pool_handshake inbox whole).0 ≡ some (inbox 1)
unfolding recv_pool_handshake recv_fds recvmsg call finish_handshake read_exact
arrives = refl

subscriber-WellAttached : WellAttached subscriber
subscriber-WellAttached = λ e. absurd (ground (arith, e))

wait_handshake-WellAttached_example : WellAttached (wait_handshake inbox 100 subscriber whole).0.1
wait_handshake-WellAttached_example =
    wait_handshake-WellAttached inbox 100 subscriber whole subscriber-WellAttached

-- A fence in each message.
abbrev fence_inbox : ℕ → Message
fence_inbox n = record { fds = (40 + n) ∷ []; header = record server.header { msg = 2 }; token = n }

abbrev fences_come : Os
fences_come = record willing { reply = λ n. done 16 }

two_drained : (poll_sync_fences fence_inbox 2 0 empty_ring fences_come).0.0 ≡ 2
unfolding poll_sync_fences next_message peek_tag recv_fds recvmsg call fence_fd store_fence
    close_option
two_drained = refl
