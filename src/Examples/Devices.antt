-- ===== src/Examples/Devices.antt =====
-- A subscriber that imports surfaces.
use axon_sdk_for_physical_ai.Common.{ℕ, refl, [], ◌∷◌, true}
use axon_sdk_for_physical_ai.Os.{Os, done, surface}
use axon_sdk_for_physical_ai.Os.Ledger.{Balanced, count}
use axon_sdk_for_physical_ai.Os.Objects.{Settled}
use axon_sdk_for_physical_ai.Sidecar.Client.{Message}
use axon_sdk_for_physical_ai.NvBuffer.{SurfaceInfo}
use axon_sdk_for_physical_ai.Subscriber.Devices.Life.{
  subscriber_life, handshakes_lost, subscriber_life-Settled,
}
use axon_sdk_for_physical_ai.Examples.Pools.{willing}
use axon_sdk_for_physical_ai.Examples.Publishers.{server}

-- Three surfaces, with eight bytes of parameters each.
abbrev surface_inbox : ℕ → Message
surface_inbox n = record {
  fds = 30 ∷ 31 ∷ 32 ∷ [];
  header = record server.header { backend = 4; ext_len = 24 };
  token = 0;
}

-- Each call succeeds, with 24.
abbrev all_24 : Os
all_24 = record willing { reply = λ n. done 24 }

abbrev surface_of : ℕ → ℕ → SurfaceInfo
surface_of x n = record { desc = n; data_size = 153600; pitch = 640 }

subscriber_life-Settled_example :
    Settled
      (surface 24)
      all_24
      0
      (subscriber_life surface_of (λ p. true) 8 surface_inbox (λ k. 100) 2 all_24).1
      0
    × Balanced 30 all_24 0
        (subscriber_life surface_of (λ p. true) 8 surface_inbox (λ k. 100) 2 all_24).1
        (count 30 (handshakes_lost surface_of (λ p. true) 8 surface_inbox (λ k. 100) 2 all_24))
subscriber_life-Settled_example =
    subscriber_life-Settled surface_of (λ p. true) 8 surface_inbox (λ k. 100) (surface 24) 30 2
      all_24 (λ x m. refl)
