-- ===== src/Examples/Bridges.antt =====
-- A consumer of a pool of three buffers.
use axon_sdk_for_physical_ai.Common.{ℕ, [], ◌∷◌}
use axon_sdk_for_physical_ai.Os.{Os, done}
use axon_sdk_for_physical_ai.Os.Ledger.{Balanced, count}
use axon_sdk_for_physical_ai.Sidecar.Client.{Message}
use axon_sdk_for_physical_ai.Bridge.Ledger.{consumer_life, consumer_lost, consumer_life-Balanced}
use axon_sdk_for_physical_ai.Examples.Pools.{willing}
use axon_sdk_for_physical_ai.Examples.Publishers.{server}

abbrev message : ℕ → Message
message n = record { fds = 30 ∷ 31 ∷ 32 ∷ []; header = server.header; token = 0 }

abbrev all_24 : Os
all_24 = record willing { reply = λ n. done 24 }

consumer_life-Balanced_example :
    Balanced 31 all_24 0
      (consumer_life message 100 all_24)
      (count 31 (consumer_lost message 100 all_24))
consumer_life-Balanced_example = consumer_life-Balanced message 31 100 all_24
