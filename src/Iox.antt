-- ===== src/Iox.antt =====
-- src/metadata_channel_iox2.cpp: the metadata channel over iceoryx2, and the choice of a backend in
-- src/metadata_channel.cpp. What the library's subscriber receives, and whether the library makes its
-- objects, are parameters.
pub mod Newest
pub mod Delivered
use axon_sdk_for_physical_ai.Common.{
  ℕ, zero, suc, ◌+◌, ℤ, pos, negsuc, List, [], ◌∷◌, ◌++◌, map, Bool, true, false, Option, none,
  some, if◌then◌else◌, leb, ◌==◌, ◌&&◌, not,
}
use axon_sdk_for_physical_ai.Os.{M, ◌>>=◌, ◌>>◌, pure, call, device_query}
use axon_sdk_for_physical_ai.Descriptor.{TensorDescriptor, clear_descriptor}
use axon_sdk_for_physical_ai.Publisher.Channel.{create_channel, attach_loop}

-- `Iceoryx2Channel`: whether it has the publisher and the subscriber, and the cached sample.
pub record Iceoryx2Channel : Type 0 where
  pub has_publisher : Bool
  pub has_subscriber : Bool
  pub last : TensorDescriptor
  pub have : Bool

-- What `subscriber_->receive()` returns: a sample, none, or an error.
pub data Received : Type 0 where
  sample : TensorDescriptor → Received
  nothing broken : Received

-- `publish`: what it hands to `send`, if the library loans a sample.
unfoldable pub publish : Iceoryx2Channel → TensorDescriptor → Bool → Option TensorDescriptor
publish c desc loaned = if c.has_publisher && loaned then some desc else none

-- The loop of `read_latest`: the channel, and what has not been received yet.
unfoldable pub drain : Iceoryx2Channel → List Received → Iceoryx2Channel × List Received
drain c [] = (c, [])
drain c (sample d ∷ rest) = drain (record c { last = d; have = true }) rest
drain c (nothing ∷ rest) = (c, rest)
drain c (broken ∷ rest) = (c, rest)

-- What a call returns from the cache.
abbrev pub cached : Iceoryx2Channel → Option TensorDescriptor
cached c = if c.have then some c.last else none

-- `read_latest`; it reports no retries.
unfoldable pub read_latest :
    Iceoryx2Channel → List Received → Option TensorDescriptor × (Iceoryx2Channel × List Received)
read_latest c queue =
    if not c.has_subscriber
    then (none, (c, queue))
    else (let (d, rest) = drain c queue in (cached d, (d, rest)))

-- `has_data`.
unfoldable pub has_data : Iceoryx2Channel → Bool
has_data c = c.have

abbrev pub new_channel : Bool → Bool → Iceoryx2Channel
new_channel p s = record {
  has_publisher = p;
  has_subscriber = s;
  last = clear_descriptor;
  have = false;
}

-- A node, the service and a port: each one may throw.
unfoldable pub open_port : M Bool
open_port = do
  node ← device_query
  elim node [
    | none ↦ pure false
    | some a ↦ do
      service ← device_query
      elim service [
        | none ↦ pure false
        | some b ↦ do port ← device_query; pure (elim port [ none ↦ false | some c ↦ true ])
      ]
  ]

unfoldable pub make_iceoryx2_publisher : M (Option Iceoryx2Channel)
make_iceoryx2_publisher = do
  made ← open_port
  pure (if made then some (new_channel true false) else none)

abbrev pub step : ℕ
step = 20

-- `waited >= timeout_ms`.
unfoldable pub waited_enough : ℕ → ℤ → Bool
waited_enough waited (pos timeout_ms) = leb timeout_ms waited
waited_enough waited (negsuc n) = true

-- The loop of `make_iceoryx2_subscriber`; with no fuel left it has not returned.
unfoldable pub subscriber_loop : ℕ → ℤ → ℕ → M (Option (Option Iceoryx2Channel))
subscriber_loop zero timeout_ms waited = pure none
subscriber_loop (suc fuel) timeout_ms waited = do
  made ← open_port
  elim made [
    | true ↦ pure (some (some (new_channel false true)))
    | false ↦ elim (waited_enough waited timeout_ms) [
      | true ↦ pure (some none)
      | false ↦ do _ ← call; subscriber_loop fuel timeout_ms (waited + step)
    ]
  ]

unfoldable pub make_iceoryx2_subscriber : ℕ → ℤ → M (Option (Option Iceoryx2Channel))
make_iceoryx2_subscriber fuel timeout_ms = subscriber_loop fuel timeout_ms 0

pub data Backend : Type 0 where
  seqlock iceoryx2 : Backend

-- "seqlock".
abbrev pub seqlock_text : List ℕ
seqlock_text = 115 ∷ 101 ∷ 113 ∷ 108 ∷ 111 ∷ 99 ∷ 107 ∷ []

-- `strcmp(...) == 0`.
unfoldable pub same_text : List ℕ → List ℕ → Bool
same_text [] [] = true
same_text [] (d ∷ t) = false
same_text (c ∷ s) [] = false
same_text (c ∷ s) (d ∷ t) = (c == d) && same_text s t

-- `selected_backend`, by the value of AXON_METADATA_BACKEND, if it is set.
unfoldable pub selected_backend : Option (List ℕ) → Backend
selected_backend none = iceoryx2
selected_backend (some env) = if same_text env seqlock_text then seqlock else iceoryx2

-- A `MetadataChannel`: one over iceoryx2, or the shared slot.
pub data MetadataChannel : Type 0 where
  over_iceoryx2 : Iceoryx2Channel → MetadataChannel
  over_slot : MetadataChannel

unfoldable pub slot_if : M Bool → M (Option MetadataChannel)
slot_if made = do ok ← made; pure (if ok then some over_slot else none)

-- `MetadataChannel::create_publisher`, in a build with iceoryx2.
unfoldable pub create_publisher : Option (List ℕ) → M (Option MetadataChannel)
create_publisher env = elim (selected_backend env) [
  | seqlock ↦ slot_if create_channel
  | iceoryx2 ↦ do
    c ← make_iceoryx2_publisher
    elim c [ none ↦ slot_if create_channel | some x ↦ pure (some (over_iceoryx2 x)) ]
]

-- `MetadataChannel::create_subscriber`; `pauses` is how often the slot's own loop pauses.
unfoldable pub create_subscriber : ℕ → Option (List ℕ) → ℤ → ℕ → M (Option (Option MetadataChannel))
create_subscriber fuel env timeout_ms pauses = elim (selected_backend env) [
  | seqlock ↦ do c ← slot_if (attach_loop pauses); pure (some c)
  | iceoryx2 ↦ do
    made ← make_iceoryx2_subscriber fuel timeout_ms
    elim made [
      | none ↦ pure none
      | some none ↦ do c ← slot_if (attach_loop pauses); pure (some c)
      | some (some x) ↦ pure (some (some (over_iceoryx2 x)))
    ]
]
