-- ===== src/Subscriber/Fences.antt =====
-- src/subscriber.cpp: the ring of sync-fence descriptors that `drain_fences` fills and `latest_view`
-- looks up.
pub mod Window
use axon_sdk_for_physical_ai.Common.{
  ℕ, ◌+◌, ◌%◌, List, [], ◌∷◌, Option, none, some, get_or, set, replicate, if◌then◌else◌, ◌==◌,
}
use axon_sdk_for_physical_ai.Os.{M, ◌>>=◌, ◌>>◌, pure, close_option}

-- `FenceSlot`; `fd` is `none` where the source has -1.
pub record FenceSlot : Type 0 where
  pub token : ℕ
  pub fd : Option ℕ

-- `kFenceRing`.
abbrev pub fence_ring : ℕ
fence_ring = 16

-- The fields `fences` and `fence_next`.
pub record FenceRing : Type 0 where
  pub fences : List FenceSlot
  pub fence_next : ℕ

abbrev pub empty_slot : FenceSlot
empty_slot = record { token = 0; fd = none }

abbrev pub empty_ring : FenceRing
empty_ring = record { fences = replicate fence_ring empty_slot; fence_next = 0 }

abbrev pub full_slot : ℕ → ℕ → FenceSlot
full_slot token fd = record { token = token; fd = some fd }

-- The descriptor that the ring wraps onto is closed.
unfoldable pub store_fence : ℕ → ℕ → FenceRing → M FenceRing
store_fence token fd r = do
  close_option (get_or r.fences r.fence_next empty_slot).fd
  pure (record {
    fences = set r.fences r.fence_next (full_slot token fd);
    fence_next = (r.fence_next + 1) % fence_ring;
  })

-- The loop of `lookup_fence`.
unfoldable pub find_slot : ℕ → List FenceSlot → Option ℕ
find_slot token [] = none
find_slot token (s ∷ rest) = elim s.fd [
  | none ↦ find_slot token rest
  | some fd ↦ let later = find_slot token rest in if s.token == token then some fd else later
]

unfoldable pub lookup_fence : ℕ → FenceRing → Option ℕ
lookup_fence token r = find_slot token r.fences

-- The loop of `close_fences`.
unfoldable pub close_slots : List FenceSlot → M (List FenceSlot)
close_slots [] = pure []
close_slots (s ∷ rest) = do
  close_option s.fd
  closed ← close_slots rest
  pure (record s { fd = none } ∷ closed)

unfoldable pub close_fences : FenceRing → M FenceRing
close_fences r = do closed ← close_slots r.fences; pure (record { fences = closed; fence_next = 0 })

-- Fences stored one after the other, the newest first in the list.
unfoldable pub store_all : List (ℕ × ℕ) → FenceRing → M FenceRing
store_all [] r = pure r
store_all ((token, fd) ∷ older) r = do q ← store_all older r; store_fence token fd q
