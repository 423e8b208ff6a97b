-- ===== src/Pool.antt =====
-- include/axon/pool.h and src/pool.cpp: the buffer pool, its ring of slots and its accessors. The
-- builds modelled have neither CUDA nor Jetson support.
pub mod Ring
pub mod Alloc
pub mod Ledger
pub mod Lifecycle
pub mod Created
pub mod Shared
pub mod Access
use axon_sdk_for_physical_ai.Common.{
  ℕ, zero, suc, ◌+◌, ◌-◌, ◌%◌, List, [], ◌∷◌, Bool, true, false, Option, none, some, length, get_or,
  set, if◌then◌else◌, ltb,
}
use axon_sdk_for_physical_ai.Types.{PoolBackend}

-- `TensorPoolConfig`. `v4l2_device` is whether a device is named.
pub record TensorPoolConfig : Type 0 where
  pub n_buffers : ℕ
  pub buffer_size : ℕ
  pub backend : PoolBackend
  pub v4l2_device : Bool

-- `Buffer`. Each one is built with a shared descriptor; `backing_fd` is `none` where the source has -1.
pub record Buffer : Type 0 where
  pub share_fd : ℕ
  pub backing_fd : Option ℕ
  pub device_ptr : ℕ
  pub pitch : ℕ

-- `TensorPool::Impl`.
pub record TensorPool : Type 0 where
  pub cfg : TensorPoolConfig
  pub buffer_size : ℕ
  pub gen : ℕ
  pub buffers : List Buffer
  pub share_fds : List ℕ
  pub in_use : List Bool
  pub ring_head : ℕ
  pub import_blob : List ℕ
  pub v4l2_fd : Option ℕ

-- The loop of `acquire_next`: `fuel` slots are left, the next one `k` after the head.
unfoldable pub scan : ℕ → ℕ → ℕ → ℕ → List Bool → Option ℕ
scan zero n head k in_use = none
scan (suc fuel) n head k in_use =
    let rest = scan fuel n head (k + 1) in_use in
    if get_or in_use ((head + k) % n) false then rest else some ((head + k) % n)

take_slot : TensorPool → ℕ → TensorPool
take_slot p idx = record p {
  in_use = set p.in_use idx true;
  ring_head = (idx + 1) % length p.buffers;
}

-- `none` is the code's -1: the pool is exhausted.
unfoldable pub acquire_next : TensorPool → Option ℕ × TensorPool
unfolding take_slot
acquire_next p = elim (scan (length p.buffers) (length p.buffers) p.ring_head 0 p.in_use) [
  | none ↦ (none, p)
  | some idx ↦ (some idx, take_slot p idx)
]

-- An index out of range is ignored.
unfoldable pub release : ℕ → TensorPool → TensorPool
release idx p =
    if ltb idx (length p.in_use) then record p { in_use = set p.in_use idx false } else p
