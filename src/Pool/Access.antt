-- ===== src/Pool/Access.antt =====
-- src/pool.cpp: what a pool tells of itself, built without Jetson support.
use axon_sdk_for_physical_ai.Common.{ℕ, List, [], ◌∷◌, none, some, get_elem?}
use axon_sdk_for_physical_ai.Types.{PoolBackend}
use axon_sdk_for_physical_ai.Pool.{TensorPool}

unfoldable pub dma_buf_fds : TensorPool → List ℕ
dma_buf_fds p = p.share_fds

unfoldable pub generation : TensorPool → ℕ
generation p = p.gen

unfoldable pub pool_buffer_size : TensorPool → ℕ
pool_buffer_size p = p.buffer_size

unfoldable pub backend : TensorPool → PoolBackend
backend p = p.cfg.backend

-- 0 is the null pointer.
unfoldable pub device_ptr : TensorPool → ℕ → ℕ
device_ptr p index = elim (get_elem? p.buffers index) [ none ↦ 0 | some b ↦ b.device_ptr ]

unfoldable pub row_pitch : TensorPool → ℕ
row_pitch p = elim p.buffers [ [] ↦ 0 | b ∷ bs ↦ b.pitch ]

unfoldable pub import_params : TensorPool → List ℕ
import_params p = p.import_blob
