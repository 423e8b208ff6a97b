-- ===== src/Python/Publish.antt =====
-- python/axon_py.cpp: `TensorPublisher.publish` and `publish_device`. Memory is that of the process.
use axon_sdk_for_physical_ai.Bytes.{Memory}
use axon_sdk_for_physical_ai.Common.{
  ℕ, ◌+◌, ◌-◌, ◌*◌, List, [], ◌∷◌, Bool, true, false, Option, none, some, if◌then◌else◌, Errno, ltb,
  leb, ◌&&◌, length, map, wrap32, wrap64,
}
use axon_sdk_for_physical_ai.Types.{DType, dtype_size, max_rank, mul_dims, no_fence}
use axon_sdk_for_physical_ai.Descriptor.{TensorDescriptor}
use axon_sdk_for_physical_ai.Os.{M, ◌>>=◌, pure, get_errno}
use axon_sdk_for_physical_ai.Pool.{TensorPool}
use axon_sdk_for_physical_ai.Publisher.{
  TensorPublisher, AcquiredDescriptor, acquire_descriptor, publish,
}
use axon_sdk_for_physical_ai.Python.{
  PyError, publish_error, no_writable_buffer, array_too_large, bad_rank,
}

-- `memcpy` of `n` bytes.
unfoldable pub memcpy : ℕ → ℕ → ℕ → Memory → Memory
memcpy to from n mem a = if leb to a && ltb a (to + n) then mem (from + (a - to)) else mem a

-- `py::buffer_info` of an array; `ndim` is the length of `shape`.
pub record BufferInfo : Type 0 where
  pub ptr : ℕ
  pub itemsize : ℕ
  pub size : ℕ
  pub shape : List ℕ

-- The index and the host view of a buffer that can be written.
unfoldable pub writable : AcquiredDescriptor → Option (ℕ × ℕ)
writable a = elim a.buffer_index [
  | none ↦ none
  | some i ↦ elim a.host_view [ none ↦ none | some view ↦ some (i, view) ]
]

unfoldable pub nbytes : BufferInfo → ℕ
nbytes info = wrap64 (info.size * info.itemsize)

-- The loop that sets `desc->shape[i]` for each `i` below the rank.
unfoldable pub set_dims : List ℕ → List ℕ → List ℕ
set_dims [] dims = dims
set_dims (d ∷ shape) [] = []
set_dims (d ∷ shape) (x ∷ dims) = d ∷ set_dims shape dims

unfoldable pub stage_array : BufferInfo → DType → TensorDescriptor → TensorDescriptor
stage_array info t d = record d {
  rank = length info.shape;
  shape = set_dims (map wrap32 info.shape) d.shape;
  dtype = t;
  offset = 0;
  size = nbytes info;
  sync_fence_kind = no_fence;
}

unfoldable pub stage_device : List ℕ → DType → TensorDescriptor → TensorDescriptor
stage_device shape t d = record d {
  rank = length shape;
  shape = set_dims shape d.shape;
  dtype = t;
  offset = 0;
  size = wrap64 (mul_dims (length shape) 1 shape * dtype_size t);
  sync_fence_kind = no_fence;
}

unfoldable pub is_rank : ℕ → Bool
is_rank n = leb 1 n && leb n max_rank

-- The exception, if there is one.
unfoldable pub outcome : Bool → Errno → Option PyError
outcome true e = none
outcome false e = some (publish_error e)

-- `pub.publish(std::move(a))` and what follows it.
unfoldable pub publish_staged :
    ℕ → TensorPool → ℕ → ℕ → TensorPublisher → M (Option PyError × TensorPublisher)
publish_staged fuel pool now i p = do
  r ← publish fuel pool now (some i) none p
  e ← get_errno
  pure (outcome r.0 e, r.1)

-- The lambda of `publish`: the array is copied before its rank is looked at.
unfoldable pub publish_array :
    ℕ
    → TensorPool
    → ℕ
    → BufferInfo
    → DType
    → TensorPublisher
    → Memory
    → M (Option PyError × (TensorPublisher × Memory))
publish_array fuel pool now info t p mem =
    let (a, q) = acquire_descriptor pool p in
    elim (writable a) [
      | none ↦ pure (some no_writable_buffer, (q, mem))
      | some (i, view) ↦
          if ltb a.accel_handle.size_bytes (nbytes info)
          then pure (some array_too_large, (q, mem))
          else let copied = memcpy view info.ptr (nbytes info) mem in
            if is_rank (length info.shape)
            then (do
              r ←
                  publish_staged fuel pool now i
                    (record q { staging = stage_array info t q.staging })
              pure (r.0, (r.1, copied)))
            else pure (some bad_rank, (q, copied))
    ]

-- The lambda of `publish_device`, for a buffer that `acquire` gave.
unfoldable pub publish_device :
    ℕ
    → TensorPool
    → ℕ
    → AcquiredDescriptor
    → List ℕ
    → DType
    → TensorPublisher
    → M (Option PyError × TensorPublisher)
publish_device fuel pool now a shape t p = elim a.buffer_index [
  | none ↦ pure (some no_writable_buffer, p)
  | some i ↦
      if is_rank (length shape)
      then publish_staged fuel pool now i (record p { staging = stage_device shape t p.staging })
      else pure (some bad_rank, p)
]
