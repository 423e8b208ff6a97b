-- ===== src/Types.antt =====
-- include/axon/types.h: the enumerations, element sizes, shapes and handles that all parts share.
use axon_sdk_for_physical_ai.Common.{ℕ, zero, suc, ◌*◌, List, [], ◌∷◌, wrap64}

-- `enum class DType : uint8_t`. A byte read from shared memory or set by a cast may name none of
-- the enumerators: `unnamed b`.
pub data DType : Type 0 where
  u8 u16 i16 f16 bf16 f32 f64 i32 i64 : DType
  unnamed : ℕ → DType

unfoldable pub dtype_size : DType → ℕ
dtype_size u8 = 1
dtype_size u16 = 2
dtype_size i16 = 2
dtype_size f16 = 2
dtype_size bf16 = 2
dtype_size f32 = 4
dtype_size i32 = 4
dtype_size f64 = 8
dtype_size i64 = 8
dtype_size (unnamed b) = 0

-- Of these four too a byte from shared memory may name no enumerator.
pub data SyncFenceKind : Type 0 where
  no_fence dma_resv_implicit sync_file_via_sidecar : SyncFenceKind
  unnamed_kind : ℕ → SyncFenceKind

pub data SampleUnits : Type 0 where
  unknown_units raw millimeters meters disparity : SampleUnits
  unnamed_units : ℕ → SampleUnits

pub data CaptureClock : Type 0 where
  unknown_clock monotonic_raw v4l2_hardware : CaptureClock
  unnamed_clock : ℕ → CaptureClock

pub data TensorLayout : Type 0 where
  unknown_layout hw hwc chw : TensorLayout
  unnamed_layout : ℕ → TensorLayout

pub data PoolBackend : Type 0 where
  v4l2 udmabuf custom accelerator nv_buf_surface : PoolBackend

-- The byte that a backend is sent as.
unfoldable pub backend_byte : PoolBackend → ℕ
backend_byte v4l2 = 0
backend_byte udmabuf = 1
backend_byte custom = 2
backend_byte accelerator = 3
backend_byte nv_buf_surface = 4

pub data FallbackPolicy : Type 0 where
  last_known_good zero_command user_callback abort_loop : FallbackPolicy

abbrev pub max_rank : ℕ
max_rank = 8

-- `Shape`: `dims` is an array of `max_rank` numbers.
pub record Shape : Type 0 where
  pub dims : List ℕ
  pub rank : ℕ

-- The loop `n *= dims[i]` on uint64_t, with the rounds left as fuel.
unfoldable pub mul_dims : ℕ → ℕ → List ℕ → ℕ
mul_dims zero n dims = n
mul_dims (suc k) n [] = n
mul_dims (suc k) n (d ∷ dims) = mul_dims k (wrap64 (n * d)) dims

unfoldable pub shape_element_count : Shape → ℕ
shape_element_count s = mul_dims s.rank 1 s.dims

-- `AcceleratorHandle`; an address is a number, and 0 is the null pointer.
pub record AcceleratorHandle : Type 0 where
  pub opaque : ℕ
  pub backend : PoolBackend
  pub size_bytes : ℕ
