-- ===== src/Descriptor.antt =====
-- include/axon/tensor_descriptor.h and include/axon/detail/descriptor_util.h: the descriptor that
-- crosses the metadata plane, and the routines that size and check it. A float field is its 32-bit
-- pattern, since the code only copies it.

pub mod Products
pub mod Errors
pub mod Bounds
use axon_sdk_for_physical_ai.Common.{
  ℕ, ◌-◌, ◌*◌, List, Bool, true, false, Option, none, some, min, ltb, ◌==◌, if◌then◌else◌, get_or,
  replicate, wrap64, Errno, e_inval, e_msgsize, ◌||◌, not, ◌&&◌,
}
use axon_sdk_for_physical_ai.Types.{
  DType, u8, dtype_size, SyncFenceKind, no_fence, SampleUnits, unknown_units, CaptureClock,
  unknown_clock, TensorLayout, unknown_layout, max_rank, mul_dims,
}

-- `shape` has `max_rank` entries; `reserved` padding is left out.
pub record TensorDescriptor : Type 0 where
  pub bo_handle : ℕ
  pub seqno : ℕ
  pub pool_generation : ℕ
  pub capture_ts_ns : ℕ
  pub producer_publish_ts_ns : ℕ
  pub shape : List ℕ
  pub offset : ℕ
  pub size : ℕ
  pub sync_fence_token : ℕ
  pub row_pitch : ℕ
  pub depth_scale : ℕ
  pub invalid_value : ℕ
  pub intr_fx : ℕ
  pub intr_fy : ℕ
  pub intr_cx : ℕ
  pub intr_cy : ℕ
  pub intr_ref_width : ℕ
  pub intr_ref_height : ℕ
  pub rank : ℕ
  pub dtype : DType
  pub sync_fence_kind : SyncFenceKind
  pub sample_units : SampleUnits
  pub capture_clock : CaptureClock
  pub layout : TensorLayout

abbrev pub wire_version : ℕ
wire_version = 4

-- `TensorDescriptor{}`, which is also what `memset` to 0 leaves.
unfoldable pub clear_descriptor : TensorDescriptor
clear_descriptor = record {
  bo_handle = 0;
  seqno = 0;
  pool_generation = 0;
  capture_ts_ns = 0;
  producer_publish_ts_ns = 0;
  shape = replicate 8 0;
  offset = 0;
  size = 0;
  sync_fence_token = 0;
  row_pitch = 0;
  depth_scale = 0;
  invalid_value = 0;
  intr_fx = 0;
  intr_fy = 0;
  intr_cx = 0;
  intr_cy = 0;
  intr_ref_width = 0;
  intr_ref_height = 0;
  rank = 0;
  dtype = u8;
  sync_fence_kind = no_fence;
  sample_units = unknown_units;
  capture_clock = unknown_clock;
  layout = unknown_layout;
}

-- `for (i = 0; i < rank && i < kMaxRank; ++i) n *= shape[i]`.
unfoldable pub element_count : TensorDescriptor → ℕ
element_count d = mul_dims (min d.rank max_rank) 1 d.shape

unfoldable pub implied_bytes : TensorDescriptor → ℕ
implied_bytes d = wrap64 (element_count d * dtype_size d.dtype)

-- `shape[rank - 1]` times the element size, both widened to 64 bits.
unfoldable pub packed_row : TensorDescriptor → ℕ
packed_row d = wrap64 (get_or d.shape (d.rank - 1) 0 * dtype_size d.dtype)

unfoldable pub row_stride_bytes : TensorDescriptor → ℕ
row_stride_bytes d =
    if not (d.row_pitch == 0) then d.row_pitch else if ltb 0 d.rank then packed_row d else 0

-- The rounds of `for (i = 0; i + 1 < rank && i < kMaxRank; ++i)` are `min (rank - 1) kMaxRank`.
unfoldable pub image_bytes : TensorDescriptor → ℕ
image_bytes d =
    if d.rank == 0
    then 0
    else wrap64 (mul_dims (min (d.rank - 1) max_rank) 1 d.shape * row_stride_bytes d)

-- The last checks of `descriptor_error`, made where a row pitch is set.
unfoldable pub pitch_error : TensorDescriptor → Option Errno
pitch_error d =
    if ltb d.row_pitch (packed_row d)
    then some e_inval
    else if ltb d.size (image_bytes d)
    then some e_inval
    else none

-- `none` is the code's 0.
unfoldable pub descriptor_error : TensorDescriptor → ℕ → Option Errno
descriptor_error d buffer_size =
    if d.rank == 0 || ltb max_rank d.rank
    then some e_inval
    else if dtype_size d.dtype == 0
    then some e_inval
    else if d.size == 0
    then some e_inval
    else if ltb buffer_size d.offset
    then some e_msgsize
    else if ltb (buffer_size - d.offset) d.size
    then some e_msgsize
    else if not (d.row_pitch == 0) && ltb 0 d.rank
    then pitch_error d
    else none

unfoldable pub descriptor_is_valid : TensorDescriptor → ℕ → Bool
descriptor_is_valid d buffer_size = elim (descriptor_error d buffer_size) [
  | none ↦ true
  | some e ↦ false
]
