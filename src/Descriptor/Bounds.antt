-- ===== src/Descriptor/Bounds.antt =====
-- What an accepted descriptor means for the bytes that a consumer touches.
use axon_sdk_for_physical_ai.Common.{
  ℕ, ◌+◌, ◌*◌, ◌-◌, ◌^◌, ◌≤◌, ◌<◌, ◌≡◌, ◌≢◌, ◌↔◌, none, arith, get_or, min, wrap64,
}
use axon_sdk_for_physical_ai.Types.{DType, dtype_size, max_rank}
use axon_sdk_for_physical_ai.Descriptor.{
  TensorDescriptor, packed_row, image_bytes, descriptor_error, row_stride_bytes,
}
use axon_sdk_for_physical_ai.Descriptor.Products.{product, mul_dims-one, wrap-mul}
use axon_sdk_for_physical_ai.Descriptor.Errors.{IsPublishable, error-none→publishable}

-- The rows of the image and the bytes of one row, as numbers that do not wrap.
unfoldable pub rows : TensorDescriptor → ℕ
unfolding product
rows d = product (min (d.rank - 1) max_rank) d.shape

unfoldable pub row_bytes : TensorDescriptor → ℕ
row_bytes d = get_or d.shape (d.rank - 1) 0 * dtype_size d.dtype

dtype_size-le : (t : DType) → dtype_size t ≤ 8
unfolding dtype_size
dtype_size-le t = ground arith

-- A dimension is a uint32_t, so a packed row does not wrap.
pub packed_row-eq-row_bytes :
    (d : TensorDescriptor) → get_or d.shape (d.rank - 1) 0 < 2 ^ 32 → packed_row d ≡ row_bytes d
unfolding packed_row row_bytes
packed_row-eq-row_bytes d h = omega (arith, small)
  where
    small : get_or d.shape (d.rank - 1) 0 * dtype_size d.dtype ≤ 2 ^ 32 * 8
    small = grind (arith, dtype_size-le d.dtype)

-- With a pitch set, the footprint is `rows * row_pitch`, modulo 2 ^ 64.
pub image_bytes-wraps :
    (d : TensorDescriptor)
    → 0 < d.rank
    → d.row_pitch ≢ 0
    → image_bytes d ≡ wrap64 (rows d * d.row_pitch)
unfolding image_bytes row_stride_bytes rows
image_bytes-wraps d r p = ground (
  arith,
  mul_dims-one (min (d.rank - 1) max_rank) d.shape,
  wrap-mul (product (min (d.rank - 1) max_rank) d.shape) d.row_pitch,
)

last_byte : (n p r c w : ℕ) → r < n → c < w → w ≤ p → r * p + c < n * p
last_byte n p r c w hr hc hw = grind arith

pitched_cover :
    (d : TensorDescriptor) (b : ℕ)
    → IsPublishable d b
    → d.row_pitch ≢ 0
    → (packed_row d ≤ d.row_pitch) × (wrap64 (rows d * d.row_pitch) ≤ d.size)
pitched_cover d b ok p = ground (arith, image_bytes-wraps d ok.formed.ranked p)

-- In an image that `descriptor_error` accepts, with a row pitch set, each dimension a uint32_t and a
-- footprint (rows times pitch) below 2 ^ 64, byte `c` of the packed part of row `r` lies within the
-- descriptor's `size` bytes and within the buffer.
pub accepted_rows_in_buffer :
    (d : TensorDescriptor) (b r c : ℕ)
    → descriptor_error d b ≡ none
    → d.row_pitch ≢ 0
    → get_or d.shape (d.rank - 1) 0 < 2 ^ 32
    → rows d * d.row_pitch < 2 ^ 64
    → r < rows d
    → c < row_bytes d
    → (r * d.row_pitch + c < d.size) × (d.offset + (r * d.row_pitch + c) < b)
accepted_rows_in_buffer d b r c e p w f hr hc =
    let ok = error-none→publishable d b e in
    let cover = pitched_cover d b ok p in
    let narrow : row_bytes d ≤ d.row_pitch = omega (arith, packed_row-eq-row_bytes d w) in
    let last = last_byte (rows d) d.row_pitch r c (row_bytes d) hr hc narrow in
    (omega arith, omega arith)

-- An accepted descriptor with a row pitch, whose `size` is a uint64_t, covers its footprint exactly
-- when the footprint does not wrap: a footprint of 2 ^ 64 or more can pass with a `size` below it.
pub accepted_covers_iff :
    (d : TensorDescriptor) (b : ℕ)
    → descriptor_error d b ≡ none
    → d.row_pitch ≢ 0
    → d.size < 2 ^ 64
    → (rows d * d.row_pitch ≤ d.size) ↔ (rows d * d.row_pitch < 2 ^ 64)
accepted_covers_iff d b e p s =
    let ok = error-none→publishable d b e in
    let cover = pitched_cover d b ok p in (λ h. omega arith, λ h. omega arith)
