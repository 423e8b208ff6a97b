-- ===== src/Examples/Descriptors.antt =====
-- The padded 16-bit depth frame of tests/test_descriptor.cpp, and a descriptor whose footprint wraps.
use axon_sdk_for_physical_ai.Common.{
  ◌+◌, ◌*◌, ◌^◌, ◌≤◌, ◌<◌, ◌≡◌, ◌↔◌, refl, [], ◌∷◌, none, some, arith, e_inval,
}
use axon_sdk_for_physical_ai.Types.{u8, u16, dtype_size, mul_dims}
use axon_sdk_for_physical_ai.Descriptor.{
  TensorDescriptor, clear_descriptor, element_count, implied_bytes, row_stride_bytes, image_bytes,
  packed_row, descriptor_error, pitch_error,
}
use axon_sdk_for_physical_ai.Descriptor.Errors.{IsPublishable, descriptor_error-none_iff}
use axon_sdk_for_physical_ai.Descriptor.Bounds.{
  rows, row_bytes, accepted_rows_in_buffer, accepted_covers_iff,
}

abbrev pub depth_frame : TensorDescriptor
unfolding clear_descriptor
depth_frame = record clear_descriptor {
  rank = 2;
  shape = 240 ∷ 316 ∷ 0 ∷ 0 ∷ 0 ∷ 0 ∷ 0 ∷ 0 ∷ [];
  dtype = u16;
  row_pitch = 640;
  size = 153600;
}

sizes :
    (row_stride_bytes depth_frame ≡ 640)
    × (image_bytes depth_frame ≡ 153600)
    × (implied_bytes depth_frame ≡ 151680)
unfolding row_stride_bytes image_bytes implied_bytes element_count packed_row mul_dims dtype_size
    clear_descriptor
sizes = (refl, refl, refl)

too_narrow : descriptor_error (record depth_frame { row_pitch = 600 }) 153600 ≡ some e_inval
unfolding descriptor_error pitch_error packed_row dtype_size clear_descriptor
too_narrow = refl

pub depth_accepted : descriptor_error depth_frame 153600 ≡ none
unfolding descriptor_error pitch_error row_stride_bytes image_bytes packed_row mul_dims dtype_size
    clear_descriptor
depth_accepted = refl

descriptor_error-none_iff_example :
    (descriptor_error depth_frame 153600 ≡ none) ↔ IsPublishable depth_frame 153600
descriptor_error-none_iff_example = descriptor_error-none_iff depth_frame 153600

-- The last sample of the last row.
accepted_rows_in_buffer_example :
    (239 * depth_frame.row_pitch + 631 < depth_frame.size)
    × (depth_frame.offset + (239 * depth_frame.row_pitch + 631) < 153600)
unfolding clear_descriptor rows row_bytes dtype_size
accepted_rows_in_buffer_example =
    accepted_rows_in_buffer depth_frame 153600 239 631 depth_accepted (omega arith) (omega arith)
      (omega arith) (omega arith) (omega arith)

-- 2 ^ 31 by 2 ^ 31 by 4 rows: the product of the rows is 2 ^ 64.
abbrev wrapped_frame : TensorDescriptor
unfolding clear_descriptor
wrapped_frame = record clear_descriptor {
  rank = 4;
  shape = 2147483648 ∷ 2147483648 ∷ 4 ∷ 1 ∷ 0 ∷ 0 ∷ 0 ∷ 0 ∷ [];
  dtype = u8;
  row_pitch = 64;
  size = 64;
}

wrapped_accepted : descriptor_error wrapped_frame 4096 ≡ none
unfolding descriptor_error pitch_error row_stride_bytes image_bytes packed_row mul_dims dtype_size
    clear_descriptor
wrapped_accepted = refl

accepted_covers_iff_example :
    (rows wrapped_frame * wrapped_frame.row_pitch ≤ wrapped_frame.size)
    ↔ (rows wrapped_frame * wrapped_frame.row_pitch < 2 ^ 64)
unfolding clear_descriptor
accepted_covers_iff_example =
    accepted_covers_iff wrapped_frame 4096 wrapped_accepted (omega arith) (omega arith)
