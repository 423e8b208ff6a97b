-- ===== src/Examples/Filters.antt =====
-- A frame of the depth-filter demo, in a buffer that was full of zeros.
use axon_sdk_for_physical_ai.Common.{◌≡◌, refl}
use axon_sdk_for_physical_ai.Filter.{
  row_pixels, Pixels, check_frame, produce_frame, base_depth, is_hole, filled,
}
use axon_sdk_for_physical_ai.Filter.Filled.{check_frame-produce_frame}

abbrev zeros : Pixels
zeros a = 0

check_frame-produce_frame_example : check_frame row_pixels 70000 (produce_frame 70000 zeros) ≡ 0
check_frame-produce_frame_example = check_frame-produce_frame 70000 zeros

-- The pixel at row 1 and column 6 is a hole, and gets the depth of its left neighbour.
hole_filled : filled 1 6 (base_depth 1 5) ≡ 1060
unfolding filled is_hole base_depth
hole_filled = refl
