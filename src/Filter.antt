-- ===== src/Filter.antt =====
-- examples/depth_filter/depth_filter_demo.cpp: the frame that the producer fills in, and the checks of
-- the consumer. A frame is its 16-bit pixels, by half of their byte offset.
pub mod Filled
use axon_sdk_for_physical_ai.Common.{
  ℕ, zero, suc, ◌+◌, ◌-◌, ◌*◌, ◌%◌, List, [], ◌∷◌, Bool, true, false, length, get_or, if◌then◌else◌,
  ltb, leb, ◌==◌, ◌&&◌, ◌||◌, not, wrap16,
}

abbrev pub width : ℕ
width = 316

abbrev pub height : ℕ
height = 240

-- Half of `ROW_PITCH`.
abbrev pub row_pixels : ℕ
row_pixels = 320

abbrev pub Pixels : Type 0
Pixels = ℕ → ℕ

unfoldable pub is_hole : ℕ → ℕ → Bool
is_hole r c = (not (r == 0) || not (c == 0)) && ((r * width + c) % 7 == 0)

unfoldable pub base_depth : ℕ → ℕ → ℕ
base_depth r c = wrap16 (1000 + (r + c) * 10)

-- A pixel after the filter, where `last` is the last valid one of its row.
unfoldable pub filled : ℕ → ℕ → ℕ → ℕ
filled r c last =
    let val = if is_hole r c then 0 else base_depth r c in if val == 0 then last else val

-- The loop over the columns, from column `c` on.
unfoldable pub fill_row : ℕ → ℕ → ℕ → ℕ → List ℕ
fill_row zero r c last = []
fill_row (suc left) r c last = let v = filled r c last in v ∷ fill_row left r (c + 1) v

-- The `memcpy` of a row.
unfoldable pub write_row : ℕ → List ℕ → Pixels → Pixels
write_row r row px a =
    if leb (r * row_pixels) a && ltb a (r * row_pixels + length row)
    then get_or row (a - r * row_pixels) 0
    else px a

-- The loop over the rows, from row `r` on.
unfoldable pub write_rows : ℕ → ℕ → Pixels → Pixels
write_rows zero r px = px
write_rows (suc left) r px =
    write_rows left (r + 1) (write_row r (fill_row width r 0 (base_depth r 0)) px)

-- The frame with the sequence number in its first pixel.
unfoldable pub produce_frame : ℕ → Pixels → Pixels
produce_frame seqno px a = if a == 0 then wrap16 seqno else write_rows height 0 px a

-- The consumer's loops over the columns and over the rows, `pitch` half of the view's `row_pitch`.
unfoldable pub row_holes : ℕ → ℕ → ℕ → ℕ → Pixels → ℕ
row_holes pitch zero r c px = 0
row_holes pitch (suc left) r c px =
    let rest = row_holes pitch left r (c + 1) px in
    if not ((r == 0) && (c == 0)) && (px (r * pitch + c) == 0) then rest + 1 else rest

unfoldable pub count_holes : ℕ → ℕ → ℕ → Pixels → ℕ
count_holes pitch zero r px = 0
count_holes pitch (suc left) r px = row_holes pitch width r 0 px + count_holes pitch left (r + 1) px

-- The exit code that checks (a) and (b) give, 0 if the consumer goes on.
unfoldable pub check_frame : ℕ → ℕ → Pixels → ℕ
check_frame pitch seqno px =
    if not (px 0 == wrap16 seqno)
    then 13
    else if not (count_holes pitch height 0 px == 0)
    then 14
    else 0
