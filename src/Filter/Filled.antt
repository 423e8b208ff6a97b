-- ===== src/Filter/Filled.antt =====
-- examples/depth_filter/depth_filter_demo.cpp: a frame that the producer fills in passes the checks.
use axon_sdk_for_physical_ai.Common.{
  ℕ, zero, suc, ◌+◌, ◌-◌, ◌*◌, ◌<◌, ◌≤◌, ◌≡◌, ◌≢◌, refl, sym, ap, ◌∙◌, List, false, length, get_or,
  ◌==◌, ◌&&◌, not, wrap16, arith,
}
use native.Mathlib.Decide.{dec_le}
use axon_sdk_for_physical_ai.Filter.{
  width, height, row_pixels, Pixels, base_depth, filled, fill_row, write_row, write_rows,
  produce_frame, row_holes, count_holes, check_frame,
}

filled-ne-zero : (r c last : ℕ) → last ≢ 0 → filled r c last ≢ 0
unfolding filled
filled-ne-zero r c last ne = ground (arith, ne)

length-fill_row : (k r c last : ℕ) → length (fill_row k r c last) ≡ k
unfolding fill_row
length-fill_row zero r c last = refl
length-fill_row (suc k) r c last = ap suc (length-fill_row k r (c + 1) (filled r c last))

fill_row-ne-zero : (k r c last j : ℕ) → last ≢ 0 → j < k → get_or (fill_row k r c last) j 0 ≢ 0
unfolding fill_row
fill_row-ne-zero zero r c last j ne lt = elim lt [ ]
fill_row-ne-zero (suc k) r c last zero ne lt = filled-ne-zero r c last ne
fill_row-ne-zero (suc k) r c last (suc j) ne lt =
    fill_row-ne-zero k r (c + 1) (filled r c last) j (filled-ne-zero r c last ne) (omega arith)

write_row-at :
    (r c : ℕ) (row : List ℕ) (px : Pixels)
    → c < length row
    → write_row r row px (r * row_pixels + c) ≡ get_or row c 0
unfolding write_row
write_row-at r c row px lt =
    let back : r * row_pixels + c - r * row_pixels ≡ c = omega arith in
    ground (arith, lt, ap (λ x. get_or row x 0) back)

write_row-below :
    (r i c : ℕ) (row : List ℕ) (px : Pixels)
    → i < r
    → c < width
    → write_row r row px (i * row_pixels + c) ≡ px (i * row_pixels + c)
unfolding write_row
write_row-below r i c row px lt in_row = ground (arith, lt, in_row)

write_rows-below :
    (k r i c : ℕ) (px : Pixels)
    → i < r
    → c < width
    → write_rows k r px (i * row_pixels + c) ≡ px (i * row_pixels + c)
unfolding write_rows
write_rows-below zero r i c px lt in_row = refl
write_rows-below (suc k) r i c px lt in_row =
    let row = fill_row width r 0 (base_depth r 0) in
    write_rows-below k (r + 1) i c (write_row r row px) (omega arith) in_row
    ∙ write_row-below r i c row px lt in_row

base_depth-ne-zero : (r : ℕ) → r < 6000 → base_depth r 0 ≢ 0
unfolding base_depth
base_depth-ne-zero r lt = λ e. omega (arith, e)

write_rows-ne-zero :
    (k r i c : ℕ) (px : Pixels)
    → r ≤ i
    → i < r + k
    → i < height
    → c < width
    → write_rows k r px (i * row_pixels + c) ≢ 0
unfolding write_rows
write_rows-ne-zero zero r i c px le lt in_image in_row = absurd (omega arith)
write_rows-ne-zero (suc k) r i c px le lt in_image in_row =
    let row = fill_row width r 0 (base_depth r 0) in
    elim (dec_le (r + 1) i) [
      | yes later ↦
          write_rows-ne-zero k (r + 1) i c (write_row r row px) later (omega arith) in_image in_row
      | no here ↦
          let same : i ≡ r = omega arith in
          let kept = write_rows-below k (r + 1) r c (write_row r row px) (omega arith) in_row in
          let put =
            write_row-at r c row px (omega (arith, length-fill_row width r 0 (base_depth r 0))) in
          let value =
            fill_row-ne-zero width r 0 (base_depth r 0) c (base_depth-ne-zero r (omega arith))
              in_row in
          λ e. value (
            sym (kept ∙ put)
            ∙ ap (λ x. write_rows k (r + 1) (write_row r row px) (x * row_pixels + c)) (sym same)
            ∙ e)
    ]

-- A pixel that the consumer looks at.
Valid : Pixels → ℕ → ℕ → Type 0
Valid px r c = (not ((r == 0) && (c == 0)) && (px (r * row_pixels + c) == 0)) ≡ false

produce_frame-Valid :
    (seqno r c : ℕ) (px : Pixels) → r < height → c < width → Valid (produce_frame seqno px) r c
unfolding Valid produce_frame
produce_frame-Valid seqno r c px in_image in_row =
    let ne = write_rows-ne-zero height 0 r c px (omega arith) (omega arith) in_image in_row in
    ground (arith, ne)

row_holes-none :
    (k r c : ℕ) (px : Pixels)
    → ((j : ℕ) → j < c + k → Valid px r j)
    → row_holes row_pixels k r c px ≡ 0
unfolding row_holes Valid
row_holes-none zero r c px valid = refl
row_holes-none (suc k) r c px valid =
    ground
      (arith, valid c (omega arith), row_holes-none k r (c + 1) px (λ j lt. valid j (omega arith)))

count_holes-none :
    (k r : ℕ) (px : Pixels)
    → ((i j : ℕ) → i < r + k → j < width → Valid px i j)
    → count_holes row_pixels k r px ≡ 0
unfolding count_holes
count_holes-none zero r px valid = refl
count_holes-none (suc k) r px valid = omega (
  arith,
  row_holes-none width r 0 px (λ j lt. valid r j (omega arith) lt),
  count_holes-none k (r + 1) px (λ i j lt. valid i j (omega arith)),
)

stamp_first : (seqno : ℕ) (px : Pixels) → produce_frame seqno px 0 ≡ wrap16 seqno
unfolding produce_frame
stamp_first seqno px = refl

-- Whatever a buffer held before, a frame that the demo's producer fills in and stamps passes the
-- consumer's checks of its content, read with the producer's row pitch: the stamp is the low 16 bits of the sequence number, and no pixel of the padded
-- rows is a hole.
pub check_frame-produce_frame :
    (seqno : ℕ) (px : Pixels) → check_frame row_pixels seqno (produce_frame seqno px) ≡ 0
unfolding check_frame
check_frame-produce_frame seqno px =
    let none_left =
      count_holes-none height 0 (produce_frame seqno px)
        (λ i j lt in_row. produce_frame-Valid seqno i j px lt in_row) in
    let first : produce_frame seqno px 0 ≡ wrap16 seqno = stamp_first seqno px in
    ground (arith, none_left, first)
