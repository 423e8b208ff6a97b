-- ===== src/Rt/Touch.antt =====
-- Every page of a region is touched.
use axon_sdk_for_physical_ai.Common.{
  ℕ, zero, suc, ◌+◌, ◌≤◌, ◌<◌, ◌≡◌, List, [], ◌∷◌, ◌++◌, some, get_elem?, arith,
}
use native.Mathlib.Decide.{dec_le}
use axon_sdk_for_physical_ai.Rt.{touch_loop, touch_pages}

-- The page that starts at a touched offset holds the byte at `o`, and the offset is in the region.
abbrev pub Touched : List ℕ → ℕ → ℕ → ℕ → Type 0
Touched offsets page n o =
    (k : ℕ) × (t : ℕ) × (get_elem? offsets k ≡ some t) × (t ≤ o) × (o < t + page) × (t < n)

touch_loop-Touched :
    (fuel page i n o : ℕ)
    → 0 < page
    → n ≤ i + fuel
    → i ≤ o
    → o < n
    → Touched (touch_loop fuel page i n) page n o
unfolding touch_loop
touch_loop-Touched zero page i n o pos enough lo hi = absurd (omega arith)
touch_loop-Touched (suc fuel) page i n o pos enough lo hi = elim (dec_le (i + page) o) [
  | no near ↦ (0, i, ground arith, lo, omega arith, omega arith)
  | yes far ↦
      let (k, t, at, le, lt, inside) =
        touch_loop-Touched fuel page (i + page) n o pos (omega arith) far hi in
      (suc k, t, ground (arith, at), le, lt, inside)
]

get_elem?-append :
    (xs ys : List ℕ) (k t : ℕ) → get_elem? xs k ≡ some t → get_elem? (xs ++ ys) k ≡ some t
get_elem?-append [] ys k t e = absurd (ground (arith, e))
get_elem?-append (x ∷ xs) ys zero t e = e
get_elem?-append (x ∷ xs) ys (suc k) t e = get_elem?-append xs ys k t e

-- For a page size that is positive, each byte of the region is in a page that starts at an offset which
-- `touch_pages` touches, and that offset is in the region.
pub touch_pages-Touched : (page n o : ℕ) → 0 < page → o < n → Touched (touch_pages page n) page n o
unfolding touch_pages
touch_pages-Touched page n o pos lt =
    let (k, t, at, le, near, inside) =
      touch_loop-Touched n page 0 n o pos (omega arith) (omega arith) lt in
    (k, t, get_elem?-append (touch_loop n page 0 n) _ k t at, le, near, inside)
