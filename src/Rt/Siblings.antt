-- ===== src/Rt/Siblings.antt =====
-- src/rt.cpp: `rt_core_siblings`. A text has no byte 0 in it.
use axon_sdk_for_physical_ai.Common.{
  ℕ, zero, suc, ◌+◌, ◌-◌, ◌*◌, ◌%◌, ◌^◌, ℤ, pos, negsuc, List, [], ◌∷◌, ◌++◌, Bool, true, false,
  Option, none, some, if◌then◌else◌, ltb, leb, ◌==◌, ◌||◌, ◌&&◌, min,
}
use axon_sdk_for_physical_ai.Os.{M, ◌>>=◌, pure, siblings_list}
use axon_sdk_for_physical_ai.Rt.Latency.{read_line}

-- A run of digits after the value so far: the value, and the rest of the text.
unfoldable pub read_digits : List ℕ → ℕ → ℕ × List ℕ
read_digits [] n = (n, [])
read_digits (c ∷ s) n =
    let more = read_digits s (n * 10 + (c - 48)) in
    if leb 48 c && leb c 57 then more else (n, c ∷ s)

abbrev pub starts_digit : List ℕ → Bool
starts_digit [] = false
starts_digit (c ∷ s) = leb 48 c && leb c 57

abbrev pub skip_spaces : List ℕ → List ℕ
skip_spaces [] = []
skip_spaces (c ∷ s) =
    let rest = skip_spaces s in if (c == 32) || leb 9 c && leb c 13 then rest else c ∷ s

-- The number with its sign, held to the bounds of a 64-bit `long`.
abbrev pub as_long : Bool → ℕ → ℤ
as_long false n = pos (min n (2 ^ 63 - 1))
as_long true zero = pos 0
as_long true (suc n) = negsuc (min n (2 ^ 63 - 1))

unfoldable pub unsigned_part : Bool → List ℕ → Option (ℤ × List ℕ)
unsigned_part minus s =
    let (n, rest) = read_digits s 0 in if starts_digit s then some (as_long minus n, rest) else none

unfoldable pub after_spaces : List ℕ → Option (ℤ × List ℕ)
after_spaces [] = none
after_spaces (c ∷ s) =
    if c == 45
    then unsigned_part true s
    else if c == 43
    then unsigned_part false s
    else unsigned_part false (c ∷ s)

-- `strtol` in base 10: the value and what follows it, or `none` where it leaves `end` at the start.
unfoldable pub strtol : List ℕ → Option (ℤ × List ℕ)
strtol s = after_spaces (skip_spaces s)

-- The end of an item, once both numbers are read: the first CPU, and how many follow it.
unfoldable pub check_range : ℤ → ℤ → List ℕ → Option (ℕ × ℕ)
check_range (pos lo) (pos hi) [] =
    if ltb hi lo || ltb 4096 (hi - lo) then none else some (lo, hi - lo)
check_range _ _ _ = none

-- What follows the first number.
unfoldable pub range_end : ℤ → List ℕ → Option (ℕ × ℕ)
range_end lo [] = check_range lo lo []
range_end lo (c ∷ s) =
    if c == 45
    then elim (strtol s) [ none ↦ none | some (hi, rest) ↦ check_range lo hi rest ]
    else none

-- An item: "6" or "0-1".
unfoldable pub item_range : List ℕ → Option (ℕ × ℕ)
item_range s = elim (strtol s) [ none ↦ none | some (lo, rest) ↦ range_end lo rest ]

abbrev pub listed : List ℕ → List ℕ × List (List ℕ) → List (List ℕ)
listed [] p = []
listed (c ∷ s) p = p.0 ∷ p.1

-- The text up to a comma, and the items after it.
unfoldable pub split_first : List ℕ → List ℕ × List (List ℕ)
split_first [] = ([], [])
split_first (c ∷ s) = let p = split_first s in if c == 44 then ([], listed s p) else (c ∷ p.0, p.1)

-- The items that `std::getline` gives: a comma at the end starts none.
unfoldable pub items : List ℕ → List (List ℕ)
items s = listed s (split_first s)

-- `static_cast<int>`.
abbrev pub as_int : ℕ → ℤ
as_int n = let w = n % 2 ^ 32 in if ltb w (2 ^ 31) then pos w else negsuc (2 ^ 32 - 1 - w)

-- The CPUs from `lo` on, `more` of them after the first.
unfoldable pub cpus_from : ℕ → ℕ → List ℤ
cpus_from lo zero = as_int lo ∷ []
cpus_from lo (suc more) = as_int lo ∷ cpus_from (lo + 1) more

-- The loop over the items; a malformed one leaves nothing of the others.
unfoldable pub all_cpus : List (List ℕ) → Option (List ℤ)
all_cpus [] = some []
all_cpus (i ∷ is) = elim (item_range i) [
  | none ↦ none
  | some (lo, more) ↦ elim (all_cpus is) [
    | none ↦ none
    | some rest ↦ some (cpus_from lo more ++ rest)
  ]
]

unfoldable pub parse_siblings : List ℕ → List ℤ
parse_siblings text = elim (all_cpus (items text)) [ none ↦ [] | some out ↦ out ]

-- `rt_core_siblings`.
unfoldable pub rt_core_siblings : ℤ → M (List ℤ)
rt_core_siblings (negsuc n) = pure []
rt_core_siblings (pos cpu) = do
  list ← read_line siblings_list cpu
  pure (elim list [ none ↦ [] | some text ↦ parse_siblings text ])
