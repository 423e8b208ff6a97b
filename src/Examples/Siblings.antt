-- ===== src/Examples/Siblings.antt =====
-- Lists of sibling CPUs as the kernel writes them, and malformed ones.
use axon_sdk_for_physical_ai.Common.{◌≡◌, refl, pos, [], ◌∷◌}
use axon_sdk_for_physical_ai.Rt.Siblings.{
  read_digits, unsigned_part, after_spaces, strtol, check_range, range_end, item_range, split_first,
  items, cpus_from, all_cpus, parse_siblings,
}

-- "6,14".
two_numbers : parse_siblings (54 ∷ 44 ∷ 49 ∷ 52 ∷ []) ≡ pos 6 ∷ pos 14 ∷ []
unfolding parse_siblings all_cpus items split_first item_range range_end check_range strtol
    after_spaces unsigned_part read_digits cpus_from
two_numbers = refl

-- "0-1".
a_range : parse_siblings (48 ∷ 45 ∷ 49 ∷ []) ≡ pos 0 ∷ pos 1 ∷ []
unfolding parse_siblings all_cpus items split_first item_range range_end check_range strtol
    after_spaces unsigned_part read_digits cpus_from
a_range = refl

-- "6,5-": nothing is reported.
no_end : parse_siblings (54 ∷ 44 ∷ 53 ∷ 45 ∷ []) ≡ []
unfolding parse_siblings all_cpus items split_first item_range range_end check_range strtol
    after_spaces unsigned_part read_digits
no_end = refl
