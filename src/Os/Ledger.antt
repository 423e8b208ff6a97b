-- ===== src/Os/Ledger.antt =====
-- Accounts of file descriptors.
use axon_sdk_for_physical_ai.Common.{
  Errno, refl, ◌⊎◌, inl, inr, ℕ, ◌+◌, ◌≡◌, List, [], ◌∷◌, ◌++◌, Option, none, some, arith,
  if◌then◌else◌, ◌==◌,
}
use axon_sdk_for_physical_ai.Os.{Reply, done, fails, Os, call, call_open, close, close_option}

abbrev pub one_if : ℕ → ℕ → ℕ
one_if a b = if a == b then 1 else 0

-- How often `a` stands in a list.
unfoldable pub count : ℕ → List ℕ → ℕ
count a [] = 0
count a (x ∷ xs) = one_if a x + count a xs

unfoldable pub count_option : ℕ → Option ℕ → ℕ
count_option a none = 0
count_option a (some x) = one_if a x

pub count-append : (a : ℕ) (xs ys : List ℕ) → count a (xs ++ ys) ≡ count a xs + count a ys
unfolding count
count-append a [] ys = omega arith
count-append a (x ∷ xs) ys = omega (arith, count-append a xs ys)

-- From `s` to `t`, where the process held `before` and now holds `after` copies of descriptor `a`: what
-- was opened and not closed is what is held.
abbrev pub Balanced : ℕ → Os → ℕ → Os → ℕ → Type 0
Balanced a s before t after =
    count a t.opened + count a s.closed + before ≡ count a s.opened + count a t.closed + after

pub call-Balanced : (a : ℕ) (s : Os) (h : ℕ) → Balanced a s h (call s).1 h
unfolding call
call-Balanced a s h = ground arith

pub call_open-Balanced :
    (a : ℕ) (s : Os) (h : ℕ) → Balanced a s h (call_open s).1 (h + count_option a (call_open s).0)
unfolding call_open count count_option
call_open-Balanced a s h = ground arith

pub close-Balanced : (a fd : ℕ) (s : Os) (h : ℕ) → Balanced a s (h + one_if a fd) (close fd s).1 h
unfolding close count
close-Balanced a fd s h = ground arith

pub close_option-Balanced :
    (a : ℕ) (o : Option ℕ) (s : Os) (h : ℕ)
    → Balanced a s (h + count_option a o) (close_option o s).1 h
unfolding close_option count_option
close_option-Balanced a none s h = omega arith
close_option-Balanced a (some fd) s h = close-Balanced a fd s h

-- To split on a reply and keep the equation.
pub Reply-cases : (r : Reply) → ((n : ℕ) × (r ≡ done n)) ⊎ ((e : Errno) × (r ≡ fails e))
Reply-cases (done n) = inl (n, refl)
Reply-cases (fails e) = inr (e, refl)
