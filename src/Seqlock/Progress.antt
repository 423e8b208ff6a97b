-- ===== src/Seqlock/Progress.antt =====
-- `read_latest` ends after a bounded number of its own steps, whatever the writer does.
use axon_sdk_for_physical_ai.Common.{
  ℕ, suc, ◌+◌, ◌-◌, ◌*◌, ◌<◌, ◌≤◌, ◌≡◌, arith, Bool-cases, inl, inr, ltb,
}
use axon_sdk_for_physical_ai.Seqlock.{
  Slot, Reader, waiting, trying, copying, returned, failed, ReaderMove, no_data, has_data, odd,
  even, copy_word, accept, reject, call_again, call_after_failure, next_round,
}

-- The steps that a call may still take.
unfoldable pub budget : ℕ → ℕ → Reader → ℕ
budget n max_retry waiting = (max_retry + 1) * (n + 2) + 1
budget n max_retry (trying k b) = (max_retry - k) * (n + 2) + (n + 2)
budget n max_retry (copying k b g c i t) = (max_retry - k) * (n + 2) + (n - i + 1)
budget n max_retry (returned k b c u t) = 0
budget n max_retry failed = 0

-- The call has not returned.
abbrev pub Running : Reader → Type 0
Running (returned k b c u t) = ⊥
Running failed = ⊥
Running _ = Unit {0}

one_less : (x k p : ℕ) → k < x → (x - (k + 1)) * p + p ≡ (x - k) * p
one_less x k p h = let e : x - k ≡ suc (x - (k + 1)) = omega arith in rw e (omega arith)

next_round-budget :
    (n max_retry k b : ℕ)
    → budget n max_retry (next_round max_retry k b) ≤ (max_retry - k) * (n + 2)
unfolding budget
next_round-budget n max_retry k b = elim (Bool-cases (ltb k max_retry)) [
  | inl more ↦ rw more (omega (arith, one_less max_retry k (n + 2) (ground arith)))
  | inr last ↦ rw last (omega arith)
]

-- Every step of a call that has not returned lowers a budget that starts at
-- `(max_retry + 1) * (n + 2) + 1`, so `read_latest` returns within as many steps of its own, whatever
-- the writer does in between.
pub ReaderMove-budget :
    {n max_retry : ℕ} {m : Slot} {r r' : Reader}
    → ReaderMove n max_retry m r r'
    → Running r
    → budget n max_retry r' < budget n max_retry r
unfolding budget
ReaderMove-budget (no_data e) a = omega arith
ReaderMove-budget {n = n} {max_retry = x} (has_data e) a = grind arith
ReaderMove-budget {n = n} {max_retry = x} (odd {k = k} {b = b} e) a =
    omega (arith, next_round-budget n x k b)
ReaderMove-budget (even e) a = grind arith
ReaderMove-budget (copy_word h) a = omega arith
ReaderMove-budget {n = n} {max_retry = x} (accept {k = k} at same) a = omega arith
ReaderMove-budget {n = n} {max_retry = x} (reject {k = k} {b = b} at moved) a =
    omega (arith, next_round-budget n x k b)
ReaderMove-budget call_again a = elim a [ ]
ReaderMove-budget call_after_failure a = elim a [ ]
