-- ===== src/Examples/Seqlocks.antt =====
-- One publish of a descriptor of one word, and one read of it.
use native.Mathlib.Decide.{ℕ_discrete}
use axon_sdk_for_physical_ai.Common.{ℕ, ◌<◌, ◌≤◌, ◌≡◌, refl, arith}
use axon_sdk_for_physical_ai.Common.Family.{update}
use axon_sdk_for_physical_ai.Seqlock.{
  System, Reach, start, later, writes, reads, load_guard, lock, store_word, unlock, set_ready,
  has_data, even, copy_word, accept, trying, waiting,
}
use axon_sdk_for_physical_ai.Seqlock.Safety.{returned_untorn}
use axon_sdk_for_physical_ai.Seqlock.Progress.{budget, ReaderMove-budget}

one_read : (s : System) × Reach 1 8 s
unfolding ℕ_discrete
one_read = (
  _,
  later
      (later
        (later
          (later
            (later
              (later
                (later (later (later start (writes (load_guard (λ _. 7)))) (writes lock))
                  (writes (store_word (omega arith))))
                (writes (unlock refl)))
              (writes set_ready))
            (reads (has_data refl)))
          (reads (even refl)))
        (reads (copy_word (omega arith))))
      (reads (accept refl refl)),
)

returned_untorn_example :
    (0 < 1)
    × (1 ≤ 1)
    × (1 ≤ 1)
    × (1 ≤ one_read.0.mem.count)
    × ((j : ℕ) → j < 1 → update (λ _. 0) 0 7 j ≡ one_read.0.mem.hist 1 j)
unfolding one_read ℕ_discrete
returned_untorn_example = returned_untorn {until = 1} one_read.1 refl (omega arith)

ReaderMove-budget_example : budget 1 8 (trying 0 1) < budget 1 8 waiting
unfolding one_read ℕ_discrete
ReaderMove-budget_example = ReaderMove-budget {m = one_read.0.mem} (has_data refl) tt
