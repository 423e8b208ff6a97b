-- ===== src/Seqlock/Safety.antt =====
-- What a reader of the slot gets, in every interleaving.
use native.Mathlib.Nat.{le_trans}
use axon_sdk_for_physical_ai.Common.{ℕ, ◌+◌, ◌^◌, ◌<◌, ◌≤◌, ◌≡◌}
use axon_sdk_for_physical_ai.Seqlock.{Desc, returned, System, Reach}
use axon_sdk_for_physical_ai.Seqlock.Invariant.{Reach-Inv, ReaderOk}

-- In every reachable state, a `read_latest` that returned a descriptor while fewer than 2 ^ 63
-- publishes ended between its two loads of the guard has an untorn one: all its words are those of
-- publish number `since`, and that publish had ended, after the call began or as the last one before,
-- and no later than the return.
pub returned_untorn :
    {n max_retry k began since until : ℕ} {t : Desc} {s : System}
    → Reach n max_retry s
    → s.reader ≡ returned k began since until t
    → until < since + 2 ^ 63
    → (0 < since)
      × (began ≤ since)
      × (since ≤ until)
      × (until ≤ s.mem.count)
      × ((j : ℕ) → j < n → t j ≡ s.mem.hist since j)
returned_untorn {n = n} {k = k} {began = b} {since = c} {until = u} {t = t} {s = s} r e few =
    (le_trans v.0 v.1, v.1, v.2, v.3, v.4 few)
  where
    v : ReaderOk n s.mem s.writer (returned k b c u t)
    v = rw e at (Reach-Inv r).reader_ok
