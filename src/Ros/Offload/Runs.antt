-- ===== src/Ros/Offload/Runs.antt =====
-- integrations/ros2_offload: a producer node and a consumer node, frame after frame.
use axon_sdk_for_physical_ai.Common.{
  ℕ, zero, suc, ◌+◌, ◌%◌, ◌^◌, ◌<◌, ◌≡◌, refl, sym, ap, ◌∙◌, subst, some, length, wrap32, wrap64,
  arith,
}
use native.Mathlib.Nat.{mod-lt}
use axon_sdk_for_physical_ai.Os.{Os, M, ◌>>=◌, pure}
use axon_sdk_for_physical_ai.Bytes.{Memory}
use axon_sdk_for_physical_ai.Bridge.{poll_new_consumers, buffer, view_at}
use axon_sdk_for_physical_ai.Ros.Offload.{AxonProducer, AxonConsumer, tick, on_desc, summarize}
use axon_sdk_for_physical_ai.Ros.Offload.Frames.{on_desc-tick}

-- The two have the same pool mapped, each buffer of it, and the consumer's memory shows what the producer
-- writes; `seen` is the consumer's memory for the producer's.
pub record Shares (seen : Memory → Memory) (p : AxonProducer) (c : AxonConsumer) : Type 0 where
  pub generation : c.bridge.pool_generation ≡ wrap32 p.bridge.pool.gen
  pub some_buffers : 0 < length p.bridge.views
  pub view : ℕ → ℕ
  pub base : ℕ → ℕ
  pub written : (i : ℕ) → i < length p.bridge.views → buffer p.bridge i ≡ some (view i)
  pub mapped : (i : ℕ) → i < length p.bridge.views → view_at c.bridge.views i ≡ some (base i)
  pub shown :
      (i j : ℕ) (mem : Memory)
      → i < length p.bridge.views
      → j < 8
      → seen mem (base i + j) ≡ mem (view i + j)

record IsRun (n : ℕ) (p : AxonProducer) (c : AxonConsumer) (q : AxonProducer) (d : AxonConsumer)
    : Type 0 where
  views : q.bridge.views ≡ p.bridge.views
  pool : q.bridge.pool ≡ p.bridge.pool
  bridge : d.bridge ≡ c.bridge
  counted : d.frames ≡ wrap64 (c.frames + n)
  whole : d.payload_errors ≡ c.payload_errors

-- `n` rounds, each of a `tick` and the `on_desc` of its message, at their times.
module _ (fuel capture now later : ℕ → ℕ) (seen : Memory → Memory) where
  unfoldable pub run :
      ℕ → AxonProducer → AxonConsumer → Memory → M (AxonProducer × (AxonConsumer × Memory))
  run zero p c mem = pure (p, (c, mem))
  run (suc n) p c mem = do
    before ← run n p c mem
    sent ← tick (fuel n) (capture n) (now n) before.0 before.1.1
    pure (sent.1.0, ((on_desc (later n) sent.0 (seen sent.1.1) before.1.0).0, sent.1.1))

  tick-bridge :
      (n : ℕ) (p : AxonProducer) (mem : Memory) (os : Os)
      → let q = (tick (fuel n) (capture n) (now n) p mem os).0.1.0 in
        (q.bridge.views ≡ p.bridge.views) × (q.bridge.pool ≡ p.bridge.pool)
  unfolding tick poll_new_consumers
  tick-bridge n p mem os = (refl, refl)

  run-IsRun :
      (n : ℕ) (p : AxonProducer) (c : AxonConsumer) (mem : Memory) (os : Os)
      → Shares seen p c
      → c.frames < 2 ^ 64
      → IsRun n p c (run n p c mem os).0.0 (run n p c mem os).0.1.0
  unfolding run buffer
  run-IsRun zero p c mem os h small = record {
    views = refl;
    pool = refl;
    bridge = refl;
    counted = omega arith;
    whole = refl;
  }
  run-IsRun (suc n) p c mem os h small =
      let r = run n p c mem os in
      let q = r.0.0 in
      let d = r.0.1.0 in
      let is = run-IsRun n p c mem os h small in
      let sent = tick (fuel n) (capture n) (now n) q r.0.1.1 r.1 in
      let same = tick-bridge n q r.0.1.1 r.1 in
      let count : length q.bridge.views ≡ length p.bridge.views = ap length is.views in
      let idx = wrap64 (q.seqno + 1) % length q.bridge.views in
      let below : idx < length p.bridge.views =
        subst (λ k. wrap64 (q.seqno + 1) % k < length p.bridge.views) (sym count)
          (mod-lt (wrap64 (q.seqno + 1)) h.some_buffers) in
      let one =
        on_desc-tick (fuel n) (capture n) (now n) (later n) q r.0.1.1 r.1 d (h.view idx)
          (h.base idx) (seen sent.0.1.1)
          (ap (λ x. x.pool_generation) is.bridge
            ∙ h.generation
            ∙ ap (λ x. wrap32 x.gen) (sym is.pool))
          (ap (λ x. view_at x idx) is.views ∙ h.written idx below)
          (ap (λ x. view_at x.views idx) is.bridge ∙ h.mapped idx below)
          (λ j lt. h.shown idx j sent.0.1.1 below lt) in
      record {
        views = same.0 ∙ is.views;
        pool = same.1 ∙ is.pool;
        bridge = one.bridge ∙ is.bridge;
        counted = omega (arith, one.counted, is.counted);
        whole = one.whole ∙ is.whole;
      }

  -- A consumer node that starts at zero and shares the pool with the producer node has exit code 0 after
  -- any number of frames but none, below 2 ^ 64, each received before the next is sent.
  pub summarize-run :
      (n : ℕ) (p : AxonProducer) (c : AxonConsumer) (mem : Memory) (os : Os)
      → Shares seen p c
      → c.frames ≡ 0
      → c.payload_errors ≡ 0
      → 0 < n
      → n < 2 ^ 64
      → summarize (run n p c mem os).0.1.0 ≡ 0
  unfolding summarize
  summarize-run n p c mem os h fresh clean some_frames small =
      let is = run-IsRun n p c mem os h (omega (arith, fresh)) in
      let frames : (run n p c mem os).0.1.0.frames ≡ n = omega (arith, is.counted, fresh) in
      let errors : (run n p c mem os).0.1.0.payload_errors ≡ 0 = is.whole ∙ clean in
      ground (arith, frames, errors)
