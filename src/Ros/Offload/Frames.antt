-- ===== src/Ros/Offload/Frames.antt =====
-- integrations/ros2_offload: one frame from `tick` to `on_desc`.
use axon_sdk_for_physical_ai.Common.{
  ℕ, ◌+◌, ◌%◌, ◌^◌, ◌<◌, ◌≡◌, sym, ap, ◌∙◌, subst, some, length, wrap32, wrap64, arith,
}
use axon_sdk_for_physical_ai.Os.{Os}
use axon_sdk_for_physical_ai.Bytes.{
  Memory, read_bytes, number_bytes, bytes_number, write_bytes-at, read_bytes-shown,
  length-number_bytes, bytes_number-number_bytes,
}
use axon_sdk_for_physical_ai.Bridge.{poll_new_consumers, buffer, Consumer, payload, view_at}
use axon_sdk_for_physical_ai.Ros.Offload.{
  DescriptorMessage, AxonProducer, AxonConsumer, stamp_seqno, describe, tick, count_frame, on_desc,
}

-- A frame that arrived whole.
pub record IsCounted (c d : AxonConsumer) : Type 0 where
  pub bridge : d.bridge ≡ c.bridge
  pub counted : d.frames ≡ wrap64 (c.frames + 1)
  pub whole : d.payload_errors ≡ c.payload_errors

-- The number read back from a memory that shows the buffer.
stamped-read :
    (view base seqno : ℕ) (mem seen : Memory)
    → seqno < 2 ^ 64
    → ((j : ℕ) → j < 8 → seen (base + j) ≡ stamp_seqno (some view) seqno mem (view + j))
    → bytes_number (read_bytes seen base 8) ≡ seqno
unfolding stamp_seqno
stamped-read view base seqno mem seen small same =
    let bytes = number_bytes 8 seqno in
    let eight : length bytes ≡ 8 = length-number_bytes 8 seqno in
    let read : read_bytes seen base 8 ≡ bytes =
      subst (λ n. read_bytes seen base n ≡ bytes) eight
        (read_bytes-shown seen base bytes
          (λ j lt. same j (omega (arith, eight)) ∙ write_bytes-at view j bytes mem lt)) in
    ap bytes_number read ∙ bytes_number-number_bytes 8 seqno (omega arith)

on_desc-IsCounted :
    (now : ℕ) (msg : DescriptorMessage) (mem : Memory) (c : AxonConsumer) (base : ℕ)
    → msg.pool_generation ≡ c.bridge.pool_generation
    → payload c.bridge msg.bo_handle msg.offset ≡ some base
    → bytes_number (read_bytes mem base 8) ≡ msg.seqno
    → IsCounted c (on_desc now msg mem c).0
unfolding on_desc count_frame
on_desc-IsCounted now msg mem c base gen at same = record {
  bridge = ground (arith, gen, at, same);
  counted = ground (arith, gen, at, same);
  whole = ground (arith, gen, at, same);
}

payload-start :
    (c : Consumer) (i base : ℕ) → view_at c.views i ≡ some base → payload c i 0 ≡ some base
unfolding payload
payload-start c i base at = ground (arith, at)

-- Each frame that `tick` sends is counted by `on_desc` as a frame without an error, if the consumer has the
-- generation of the producer's pool and has mapped the buffer of the frame, and its memory shows there
-- the eight bytes that the producer's shows at its view.
pub on_desc-tick :
    (fuel capture now later : ℕ) (p : AxonProducer) (mem : Memory) (os : Os) (c : AxonConsumer)
    (view base : ℕ) (seen : Memory)
    → c.bridge.pool_generation ≡ wrap32 p.bridge.pool.gen
    → buffer p.bridge (wrap64 (p.seqno + 1) % length p.bridge.views) ≡ some view
    → view_at c.bridge.views (wrap64 (p.seqno + 1) % length p.bridge.views) ≡ some base
    → ((j : ℕ) → j < 8 → seen (base + j) ≡ (tick fuel capture now p mem os).0.1.1 (view + j))
    → IsCounted c (on_desc later (tick fuel capture now p mem os).0.0 seen c).0
unfolding tick describe poll_new_consumers buffer
on_desc-tick fuel capture now later p mem os c view base seen gen at there same =
    let seqno = wrap64 (p.seqno + 1) in
    let idx = seqno % length p.bridge.views in
    let shown =
      λ (j : ℕ) (lt : j < 8). same j lt ∙ ap (λ x. stamp_seqno x seqno mem (view + j)) at in
    on_desc-IsCounted later (tick fuel capture now p mem os).0.0 seen c base (sym gen)
      (payload-start c.bridge idx base there)
      (stamped-read view base seqno mem seen (omega arith) shown)
