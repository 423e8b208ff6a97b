-- ===== src/Ros/Offload.antt =====
-- producer_node.cpp and consumer_node.cpp of integrations/ros2_offload, and the consumer's counters in
-- consumer_node.cpp of integrations/ros1_offload: each frame carries its sequence number in its buffer.
pub mod Frames
pub mod Runs
use axon_sdk_for_physical_ai.Common.{
  ℕ, ◌+◌, ◌*◌, ◌/◌, ◌%◌, List, [], ◌∷◌, Bool, true, false, Option, none, some, length,
  if◌then◌else◌, ltb, ◌==◌, ◌&&◌, not, wrap32, wrap64, sub64,
}
use axon_sdk_for_physical_ai.Types.{DType, u8}
use axon_sdk_for_physical_ai.Os.{M, ◌>>=◌, pure}
use axon_sdk_for_physical_ai.Bytes.{Memory, write_bytes, read_bytes, number_bytes, bytes_number}
use axon_sdk_for_physical_ai.Bridge.{Producer, poll_new_consumers, buffer, Consumer, payload}

-- `msg::TensorDescriptor`.
pub record DescriptorMessage : Type 0 where
  pub bo_handle : ℕ
  pub seqno : ℕ
  pub pool_generation : ℕ
  pub capture_ts_ns : ℕ
  pub producer_publish_ts_ns : ℕ
  pub shape : List ℕ
  pub rank : ℕ
  pub dtype : DType
  pub offset : ℕ
  pub size : ℕ

-- `AxonProducer`; `bytes` is not negative.
pub record AxonProducer : Type 0 where
  pub bridge : Producer
  pub bytes : ℕ
  pub seqno : ℕ

-- The `memcpy` of a sequence number into a buffer, where `Producer::create` has mapped each.
unfoldable pub stamp_seqno : Option ℕ → ℕ → Memory → Memory
stamp_seqno none seqno mem = mem
stamp_seqno (some view) seqno mem = write_bytes view (number_bytes 8 seqno) mem

unfoldable pub describe : ℕ → ℕ → ℕ → ℕ → ℕ → Producer → DescriptorMessage
describe bytes seqno idx capture now p = record {
  bo_handle = idx;
  seqno = seqno;
  pool_generation = wrap32 p.pool.gen;
  capture_ts_ns = capture;
  producer_publish_ts_ns = now;
  shape = 1 ∷ wrap32 bytes ∷ [];
  rank = 2;
  dtype = u8;
  offset = 0;
  size = bytes;
}

-- `tick`, with the two readings of the clock: the message for the topic.
unfoldable pub tick :
    ℕ → ℕ → ℕ → AxonProducer → Memory → M (DescriptorMessage × (AxonProducer × Memory))
tick fuel capture now p mem = do
  q ← poll_new_consumers fuel p.bridge
  let seqno = wrap64 (p.seqno + 1)
  let idx = seqno % length q.views
  pure (
    describe p.bytes seqno idx capture now q,
    (record p { bridge = q; seqno = seqno }, stamp_seqno (buffer q idx) seqno mem),
  )

-- The counters of a consumer, and its bridge.
pub record AxonConsumer : Type 0 where
  pub bridge : Consumer
  pub target_frames : ℕ
  pub frames : ℕ
  pub payload_errors : ℕ
  pub stale_sum_us : ℕ
  pub stale_max_us : ℕ

-- What `on_desc` counts, once it has the payload.
unfoldable pub count_frame : ℕ → DescriptorMessage → ℕ → AxonConsumer → AxonConsumer
count_frame now msg stamped c =
    let staleness_us = sub64 now msg.producer_publish_ts_ns / 1000 in
    record c {
      payload_errors =
          if stamped == msg.seqno then c.payload_errors else wrap64 (c.payload_errors + 1);
      stale_sum_us = wrap64 (c.stale_sum_us + staleness_us);
      stale_max_us = if ltb c.stale_max_us staleness_us then staleness_us else c.stale_max_us;
      frames = wrap64 (c.frames + 1);
    }

-- `on_desc` at time `now`: the consumer afterwards, and whether the node shuts down.
unfoldable pub on_desc : ℕ → DescriptorMessage → Memory → AxonConsumer → AxonConsumer × Bool
on_desc now msg mem c =
    if not (msg.pool_generation == c.bridge.pool_generation)
    then (c, false)
    else elim (payload c.bridge msg.bo_handle msg.offset) [
      | none ↦ (c, false)
      | some base ↦
          let d = count_frame now msg (bytes_number (read_bytes mem base 8)) c in
          (d, not (ltb d.frames d.target_frames))
    ]

-- The exit code that `summarize` returns.
unfoldable pub summarize : AxonConsumer → ℕ
summarize c = if c.frames == 0 then 1 else if c.payload_errors == 0 then 0 else 1

-- The watchdog of the ROS 1 consumer: its warning, and what it has seen last.
unfoldable pub watchdog : ℕ → ℕ → Bool × ℕ
watchdog last_seen wd_last = ((last_seen == wd_last) && not (last_seen == 0), last_seen)
