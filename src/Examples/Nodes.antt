-- ===== src/Examples/Nodes.antt =====
-- Nodes with a pool of three buffers: images of 4096 bytes, one that is larger, and counted frames.
use axon_sdk_for_physical_ai.Pool.Alloc.{
  create, is_nv, allocate, allocate_backend, allocate_custom, make_sealed_memfd, size_and_seal,
  ready_pool, new_pool, page_round_up,
}
use axon_sdk_for_physical_ai.Common.{
  ℕ, zero, suc, ◌+◌, ◌-◌, ◌*◌, ◌<◌, ◌≡◌, refl, ap, [], ◌∷◌, some, arith, replicate, sym,
}
use axon_sdk_for_physical_ai.Sidecar as Sidecar
use axon_sdk_for_physical_ai.Os.{call, call_open}
use axon_sdk_for_physical_ai.Bytes.{Memory, read_bytes}
use axon_sdk_for_physical_ai.Bridge.{
  Producer, Consumer, buffer, view_at, poll_new_consumers, create_producer, map_and_serve, map_loop,
  serve, announced,
}
use axon_sdk_for_physical_ai.Ros.Images.{
  send_frame, has_room, ensure_producer, Image, AxonImage, AxonPublisher, frame_bytes,
  publish_image, on_image, show_image, message_of, renew,
}
use axon_sdk_for_physical_ai.Ros.Images.RoundTrip.{on_image-publish_image, same_some}
use axon_sdk_for_physical_ai.Ros.Images.Generations.{IsFirst, publish_image-show_image}
use axon_sdk_for_physical_ai.Ros.Offload.{AxonProducer, AxonConsumer, summarize}
use axon_sdk_for_physical_ai.Ros.Offload.Runs.{Shares, run, summarize-run}
use axon_sdk_for_physical_ai.Examples.Pools.{pool, willing}
use axon_sdk_for_physical_ai.Examples.Publishers.{server}

abbrev node_producer : Producer
node_producer = record {
  pool = pool;
  views = some 8192 ∷ some 16384 ∷ some 24576 ∷ [];
  server = server;
  buffer_size = 4096;
}

abbrev node_consumer : Consumer
node_consumer = record {
  client = record { sock = some 5 };
  views = some 108192 ∷ some 116384 ∷ some 124576 ∷ [];
  buffer_size = 4096;
  pool_generation = 1;
}

abbrev small_image : Image
small_image = record {
  header = 7;
  height = 2;
  width = 3;
  encoding = [];
  is_bigendian = 0;
  step = 3;
  bytes = 10 ∷ 11 ∷ 12 ∷ 13 ∷ 14 ∷ 15 ∷ [];
}

abbrev image_publisher : AxonPublisher
image_publisher = record { producer = some node_producer; seqno = 4 }

abbrev blank : Memory
blank a = 0

-- The consumer has the producer's buffers mapped 100000 bytes further on.
abbrev moved : Memory → Memory
moved mem a = mem (a - 100000)

abbrev small_message : AxonImage
small_message = record {
  header = 7;
  height = 2;
  width = 3;
  encoding = [];
  is_bigendian = 0;
  step = 3;
  bo_handle = 2;
  seqno = 5;
  pool_generation = 1;
  offset = 0;
  size = 6;
}

small_sent :
    (publish_image 4096 0 small_image image_publisher blank willing).0.0 ≡ some small_message
unfolding publish_image ensure_producer has_room frame_bytes send_frame message_of
    poll_new_consumers
small_sent = refl

abbrev polled : Producer
polled = (poll_new_consumers 0 node_producer willing).0

small_shown :
    (j : ℕ)
    → j < frame_bytes small_image
    → moved (publish_image 4096 0 small_image image_publisher blank willing).0.1.1 (124576 + j)
      ≡ (publish_image 4096 0 small_image image_publisher blank willing).0.1.1 (24576 + j)
small_shown j lt =
    ap (publish_image 4096 0 small_image image_publisher blank willing).0.1.1 (omega arith)

on_image-publish_image_example :
    (on_image
      (λ n. record { fds = []; header = server.header; token = 0 })
      small_message
      (moved (publish_image 4096 0 small_image image_publisher blank willing).0.1.1)
      (some node_consumer)
      willing).0.0
    ≡ some small_image
unfolding publish_image ensure_producer has_room frame_bytes send_frame poll_new_consumers buffer
on_image-publish_image_example =
    on_image-publish_image 4096 0 small_image image_publisher blank willing small_message polled
      24576 124576 node_consumer
      (moved (publish_image 4096 0 small_image image_publisher blank willing).0.1.1)
      (λ n. record { fds = []; header = server.header; token = 0 }) willing refl small_sent refl
      refl refl refl small_shown

-- An image of 5000 bytes: the publisher makes a pool of larger buffers for it.
abbrev large_image : Image
large_image = record small_image { height = 50; width = 100; step = 100 }

abbrev large_message : AxonImage
large_message = record {
  header = 7;
  height = 50;
  width = 100;
  encoding = [];
  is_bigendian = 0;
  step = 100;
  bo_handle = 5;
  seqno = 5;
  pool_generation = 1;
  offset = 0;
  size = 5000;
}

large_sent :
    (publish_image 4096 0 large_image image_publisher blank willing).0.0 ≡ some large_message
unfolding publish_image ensure_producer has_room renew frame_bytes send_frame message_of
    poll_new_consumers create_producer map_and_serve map_loop serve announced create is_nv allocate
    allocate_backend allocate_custom make_sealed_memfd size_and_seal call call_open ready_pool
    new_pool page_round_up Sidecar.create
large_sent = refl

-- A consumer of the first pool, which had eight buffers of 4096 bytes.
abbrev stale_consumer : Consumer
stale_consumer = record {
  client = record { sock = some 5 };
  views = replicate 8 (some 108192);
  buffer_size = 4096;
  pool_generation = 1;
}

image_publisher-IsFirst : IsFirst image_publisher.producer
unfolding IsFirst
image_publisher-IsFirst q e = ap (λ x. x.pool.gen) (sym (same_some node_producer q e))

publish_image-show_image_example :
    IsFirst (publish_image 4096 0 large_image image_publisher blank willing).0.1.0.producer
    × ((img : Image) × (show_image large_message blank stale_consumer ≡ some img)
        × (img.bytes ≡ read_bytes blank 108192 5000))
unfolding frame_bytes
publish_image-show_image_example =
    publish_image-show_image 4096 0 large_image image_publisher blank willing large_message
      stale_consumer 108192 blank image_publisher-IsFirst large_sent refl refl

abbrev node : AxonProducer
node = record { bridge = node_producer; bytes = 4096; seqno = 0 }

abbrev counter : AxonConsumer
counter = record {
  bridge = node_consumer;
  target_frames = 90;
  frames = 0;
  payload_errors = 0;
  stale_sum_us = 0;
  stale_max_us = 0;
}

node_view : (i : ℕ) → i < 3 → buffer node_producer i ≡ some (8192 + 8192 * i)
unfolding buffer
node_view zero lt = refl
node_view (suc zero) lt = refl
node_view (suc (suc zero)) lt = refl
node_view (suc (suc (suc i))) lt = absurd (omega arith)

counter_view : (i : ℕ) → i < 3 → view_at node_consumer.views i ≡ some (108192 + 8192 * i)
counter_view zero lt = refl
counter_view (suc zero) lt = refl
counter_view (suc (suc zero)) lt = refl
counter_view (suc (suc (suc i))) lt = absurd (omega arith)

node-Shares : Shares moved node counter
node-Shares = record {
  generation = refl;
  some_buffers = omega arith;
  view = λ i. 8192 + 8192 * i;
  base = λ i. 108192 + 8192 * i;
  written = node_view;
  mapped = counter_view;
  shown = λ i j mem lt le. ap mem (omega arith);
}

summarize-run_example :
    summarize
      (run
        (λ n. 0)
        (λ n. 100 + n)
        (λ n. 200 + n)
        (λ n. 300 + n)
        moved
        90
        node
        counter
        blank
        willing).0.1.0
    ≡ 0
summarize-run_example =
    summarize-run (λ n. 0) (λ n. 100 + n) (λ n. 200 + n) (λ n. 300 + n) moved 90 node counter blank
      willing node-Shares refl refl (omega arith) (omega arith)
