-- ===== src/Ros/Images.antt =====
-- axon_image_publisher.cpp and axon_image_subscriber.cpp of integrations/ros1_offload: the transport of
-- images. A topic hands a message on as it is; memory is that of the node that runs.
pub mod RoundTrip
pub mod Generations
use axon_sdk_for_physical_ai.Common.{
  ℕ, ◌+◌, ◌*◌, ◌%◌, List, [], ◌∷◌, Bool, true, false, Option, none, some, length, if◌then◌else◌,
  ltb, ◌==◌, not, wrap32, wrap64, min,
}
use axon_sdk_for_physical_ai.Types.{custom}
use axon_sdk_for_physical_ai.Os.{M, ◌>>=◌, ◌>>◌, pure}
use axon_sdk_for_physical_ai.Bytes.{Memory, write_bytes, read_bytes, take}
use axon_sdk_for_physical_ai.Sidecar.Client.{Message}
use axon_sdk_for_physical_ai.Bridge.{
  Producer, create_producer, destroy_producer, poll_new_consumers, buffer, Consumer,
  create_consumer, payload,
}

-- `sensor_msgs::Image`; its header is a number.
pub record Image : Type 0 where
  pub header : ℕ
  pub height : ℕ
  pub width : ℕ
  pub encoding : List ℕ
  pub is_bigendian : ℕ
  pub step : ℕ
  pub bytes : List ℕ

-- `axon_ros1::AxonImage`.
pub record AxonImage : Type 0 where
  pub header : ℕ
  pub height : ℕ
  pub width : ℕ
  pub encoding : List ℕ
  pub is_bigendian : ℕ
  pub step : ℕ
  pub bo_handle : ℕ
  pub seqno : ℕ
  pub pool_generation : ℕ
  pub offset : ℕ
  pub size : ℕ

-- `AxonPublisher`.
pub record AxonPublisher : Type 0 where
  pub producer : Option Producer
  pub seqno : ℕ

unfoldable pub frame_bytes : Image → ℕ
frame_bytes image = wrap64 (image.step * image.height)

-- Whether there is a producer whose buffers have room.
unfoldable pub has_room : Option Producer → ℕ → Bool
has_room none n = false
has_room (some p) n = not (ltb p.buffer_size n)

abbrev destroy_old : Option Producer → M (Unit {0})
destroy_old none = pure tt
destroy_old (some p) = destroy_producer p

-- The assignment of a new producer, which destroys the old one once the new one is made, or is not.
unfoldable pub renew : ℕ → ℕ → Option Producer → M (Option Producer)
renew pg n old = do made ← create_producer pg 8 n custom; destroy_old old; pure made

unfoldable pub ensure_producer : ℕ → ℕ → Option Producer → M (Option Producer)
ensure_producer pg n old = if has_room old n then pure old else renew pg n old

unfoldable pub message_of : Image → ℕ → ℕ → Producer → AxonImage
message_of image seqno idx p = record {
  header = image.header;
  height = image.height;
  width = image.width;
  encoding = image.encoding;
  is_bigendian = image.is_bigendian;
  step = image.step;
  bo_handle = idx;
  seqno = seqno;
  pool_generation = wrap32 p.pool.gen;
  offset = 0;
  size = frame_bytes image;
}

-- The copy into a buffer. `Producer::create` maps each buffer, so there is a view.
unfoldable pub copy_frame : Option ℕ → List ℕ → Memory → Memory
copy_frame none bytes mem = mem
copy_frame (some view) bytes mem = write_bytes view bytes mem

-- `publish`, with a producer that has room.
unfoldable pub send_frame :
    ℕ → Image → ℕ → Producer → Memory → M (Option AxonImage × (AxonPublisher × Memory))
send_frame fuel image before p mem = do
  q ← poll_new_consumers fuel p
  let seqno = wrap64 (before + 1)
  let idx = seqno % length q.views
  pure (
    some (message_of image seqno idx q),
    (
      record { producer = some q; seqno = seqno },
      copy_frame (buffer q idx) (take (min (frame_bytes image) (length image.bytes)) image.bytes)
          mem,
    ),
  )

-- `AxonPublisher::publish`: the message for the topic, if there is one.
unfoldable pub publish_image :
    ℕ → ℕ → Image → AxonPublisher → Memory → M (Option AxonImage × (AxonPublisher × Memory))
publish_image pg fuel image p mem = if frame_bytes image == 0 then pure (none, (p, mem)) else do
  held ← ensure_producer pg (frame_bytes image) p.producer
  elim held [
    | none ↦ pure (none, (record p { producer = none }, mem))
    | some q ↦ send_frame fuel image p.seqno q mem
  ]

unfoldable pub image_of : AxonImage → Memory → ℕ → Image
image_of m mem base = record {
  header = m.header;
  height = m.height;
  width = m.width;
  encoding = m.encoding;
  is_bigendian = m.is_bigendian;
  step = m.step;
  bytes = read_bytes mem base m.size;
}

-- `internalCallback` from the check of the generation on: the image for the user's callback, if any.
unfoldable pub show_image : AxonImage → Memory → Consumer → Option Image
show_image m mem c =
    if not (m.pool_generation == c.pool_generation)
    then none
    else elim (payload c m.bo_handle m.offset) [
      | none ↦ none
      | some base ↦ some (image_of m mem base)
    ]

-- `AxonSubscriber::internalCallback`, which attaches to the sidecar on the first message.
unfoldable pub on_image :
    (ℕ → Message) → AxonImage → Memory → Option Consumer → M (Option Image × Option Consumer)
on_image inbox m mem (some c) = pure (show_image m mem c, some c)
on_image inbox m mem none = do
  made ← create_consumer inbox 5000
  elim made [ none ↦ pure (none, none) | some c ↦ pure (show_image m mem c, some c) ]
