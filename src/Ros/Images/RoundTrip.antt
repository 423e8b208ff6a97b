-- ===== src/Ros/Images/RoundTrip.antt =====
-- integrations/ros1_offload: an image from `publish` to the callback of a subscriber.
use axon_sdk_for_physical_ai.Common.{
  ℕ, ◌+◌, ◌%◌, ◌<◌, ◌≡◌, refl, sym, ap, ◌∙◌, subst, none, some, length, ◌==◌, wrap32, wrap64, min,
  arith, Bool-cases, Option-cases, inl, inr,
}
use axon_sdk_for_physical_ai.Os.{Os}
use axon_sdk_for_physical_ai.Bytes.{
  Memory, write_bytes, read_bytes, take, take-all, write_bytes-at, read_bytes-shown,
}
use axon_sdk_for_physical_ai.Sidecar.Client.{Message}
use axon_sdk_for_physical_ai.Bridge.{
  Producer, poll_new_consumers, buffer, Consumer, payload, view_at,
}
use axon_sdk_for_physical_ai.Ros.Images.{
  Image, AxonImage, AxonPublisher, frame_bytes, ensure_producer, message_of, copy_frame, send_frame,
  publish_image, image_of, show_image, on_image,
}

-- A message that `publish` sends is that of its producer, which has room for the frame or has been made
-- for it, and the frame stands in the buffer of the message.
pub record IsSent (image : Image) (p : AxonPublisher) (mem : Memory) (m : AxonImage) (q : Producer)
    (after : AxonPublisher × Memory) : Type 0 where
  pub number : m.seqno ≡ wrap64 (p.seqno + 1)
  pub index : m.bo_handle ≡ m.seqno % length q.views
  pub message : m ≡ message_of image m.seqno m.bo_handle q
  pub holder : after.0.producer ≡ some q
  pub copied :
      after.1
      ≡ copy_frame
          (buffer q m.bo_handle)
          (take (min (frame_bytes image) (length image.bytes)) image.bytes)
          mem

send_frame-IsSent :
    (fuel : ℕ) (image : Image) (p : AxonPublisher) (held : Producer) (mem : Memory) (os : Os)
    (m : AxonImage)
    → (send_frame fuel image p.seqno held mem os).0.0 ≡ some m
    → (q : Producer) × (q ≡ (poll_new_consumers fuel held os).0)
      × IsSent image p mem m q (send_frame fuel image p.seqno held mem os).0.1
unfolding send_frame message_of
send_frame-IsSent fuel image p held mem os m e =
    let q = (poll_new_consumers fuel held os).0 in
    let n = wrap64 (p.seqno + 1) in
    let same : message_of image n (n % length q.views) q ≡ m = ground (arith, e) in
    (
      q,
      refl,
      subst (λ x. IsSent image p mem x q (send_frame fuel image p.seqno held mem os).0.1) same
          (record { number = refl; index = refl; message = refl; holder = refl; copied = refl }),
    )

-- The producer that a message was sent with.
pub publish_image-IsSent :
    (pg fuel : ℕ) (image : Image) (p : AxonPublisher) (mem : Memory) (os : Os) (m : AxonImage)
    → (publish_image pg fuel image p mem os).0.0 ≡ some m
    → (held : Producer) × (t : Os) × (ensure_producer pg (frame_bytes image) p.producer os
        ≡ (some held, t))
      × ((q : Producer) × (q ≡ (poll_new_consumers fuel held t).0)
          × IsSent image p mem m q (publish_image pg fuel image p mem os).0.1)
unfolding publish_image
publish_image-IsSent pg fuel image p mem os m e = elim (Bool-cases (frame_bytes image == 0)) [
  | inl empty ↦ absurd (ground (arith, empty, e))
  | inr full ↦
      let r = ensure_producer pg (frame_bytes image) p.producer os in
      elim (Option-cases r.0) [
        | inl out ↦ absurd (ground (arith, full, out, e))
        | inr (held, at) ↦
            let step : send_frame fuel image p.seqno held mem r.1
                ≡ publish_image pg fuel image p mem os =
              ground (arith, full, at) in
            let sent = send_frame-IsSent fuel image p held mem r.1 m (ap (λ x. x.0.0) step ∙ e) in
            (
              held,
              r.1,
              ap (λ x. (x, r.1)) at,
              subst
                  (λ x.
                    (q : Producer) × (q ≡ (poll_new_consumers fuel held r.1).0)
                    × IsSent image p mem m q x.0.1)
                  step sent,
            )
      ]
]

pub same_some {ℓ} : {A : Type ℓ} (a b : A) → some a ≡ some b → a ≡ b
same_some a b e = ap (λ o. elim o [ none ↦ a | some x ↦ x ]) e

image_of-message_of :
    (image : Image) (n i : ℕ) (q : Producer) (seen : Memory) (base : ℕ)
    → read_bytes seen base (frame_bytes image) ≡ image.bytes
    → image_of (message_of image n i q) seen base ≡ image
unfolding image_of message_of
image_of-message_of image n i q seen base e = ap (λ b. record image { bytes = b }) e

-- The frame that a consumer reads, if its memory shows what the buffer holds.
read_frame :
    (image : Image) (view base : ℕ) (mem seen : Memory)
    → length image.bytes ≡ frame_bytes image
    → ((j : ℕ)
        → j < frame_bytes image
        → seen (base + j)
          ≡ copy_frame
              (some view)
              (take (min (frame_bytes image) (length image.bytes)) image.bytes)
              mem
              (view + j))
    → read_bytes seen base (frame_bytes image) ≡ image.bytes
unfolding copy_frame
read_frame image view base mem seen full same =
    let count : min (frame_bytes image) (length image.bytes) ≡ length image.bytes =
      omega (arith, full) in
    let whole : take (min (frame_bytes image) (length image.bytes)) image.bytes ≡ image.bytes =
      ap (λ n. take n image.bytes) count ∙ take-all image.bytes in
    subst (λ n. read_bytes seen base n ≡ image.bytes) full
      (read_bytes-shown seen base image.bytes (λ j lt.
        same j (omega (arith, full))
        ∙ ap (λ b. write_bytes view b mem (view + j)) whole
        ∙ write_bytes-at view j image.bytes mem lt))

pub show_image-shown :
    (m : AxonImage) (seen : Memory) (c : Consumer) (base : ℕ)
    → m.pool_generation ≡ c.pool_generation
    → payload c m.bo_handle m.offset ≡ some base
    → show_image m seen c ≡ some (image_of m seen base)
unfolding show_image
show_image-shown m seen c base gen at = ground (arith, gen, at)

pub payload-zero :
    (c : Consumer) (i base : ℕ) → view_at c.views i ≡ some base → payload c i 0 ≡ some base
unfolding payload
payload-zero c i base at = ground (arith, at)

-- An image whose bytes are as many as its step and height say, and for which `publish` sends a message, is
-- what the callback of a subscriber gets for that message, field by field and byte by byte: if the
-- subscriber has attached to a pool with the generation of the producer's, has mapped the buffer, and
-- its memory shows there what the producer's shows at its view of the buffer.
pub on_image-publish_image :
    (pg fuel : ℕ) (image : Image) (p : AxonPublisher) (mem : Memory) (os : Os) (m : AxonImage)
    (q : Producer) (view base : ℕ) (c : Consumer) (seen : Memory) (inbox : ℕ → Message) (t : Os)
    → length image.bytes ≡ frame_bytes image
    → (publish_image pg fuel image p mem os).0.0 ≡ some m
    → (publish_image pg fuel image p mem os).0.1.0.producer ≡ some q
    → c.pool_generation ≡ wrap32 q.pool.gen
    → buffer q m.bo_handle ≡ some view
    → view_at c.views m.bo_handle ≡ some base
    → ((j : ℕ)
        → j < frame_bytes image
        → seen (base + j) ≡ (publish_image pg fuel image p mem os).0.1.1 (view + j))
    → (on_image inbox m seen (some c) t).0.0 ≡ some image
unfolding on_image message_of
on_image-publish_image pg fuel image p mem os m q view base c seen inbox t full sent holds gen at
      there same =
    let (held, u, kept, (q0, polled, is)) = publish_image-IsSent pg fuel image p mem os m sent in
    let same_q : q0 ≡ q = same_some q0 q (sym is.holder ∙ holds) in
    let message : m ≡ message_of image m.seqno m.bo_handle q =
      is.message ∙ ap (message_of image m.seqno m.bo_handle) same_q in
    let frame = take (min (frame_bytes image) (length image.bytes)) image.bytes in
    let copied : (publish_image pg fuel image p mem os).0.1.1 ≡ copy_frame (some view) frame mem =
      is.copied
      ∙ ap (λ x. copy_frame (buffer x m.bo_handle) frame mem) same_q
      ∙ ap (λ x. copy_frame x frame mem) at in
    let read =
      read_frame image view base mem seen full
        (λ j lt. same j lt ∙ ap (λ f. f (view + j)) copied) in
    let from_start : payload c m.bo_handle m.offset ≡ some base =
      ap (λ x. payload c m.bo_handle x.offset) message ∙ payload-zero c m.bo_handle base there in
    show_image-shown m seen c base (ap (λ x. x.pool_generation) message ∙ sym gen) from_start
    ∙ ap (λ x. some (image_of x seen base)) message
    ∙ ap some (image_of-message_of image m.seqno m.bo_handle q seen base read)
