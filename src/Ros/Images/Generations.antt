-- ===== src/Ros/Images/Generations.antt =====
-- integrations/ros1_offload: the generations of the pools that `AxonPublisher` makes.
use axon_sdk_for_physical_ai.Common.{
  ℕ, ◌≡◌, refl, sym, ap, ◌∙◌, subst, List, [], Option, some, wrap32, arith, Bool-cases,
  Option-cases, inl, inr,
}
use axon_sdk_for_physical_ai.Types.{custom, PoolBackend}
use axon_sdk_for_physical_ai.Os.{Os}
use axon_sdk_for_physical_ai.Bytes.{Memory, read_bytes}
use axon_sdk_for_physical_ai.Pool.{TensorPool}
use axon_sdk_for_physical_ai.Pool.Alloc as Alloc
use axon_sdk_for_physical_ai.Pool.Created.{create-Allocated}
use axon_sdk_for_physical_ai.Bridge.{
  Producer, Consumer, view_at, create_producer, producer_config, map_and_serve, map_loop, serve,
  give_up_producer, announced, poll_new_consumers, payload,
}
use axon_sdk_for_physical_ai.Ros.Images.{
  Image, AxonImage, AxonPublisher, frame_bytes, has_room, renew, ensure_producer, message_of,
  publish_image, show_image, image_of,
}
use axon_sdk_for_physical_ai.Ros.Images.RoundTrip.{
  publish_image-IsSent, show_image-shown, payload-zero, same_some,
}

-- The pool of the publisher, if it has one, is of the first generation.
unfoldable pub IsFirst : Option Producer → Type 0
IsFirst o = (q : Producer) → o ≡ some q → q.pool.gen ≡ 1

serve-pool :
    (b : PoolBackend) (size : ℕ) (pool : TensorPool) (views : List (Option ℕ)) (s : Os)
    (q : Producer)
    → (serve b size pool views s).0 ≡ some q
    → q.pool ≡ pool
unfolding serve announced give_up_producer
serve-pool b size pool views s q e = ground (arith, e)

map_and_serve-pool :
    (b : PoolBackend) (size : ℕ) (pool : TensorPool) (s : Os) (q : Producer)
    → (map_and_serve b size pool s).0 ≡ some q
    → q.pool ≡ pool
unfolding map_and_serve give_up_producer
map_and_serve-pool b size pool s q e =
    let r = map_loop pool.share_fds [] s in
    elim (Bool-cases r.0.0) [
      | inr out ↦ absurd (ground (arith, out, e))
      | inl all ↦ serve-pool b size pool r.0.1 r.1 q (ground (arith, all, e))
    ]

create_producer-IsFirst :
    (pg n size : ℕ) (b : PoolBackend) (s : Os) → IsFirst (create_producer pg n size b s).0
unfolding create_producer IsFirst
create_producer-IsFirst pg n size b s q e =
    let r = Alloc.create pg (producer_config n size b) s in
    elim (Option-cases r.0) [
      | inl out ↦ absurd (ground (arith, out, e))
      | inr (pool, made) ↦
          let same = map_and_serve-pool b size pool r.1 q (ground (arith, made, e)) in
          ap (λ x. x.gen) same
          ∙ (create-Allocated pg (producer_config n size b) s pool made).generation
    ]

ensure_producer-IsFirst :
    (pg n : ℕ) (old : Option Producer) (s : Os)
    → IsFirst old
    → IsFirst (ensure_producer pg n old s).0
unfolding ensure_producer renew
ensure_producer-IsFirst pg n old s first = elim (Bool-cases (has_room old n)) [
  | inl room ↦ subst IsFirst (ground (arith, room)) first
  | inr new ↦ subst IsFirst (ground (arith, new)) (create_producer-IsFirst pg 8 n custom s)
]

poll-pool : (fuel : ℕ) (p : Producer) (s : Os) → (poll_new_consumers fuel p s).0.pool ≡ p.pool
unfolding poll_new_consumers
poll-pool fuel p s = refl

-- A publisher whose pool is of the first generation sends frames of that generation only, also the first
-- frame of a pool that it has made anew: so a consumer that has mapped any pool of the first generation, and
-- has a view of the buffer that the message names, shows the message whatever the size of its own buffers,
-- with as many bytes from its mapping on as the frame has.
pub publish_image-show_image :
    (pg fuel : ℕ) (image : Image) (p : AxonPublisher) (mem : Memory) (os : Os) (m : AxonImage)
    (c : Consumer) (base : ℕ) (seen : Memory)
    → IsFirst p.producer
    → (publish_image pg fuel image p mem os).0.0 ≡ some m
    → c.pool_generation ≡ 1
    → view_at c.views m.bo_handle ≡ some base
    → IsFirst (publish_image pg fuel image p mem os).0.1.0.producer
      × ((img : Image) × (show_image m seen c ≡ some img)
          × (img.bytes ≡ read_bytes seen base (frame_bytes image)))
unfolding IsFirst message_of image_of
publish_image-show_image pg fuel image p mem os m c base seen first sent gen there =
    let (held, u, kept, (q, polled, is)) = publish_image-IsSent pg fuel image p mem os m sent in
    let held_first : held.pool.gen ≡ 1 =
      ensure_producer-IsFirst pg (frame_bytes image) p.producer os first held
        (ap (λ x. x.0) kept) in
    let q_first : q.pool.gen ≡ 1 =
      ap (λ x. x.pool.gen) polled ∙ ap (λ x. x.gen) (poll-pool fuel held u) ∙ held_first in
    let from_start : payload c m.bo_handle m.offset ≡ some base =
      ap (λ x. payload c m.bo_handle x.offset) is.message ∙ payload-zero c m.bo_handle base there in
    let generation : m.pool_generation ≡ 1 =
      ap (λ x. x.pool_generation) is.message ∙ ap wrap32 q_first in
    (
      λ x e. subst (λ y. y.pool.gen ≡ 1) (same_some q x (sym is.holder ∙ e)) q_first,
      (
        image_of m seen base,
        show_image-shown m seen c base (generation ∙ sym gen) from_start,
        ap (λ x. read_bytes seen base x.size) is.message,
      ),
    )
