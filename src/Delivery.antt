-- ===== src/Delivery.antt =====
-- A frame from `publish` of src/publisher.cpp to `latest_view` of src/subscriber.cpp.
use axon_sdk_for_physical_ai.Common.{
  ℕ, ◌+◌, ◌≤◌, ◌<◌, ◌≡◌, refl, sym, true, false, Option, none, some, arith, inl, inr, ◌∙◌, ap,
  length, get_or,
}
use axon_sdk_for_physical_ai.Descriptor.{TensorDescriptor}
use axon_sdk_for_physical_ai.Descriptor.Errors.{error-none→publishable}
use axon_sdk_for_physical_ai.Os.{Os}
use axon_sdk_for_physical_ai.Pool.{TensorPool}
use axon_sdk_for_physical_ai.Publisher.{TensorPublisher, publish, stamp}
use axon_sdk_for_physical_ai.Publisher.Steps.{publish_total}
use axon_sdk_for_physical_ai.Subscriber.{
  TensorView, Subscriber, Reading, fence_of, servable, view_of, latest_view, offset_ptr, n_views,
}
use axon_sdk_for_physical_ai.Subscriber.View.{latest_view-served}

-- A subscriber that has attached to the pool as it is now, on host-mapped buffers.
pub record IsAttachedTo (pool : TensorPool) (p : TensorPublisher) (s : Subscriber) : Type 0 where
  pub up : s.attached ≡ true
  pub host : s.device_backed ≡ false
  pub generation : s.pool_generation ≡ pool.gen
  pub size : s.buffer_size ≡ p.buffer_size
  pub views : length s.views ≡ length pool.share_fds

-- What the consumer sees of the staged descriptor `d`, published from buffer `i` as frame `seqno`.
pub record IsDelivered (d : TensorDescriptor) (i seqno : ℕ) (s : Subscriber) (v : TensorView)
    : Type 0 where
  pub number : v.seqno ≡ seqno
  pub dims : v.shape.dims ≡ d.shape
  pub rank : v.shape.rank ≡ d.rank
  pub dtype : v.dtype ≡ d.dtype
  pub pitch : v.row_pitch ≡ d.row_pitch
  pub pointer : v.data_ptr ≡ offset_ptr (get_or s.views i none) d.offset
  pub within : d.offset + d.size ≤ s.buffer_size

stamped-servable :
    (pool : TensorPool) (now i : ℕ) (p : TensorPublisher) (s : Subscriber) (r : Reading)
    → IsAttachedTo pool p s
    → i < length pool.share_fds
    → (fence_of p.staging.sync_fence_kind p.staging.sync_fence_token s.ring).1 ≡ true
    → r.result ≡ some (stamp pool now (some i) p)
    → servable s r
      ≡ some (
        stamp pool now (some i) p,
        (fence_of p.staging.sync_fence_kind p.staging.sync_fence_token s.ring).0,
      )
unfolding servable stamp n_views
stamped-servable pool now i p s r h lt ready read =
    ground (arith, h.host, h.generation, h.views, ready, read)

-- A frame that `publish` accepts from buffer `i` is what the next `latest_view` of an attached subscriber
-- returns if it reads the slot and the frame's fence, if it has one, has been drained: the view has the
-- frame's sequence number, shape, type and pitch, and points at the staged offset of view `i`, whose
-- range fits the mapping.
pub publish-latest_view :
    (fuel : ℕ) (pool : TensorPool) (now i : ℕ) (sync_fd : Option ℕ) (p : TensorPublisher) (os : Os)
    (s : Subscriber) (r : Reading)
    → IsAttachedTo pool p s
    → i < length pool.share_fds
    → (publish fuel pool now (some i) sync_fd p os).0.0 ≡ true
    → (fence_of p.staging.sync_fence_kind p.staging.sync_fence_token s.ring).1 ≡ true
    → r.result ≡ (publish fuel pool now (some i) sync_fd p os).0.1.slot
    → (v : TensorView) × ((latest_view s r).0 ≡ some v)
      × IsDelivered p.staging i (publish fuel pool now (some i) sync_fd p os).0.1.seqno s v
unfolding view_of stamp
publish-latest_view fuel pool now i sync_fd p os s r h lt taken ready read =
    elim (publish_total fuel pool now (some i) sync_fd p os) [
      | inl (e, out, denied, f) ↦ absurd (ground (arith, denied, taken))
      | inr (ok, accepted, f) ↦
          let d = stamp pool now (some i) p in
          let fence = (fence_of p.staging.sync_fence_kind p.staging.sync_fence_token s.ring).0 in
          let served = stamped-servable pool now i p s r h lt ready (read ∙ f.shown) in
          (
            view_of s r d fence,
            ap (λ x. x.0) (latest_view-served s r d fence h.up served),
            record {
              number = sym f.numbered;
              dims = refl;
              rank = refl;
              dtype = refl;
              pitch = refl;
              pointer = rw h.host refl;
              within = rw h.size ((error-none→publishable p.staging p.buffer_size ok).inside);
            },
          )
    ]
