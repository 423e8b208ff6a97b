-- ===== src/Examples/Subscribers.antt =====
-- A consumer attached to the pool of three buffers, the third of which it could not map.
use axon_sdk_for_physical_ai.Common.{
  subst, ℕ, zero, suc, ◌≡◌, refl, List, [], ◌∷◌, true, false, none, some, arith, Option,
}
use axon_sdk_for_physical_ai.Types.{dtype_size, mul_dims, last_known_good, u16, custom}
use axon_sdk_for_physical_ai.Descriptor.{
  packed_row, image_bytes, row_stride_bytes, pitch_error, TensorDescriptor, clear_descriptor,
  descriptor_error,
}
use axon_sdk_for_physical_ai.Publisher.{publish}
use axon_sdk_for_physical_ai.Subscriber.{
  Subscriber, TensorView, Reading, fence_of, latest_view, servable, n_views, view_of, has_update,
  commit, fallback_view, offset_ptr,
}
use axon_sdk_for_physical_ai.Subscriber.Fences.{empty_ring, lookup_fence, store_all, fence_ring}
use axon_sdk_for_physical_ai.Subscriber.Fences.Window.{
  DistinctTokens, find_recent, lookup_fence-store_all,
}
use axon_sdk_for_physical_ai.Subscriber.Shown.{AllChecked, ShowsNewest, latest_view-ShowsNewest}
use axon_sdk_for_physical_ai.Subscriber.Fallback.{
  after_views, AllSkipped, restamp, latest_view-fallback,
}
use axon_sdk_for_physical_ai.Delivery.{IsAttachedTo, IsDelivered, publish-latest_view}
use axon_sdk_for_physical_ai.Examples.Descriptors.{depth_frame, depth_accepted}
use axon_sdk_for_physical_ai.Examples.Pools.{pool, willing}
use axon_sdk_for_physical_ai.Examples.Publishers.{publisher}

-- Two fences, the newer first.
abbrev fences : List (ℕ × ℕ)
fences = (8, 31) ∷ (7, 30) ∷ []

fences-DistinctTokens : DistinctTokens fences
fences-DistinctTokens zero zero t f g a b = refl
fences-DistinctTokens zero (suc zero) t f g a b = absurd (ground (arith, a, b))
fences-DistinctTokens zero (suc (suc j)) t f g a b = absurd (ground (arith, b))
fences-DistinctTokens (suc zero) zero t f g a b = absurd (ground (arith, a, b))
fences-DistinctTokens (suc zero) (suc zero) t f g a b = refl
fences-DistinctTokens (suc zero) (suc (suc j)) t f g a b = absurd (ground (arith, b))
fences-DistinctTokens (suc (suc i)) j t f g a b = absurd (ground (arith, a))

lookup_fence-store_all_example :
    lookup_fence 7 (store_all fences empty_ring willing).0 ≡ find_recent fence_ring 7 fences
lookup_fence-store_all_example = lookup_fence-store_all fences 7 willing fences-DistinctTokens

abbrev no_view : TensorView
no_view = record {
  data_ptr = none;
  device_ptr = none;
  accel_handle = record { opaque = 0; backend = custom; size_bytes = 0 };
  shape = record { dims = []; rank = 0 };
  dtype = u16;
  staleness_ns = 0;
  seqno = 0;
  sync_fd = none;
  seqlock_retries = 0;
  row_pitch = 0;
  depth_scale = 0;
  invalid_value = 0;
  sample_units = clear_descriptor.sample_units;
  capture_clock = clear_descriptor.capture_clock;
  layout = clear_descriptor.layout;
  capture_ts_ns = 0;
  intr_fx = 0;
  intr_fy = 0;
  intr_cx = 0;
  intr_cy = 0;
  intr_ref_width = 0;
  intr_ref_height = 0;
}

abbrev pub subscriber : Subscriber
subscriber = record {
  client = record { sock = some 19 };
  attached = true;
  fds = 20 ∷ 21 ∷ 22 ∷ [];
  views = some 65536 ∷ some 262144 ∷ none ∷ [];
  buffer_size = 153600;
  pool_generation = 1;
  device_backed = false;
  device_ptrs = [];
  fallback = last_known_good;
  have_last_good = false;
  last_good = no_view;
  last_good_publish_ts_ns = 0;
  handshake_count = 1;
  fallback_count = 0;
  seen_notify = 0;
  seen_seqno = 0;
  ring = empty_ring;
}

-- The depth frame in the second buffer, published at time 70.
abbrev published : TensorDescriptor
published = record depth_frame {
  bo_handle = 1;
  pool_generation = 1;
  seqno = 7;
  producer_publish_ts_ns = 70;
}

abbrev fresh : Reading
fresh = record { notify = some 3; result = some published; retries = 0; now = 90 }

-- A read that gives up after eight retries.
abbrev failed : Reading
failed = record { notify = some 4; result = none; retries = 8; now = 150 }

published-accepted : descriptor_error published 153600 ≡ none
unfolding descriptor_error pitch_error row_stride_bytes image_bytes packed_row mul_dims dtype_size
    clear_descriptor
published-accepted = refl

-- The reading that finds the frame, and one that gives up.
fresh-Checked : AllChecked 153600 (failed ∷ fresh ∷ [])
fresh-Checked = (
  λ d e. absurd (ground (arith, e)),
  (
    λ d e.
        let same : published ≡ d = ground (arith, e) in
        subst (λ x. descriptor_error x 153600 ≡ none) same published-accepted,
    tt,
  ),
)

-- The frame as it is shown again when the second reading gives up.
abbrev again : TensorView
again = record {
  data_ptr = some 262144;
  device_ptr = none;
  accel_handle = record { opaque = 0; backend = custom; size_bytes = 153600 };
  shape = record { dims = published.shape; rank = published.rank };
  dtype = published.dtype;
  staleness_ns = 80;
  seqno = 7;
  sync_fd = none;
  seqlock_retries = 8;
  row_pitch = published.row_pitch;
  depth_scale = published.depth_scale;
  invalid_value = published.invalid_value;
  sample_units = published.sample_units;
  capture_clock = published.capture_clock;
  layout = published.layout;
  capture_ts_ns = published.capture_ts_ns;
  intr_fx = published.intr_fx;
  intr_fy = published.intr_fy;
  intr_cx = published.intr_cx;
  intr_cy = published.intr_cy;
  intr_ref_width = published.intr_ref_width;
  intr_ref_height = published.intr_ref_height;
}

shown_again : (latest_view (after_views subscriber (fresh ∷ [])) failed).0 ≡ some again
unfolding latest_view after_views servable fence_of n_views view_of commit fallback_view offset_ptr
    clear_descriptor
shown_again = refl

latest_view-ShowsNewest_example : ShowsNewest subscriber (failed ∷ fresh ∷ []) again
latest_view-ShowsNewest_example =
    latest_view-ShowsNewest subscriber failed (fresh ∷ []) again refl refl fresh-Checked shown_again

served : servable subscriber fresh ≡ some (published, none)
unfolding servable fence_of n_views clear_descriptor
served = refl

skipped : AllSkipped (latest_view subscriber fresh).1 (failed ∷ failed ∷ [])
unfolding AllSkipped servable
skipped = (refl, (refl, tt))

latest_view-fallback_example :
    ((latest_view (after_views (latest_view subscriber fresh).1 (failed ∷ [])) failed).0
      ≡ some (restamp (view_of subscriber fresh published none) failed 70))
    × ((word : Option ℕ) (read : Option TensorDescriptor)
        → has_update (after_views (latest_view subscriber fresh).1 (failed ∷ failed ∷ [])) word read
          ≡ has_update (latest_view subscriber fresh).1 word read)
latest_view-fallback_example =
    latest_view-fallback subscriber fresh failed published none (failed ∷ []) refl refl served
      skipped

subscriber-IsAttachedTo : IsAttachedTo pool publisher subscriber
subscriber-IsAttachedTo = record {
  up = refl;
  host = refl;
  generation = refl;
  size = refl;
  views = refl;
}

taken : (publish 2 pool 70 (some 1) none publisher willing).0.0 ≡ true
unfolding publish
taken = ground (arith, depth_accepted)

ready : (fence_of depth_frame.sync_fence_kind depth_frame.sync_fence_token empty_ring).1 ≡ true
unfolding fence_of clear_descriptor
ready = refl

abbrev delivered : Reading
delivered = record fresh { result = (publish 2 pool 70 (some 1) none publisher willing).0.1.slot }

publish-latest_view_example :
    (v : TensorView) × ((latest_view subscriber delivered).0 ≡ some v)
    × IsDelivered depth_frame 1
        (publish 2 pool 70 (some 1) none publisher willing).0.1.seqno
        subscriber
        v
publish-latest_view_example =
    publish-latest_view 2 pool 70 1 none publisher willing subscriber delivered
      subscriber-IsAttachedTo (omega arith) taken ready refl
