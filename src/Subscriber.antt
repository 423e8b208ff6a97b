-- ===== src/Subscriber.antt =====
-- include/axon/subscriber.h and src/subscriber.cpp: the consumer's state, and how `latest_view` makes a
-- view of the newest descriptor or falls back. Without CUDA and Jetson support `device_ptrs` stays empty.
pub mod Fences
pub mod View
pub mod Fallback
pub mod Mapping
pub mod Shown
pub mod Attach
pub mod Drain
pub mod Deadline
pub mod Wait
pub mod Ledger
pub mod Reattach
pub mod Devices
use axon_sdk_for_physical_ai.Common.{
  ℕ, ◌+◌, List, Bool, true, false, Option, none, some, map, length, get_or, if◌then◌else◌, ltb,
  ◌==◌, not, sub64, wrap64, ◌&&◌,
}
use axon_sdk_for_physical_ai.Types.{
  Shape, DType, SampleUnits, CaptureClock, TensorLayout, FallbackPolicy, last_known_good,
  zero_command, user_callback, abort_loop, AcceleratorHandle, custom, SyncFenceKind, no_fence,
  dma_resv_implicit, sync_file_via_sidecar, unnamed_kind,
}
use axon_sdk_for_physical_ai.Descriptor.{TensorDescriptor}
use axon_sdk_for_physical_ai.Sidecar.Client.{SidecarClient}
use axon_sdk_for_physical_ai.Subscriber.Fences.{FenceRing, lookup_fence}

-- `TensorView`. A pointer is an address, and `none` is the null pointer; `sync_fd` is `none` for -1.
pub record TensorView : Type 0 where
  pub data_ptr : Option ℕ
  pub device_ptr : Option ℕ
  pub accel_handle : AcceleratorHandle
  pub shape : Shape
  pub dtype : DType
  pub staleness_ns : ℕ
  pub seqno : ℕ
  pub sync_fd : Option ℕ
  pub seqlock_retries : ℕ
  pub row_pitch : ℕ
  pub depth_scale : ℕ
  pub invalid_value : ℕ
  pub sample_units : SampleUnits
  pub capture_clock : CaptureClock
  pub layout : TensorLayout
  pub capture_ts_ns : ℕ
  pub intr_fx : ℕ
  pub intr_fy : ℕ
  pub intr_cx : ℕ
  pub intr_cy : ℕ
  pub intr_ref_width : ℕ
  pub intr_ref_height : ℕ

-- `TensorSubscriber::Impl`. `attached` is whether `meta` is set.
pub record Subscriber : Type 0 where
  pub client : SidecarClient
  pub attached : Bool
  pub fds : List ℕ
  pub views : List (Option ℕ)
  pub buffer_size : ℕ
  pub pool_generation : ℕ
  pub device_backed : Bool
  pub device_ptrs : List (Option ℕ)
  pub fallback : FallbackPolicy
  pub have_last_good : Bool
  pub last_good : TensorView
  pub last_good_publish_ts_ns : ℕ
  pub handshake_count : ℕ
  pub fallback_count : ℕ
  pub seen_notify : ℕ
  pub seen_seqno : ℕ
  pub ring : FenceRing

-- What one call of `latest_view` meets: the notify word, if the slot has one; what `read_latest`
-- returns, and its retries; and `rt_now_ns()`.
pub record Reading : Type 0 where
  pub notify : Option ℕ
  pub result : Option TensorDescriptor
  pub retries : ℕ
  pub now : ℕ

-- The fence of a descriptor, and whether the frame may be handed out.
unfoldable pub fence_of : SyncFenceKind → ℕ → FenceRing → Option ℕ × Bool
fence_of sync_file_via_sidecar token ring =
    (lookup_fence token ring, elim (lookup_fence token ring) [ none ↦ false | some fd ↦ true ])
fence_of no_fence token ring = (none, true)
fence_of dma_resv_implicit token ring = (none, true)
fence_of (unnamed_kind b) token ring = (none, true)

unfoldable pub n_views : Subscriber → ℕ
n_views s = if s.device_backed then length s.device_ptrs else length s.views

-- The descriptor and the fence to hand out, if the read, the generation, the fence and the index allow.
unfoldable pub servable : Subscriber → Reading → Option (TensorDescriptor × Option ℕ)
servable s r = elim r.result [
  | none ↦ none
  | some d ↦
      let (fence, ready) = fence_of d.sync_fence_kind d.sync_fence_token s.ring in
      if (d.pool_generation == s.pool_generation) && ready && ltb d.bo_handle (n_views s)
      then some (d, fence)
      else none
]

abbrev pub host_ptr : Subscriber → ℕ → Option ℕ
host_ptr s idx = if s.device_backed then none else get_or s.views idx none

unfoldable pub offset_ptr : Option ℕ → ℕ → Option ℕ
offset_ptr none offset = none
offset_ptr (some base) offset = some (base + offset)

unfoldable pub view_of : Subscriber → Reading → TensorDescriptor → Option ℕ → TensorView
view_of s r d fence = record {
  data_ptr = offset_ptr (host_ptr s d.bo_handle) d.offset;
  device_ptr = offset_ptr (get_or s.device_ptrs d.bo_handle none) d.offset;
  accel_handle = record { opaque = 0; backend = custom; size_bytes = s.buffer_size };
  shape = record { dims = d.shape; rank = d.rank };
  dtype = d.dtype;
  staleness_ns = sub64 r.now d.producer_publish_ts_ns;
  seqno = d.seqno;
  sync_fd = fence;
  seqlock_retries = r.retries;
  row_pitch = d.row_pitch;
  depth_scale = d.depth_scale;
  invalid_value = d.invalid_value;
  sample_units = d.sample_units;
  capture_clock = d.capture_clock;
  layout = d.layout;
  capture_ts_ns = d.capture_ts_ns;
  intr_fx = d.intr_fx;
  intr_fy = d.intr_fy;
  intr_cx = d.intr_cx;
  intr_cy = d.intr_cy;
  intr_ref_width = d.intr_ref_width;
  intr_ref_height = d.intr_ref_height;
}

-- What a served frame leaves behind: the stored copy owns no fence.
unfoldable pub commit : Subscriber → Reading → TensorDescriptor → Subscriber
commit s r d = record s {
  last_good = view_of s r d none;
  last_good_publish_ts_ns = d.producer_publish_ts_ns;
  have_last_good = true;
  seen_notify = elim r.notify [ none ↦ 0 | some word ↦ word ];
  seen_seqno = d.seqno;
}

unfoldable pub fallback_view : FallbackPolicy → Subscriber → Reading → Option TensorView
fallback_view last_known_good s r =
    if s.have_last_good
    then some (record s.last_good {
      staleness_ns = sub64 r.now s.last_good_publish_ts_ns;
      seqlock_retries = r.retries;
    })
    else none
fallback_view zero_command s r = none
fallback_view user_callback s r = none
fallback_view abort_loop s r = none

unfoldable pub latest_view : Subscriber → Reading → Option TensorView × Subscriber
latest_view s r = if not s.attached then (none, s) else elim (servable s r) [
  | some (d, fence) ↦ (some (view_of s r d fence), commit s r d)
  | none ↦
      (fallback_view s.fallback s r, record s { fallback_count = wrap64 (s.fallback_count + 1) })
]

unfoldable pub set_fallback_policy : FallbackPolicy → Subscriber → Subscriber
set_fallback_policy p s = record s { fallback = p }

unfoldable pub pool_handshake_count : Subscriber → ℕ
pool_handshake_count s = s.handshake_count

unfoldable pub fallback_invocation_count : Subscriber → ℕ
fallback_invocation_count s = s.fallback_count

-- `has_update`: with a notify word, whether it has moved; else whether `read_latest` returns another
-- sequence number.
unfoldable pub has_update : Subscriber → Option ℕ → Option TensorDescriptor → Bool
has_update s (some word) read = not (word == s.seen_notify)
has_update s none none = false
has_update s none (some d) = not (d.seqno == s.seen_seqno)
