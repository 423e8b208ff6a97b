-- ===== src/Python/Overrun.antt =====
-- python/axon_py.cpp: how many bytes the array shows that `latest_view` makes.
use axon_sdk_for_physical_ai.Common.{
  ℕ, ◌+◌, ◌-◌, ◌*◌, ◌%◌, ◌≤◌, ◌≡◌, ◌≢◌, refl, ap, sym, ◌∙◌, none, some, arith, length, get_or,
}
use axon_sdk_for_physical_ai.Types.{DType, dtype_size}
use axon_sdk_for_physical_ai.Os.{Os}
use axon_sdk_for_physical_ai.Pool.{TensorPool}
use axon_sdk_for_physical_ai.Publisher.{TensorPublisher, acquire_descriptor}
use axon_sdk_for_physical_ai.Subscriber.{Subscriber, Reading}
use axon_sdk_for_physical_ai.Delivery.{IsAttachedTo}
use axon_sdk_for_physical_ai.Bytes.{Memory}
use axon_sdk_for_physical_ai.Python.Publish.{stage_array, BufferInfo, publish_array}
use axon_sdk_for_physical_ai.Python.Views.{PyView, py_latest_view}
use axon_sdk_for_physical_ai.Python.Arrays.{IsArray, elements, small_elements}
use axon_sdk_for_physical_ai.Python.Copied.{
  publish_array-IsCopied, publish_staged-publish, staged_bytes,
}
use axon_sdk_for_physical_ai.Python.RoundTrip.{IsReceived, publish_array-py_latest_view}
use axon_sdk_for_physical_ai.Python.Devices.{view_bytes, text_size, cai_typestr-numpy_dtype}

received-view_bytes :
    (info : BufferInfo) (t : DType) (n base : ℕ) (mem seen : Memory) (v : PyView)
    → IsArray info
    → dtype_size t ≢ 0
    → IsReceived info t n base mem seen v
    → view_bytes v.array ≡ info.size * dtype_size t
unfolding view_bytes
received-view_bytes info t n base mem seen v h known is =
    ap (λ a. elements a.shape * text_size a.dtype) is.array
    ∙ rw ((cai_typestr-numpy_dtype t known).0, sym h.sized) refl

-- What the consumer's memory shows if its mapping at `base` is that of the producer at `view`.
abbrev shared_memory : Memory → ℕ → ℕ → Memory
shared_memory mem view base a = mem (view + (a - base))

-- An array that `publish` takes without an exception, and whose bytes fit the mapping therefore, is shown
-- to the consumer at the start of the mapping as an array of as many elements, each of the size of the
-- type that the caller named: the array's own element size plays no part in it.
pub publish_array-view_bytes :
    (fuel : ℕ) (pool : TensorPool) (now : ℕ) (info : BufferInfo) (t : DType) (p : TensorPublisher)
    (mem : Memory) (os : Os) (s : Subscriber) (r : Reading) (view base : ℕ)
    → IsArray info
    → IsAttachedTo pool p s
    → (publish_array fuel pool now info t p mem os).0.0 ≡ none
    → r.result ≡ (publish_array fuel pool now info t p mem os).0.1.0.slot
    → get_or p.host_views (p.next_index % length pool.share_fds) none ≡ some view
    → get_or s.views (p.next_index % length pool.share_fds) none ≡ some base
    → (v : PyView) × ((py_latest_view s r).0 ≡ some v)
      × (v.array.start ≡ some base)
      × (view_bytes v.array ≡ info.size * dtype_size t)
      × (info.size * info.itemsize ≤ s.buffer_size)
publish_array-view_bytes fuel pool now info t p mem os s r view base h up fine read at there =
    let (i, w, c) = publish_array-IsCopied fuel pool now info t p mem os fine in
    let q = (acquire_descriptor pool p).1 in
    let taken =
      publish_staged-publish fuel pool now i (record q { staging = stage_array info t q.staging })
        os (sym (ap (λ x. x.0.0) c.result) ∙ fine) in
    let some_bytes = staged_bytes fuel pool now i info t q os taken.0 in
    let after = (publish_array fuel pool now info t p mem os).0.1.1 in
    let (v, shown, is) =
      publish_array-py_latest_view fuel pool now info t p mem os s r view base
        (shared_memory after view base) h up fine read at there
        (λ j lt. ap (λ x. after (view + x)) (omega arith)) in
    (
      v,
      shown,
      ap (λ a. a.start) is.array,
      received-view_bytes info t (publish_array fuel pool now info t p mem os).0.1.0.seqno base mem
          (shared_memory after view base) v h some_bytes.1 is,
      omega (arith, c.fits, up.size, (small_elements info h some_bytes.0).1),
    )
