-- ===== src/Python/RoundTrip.antt =====
-- python/axon_py.cpp: from the array that `publish` copies to the array that `latest_view` shows.
use axon_sdk_for_physical_ai.Common.{
  replicate, ℕ, ◌+◌, ◌*◌, ◌%◌, ◌<◌, ◌≤◌, ◌≡◌, refl, sym, ap, ◌∙◌, subst, none, some, arith, length,
  get_or, min,
}
use axon_sdk_for_physical_ai.Types.{DType, mul_dims, max_rank}
use axon_sdk_for_physical_ai.Os.{Os}
use axon_sdk_for_physical_ai.Delivery.{IsAttachedTo, IsDelivered, publish-latest_view}
use axon_sdk_for_physical_ai.Subscriber.{
  latest_view, Reading, fence_of, TensorView, Subscriber, offset_ptr,
}
use axon_sdk_for_physical_ai.Descriptor.{TensorDescriptor}
use axon_sdk_for_physical_ai.Python.{numpy_dtype}
use axon_sdk_for_physical_ai.Pool.{TensorPool}
use axon_sdk_for_physical_ai.Publisher.{publish, TensorPublisher, acquire_descriptor}
use axon_sdk_for_physical_ai.Bytes.{Memory}
use axon_sdk_for_physical_ai.Python.Publish.{
  memcpy, BufferInfo, nbytes, set_dims, stage_array, publish_array,
}
use axon_sdk_for_physical_ai.Python.Views.{py_latest_view, PyView, py_view, first_dims}
use axon_sdk_for_physical_ai.Python.Arrays.{
  array_of-shown, offset_ptr-zero, count_staged, memcpy-at, first_dims-set_dims, small_elements,
  elements, IsArray,
}
use axon_sdk_for_physical_ai.Python.Copied.{
  publish_array-IsCopied, publish_staged-publish, staged_bytes,
}

-- What Python gets of an array `info` of frame `n`, whose buffer the consumer has mapped at `base`; `mem`
-- is what the producer's memory was, and `seen` is the consumer's.
pub record IsReceived (info : BufferInfo) (t : DType) (n base : ℕ) (mem seen : Memory) (v : PyView)
    : Type 0 where
  pub number : v.seqno ≡ n
  pub shape : v.shape ≡ info.shape
  pub dtype : v.dtype ≡ t
  pub array : v.array ≡ record { dtype = numpy_dtype t; shape = info.shape; start = some base }
  pub bytes : (j : ℕ) → j < info.size * info.itemsize → seen (base + j) ≡ mem (info.ptr + j)

-- The fields of a view of the staged array.
py_view-IsReceived :
    (info : BufferInfo) (t : DType) (n i base : ℕ) (mem seen : Memory) (d : TensorDescriptor)
    (s : Subscriber) (v : TensorView)
    → IsArray info
    → d.shape ≡ replicate 8 0
    → length info.shape ≤ max_rank
    → 0 < nbytes info
    → get_or s.views i none ≡ some base
    → IsDelivered (stage_array info t d) i n s v
    → ((j : ℕ) → j < info.size * info.itemsize → seen (base + j) ≡ mem (info.ptr + j))
    → IsReceived info t n base mem seen (py_view v)
unfolding py_view stage_array nbytes offset_ptr
py_view-IsReceived info t n i base mem seen d s v h clear le some_bytes at is same =
    let dims : v.shape.dims ≡ set_dims info.shape (replicate 8 0) =
      is.dims ∙ ap (λ x. set_dims x d.shape) h.narrow ∙ ap (set_dims info.shape) clear in
    let rank : min v.shape.rank max_rank ≡ length info.shape = omega (arith, is.rank) in
    let counted = (small_elements info h some_bytes).0 in
    let shape : first_dims (min v.shape.rank max_rank) v.shape.dims ≡ info.shape =
      rw (rank, dims) (first_dims-set_dims info.shape (replicate 8 0) le) in
    let count : mul_dims (min v.shape.rank max_rank) 1 v.shape.dims ≡ elements info.shape =
      rw (rank, dims) (count_staged info.shape le counted.1) in
    let start : v.data_ptr ≡ some base =
      is.pointer ∙ offset_ptr-zero (get_or s.views i none) base at in
    record {
      number = is.number;
      shape = shape;
      dtype = is.dtype;
      array =
          array_of-shown v.dtype v.data_ptr base
            (mul_dims (min v.shape.rank max_rank) 1 v.shape.dims)
            (first_dims (min v.shape.rank max_rank) v.shape.dims) start
            (omega (arith, count, counted.0))
          ∙ rw (is.dtype, shape) refl;
      bytes = same;
    }

py_latest_view-shown :
    (s : Subscriber) (r : Reading) (v : TensorView)
    → (latest_view s r).0 ≡ some v
    → (py_latest_view s r).0 ≡ some (py_view v)
unfolding py_latest_view
py_latest_view-shown s r v e = ground (arith, e)

pub publish_array-py_latest_view :
    (fuel : ℕ) (pool : TensorPool) (now : ℕ) (info : BufferInfo) (t : DType) (p : TensorPublisher)
    (mem : Memory) (os : Os) (s : Subscriber) (r : Reading) (view base : ℕ) (seen : Memory)
    → IsArray info
    → IsAttachedTo pool p s
    → (publish_array fuel pool now info t p mem os).0.0 ≡ none
    → r.result ≡ (publish_array fuel pool now info t p mem os).0.1.0.slot
    → get_or p.host_views (p.next_index % length pool.share_fds) none ≡ some view
    → get_or s.views (p.next_index % length pool.share_fds) none ≡ some base
    → ((j : ℕ)
        → j < p.buffer_size
        → seen (base + j) ≡ (publish_array fuel pool now info t p mem os).0.1.1 (view + j))
    → (v : PyView) × ((py_latest_view s r).0 ≡ some v)
      × IsReceived info t (publish_array fuel pool now info t p mem os).0.1.0.seqno base mem seen v
unfolding fence_of stage_array
publish_array-py_latest_view fuel pool now info t p mem os s r view base seen h up fine read at
      there shared =
    let (i, w, c) = publish_array-IsCopied fuel pool now info t p mem os fine in
    let q = (acquire_descriptor pool p).1 in
    let staged : TensorPublisher = record q { staging = stage_array info t q.staging } in
    let taken =
      publish_staged-publish fuel pool now i staged os (sym (ap (λ x. x.0.0) c.result) ∙ fine) in
    let published : (publish_array fuel pool now info t p mem os).0.1.0
        ≡ (publish fuel pool now (some i) none staged os).0.1 =
      ap (λ x. x.0.1.0) c.result ∙ taken.1 in
    let copied : (publish_array fuel pool now info t p mem os).0.1.1
        ≡ memcpy w info.ptr (nbytes info) mem =
      ap (λ x. x.0.1.1) c.result in
    let same_view : w ≡ view = ground (arith, at, c.viewed, c.index) in
    let attached : IsAttachedTo pool staged s = record {
      up = up.up;
      host = up.host;
      generation = up.generation;
      size = up.size ∙ sym c.size;
      views = up.views;
    } in
    let (v, shown, is) =
      publish-latest_view fuel pool now i none staged os s r attached c.below taken.0 refl
        (read ∙ ap (λ x. x.slot) published) in
    let some_bytes = (staged_bytes fuel pool now i info t q os taken.0).0 in
    let whole = (small_elements info h some_bytes).1 in
    (
      py_view v,
      py_latest_view-shown s r v shown,
      subst (λ n. IsReceived info t n base mem seen (py_view v)) (sym (ap (λ x. x.seqno) published))
          (py_view-IsReceived info t (publish fuel pool now (some i) none staged os).0.1.seqno i
            base mem seen q.staging s v h c.clear c.ranked.1 some_bytes
            (subst (λ x. get_or s.views x none ≡ some base) (sym c.index) there) is
            (λ j lt.
              shared j (omega (arith, c.fits, whole))
              ∙ ap (λ f. f (view + j)) copied
              ∙ ap (λ x. memcpy x info.ptr (nbytes info) mem (view + j)) same_view
              ∙ memcpy-at view info.ptr (nbytes info) j mem (omega (arith, whole)))),
    )
