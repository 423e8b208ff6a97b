-- ===== src/Python/Frames.antt =====
-- python/axon_py.cpp: what `publish_device` puts into the slot.
use axon_sdk_for_physical_ai.Common.{
  ℕ, ◌+◌, ◌*◌, ◌^◌, ◌<◌, ◌≤◌, ◌≡◌, ◌↔◌, refl, sym, ap, ◌∙◌, List, none, some, arith, length, wrap64,
  min, inl, inr, Option-cases, Bool-cases, replicate,
}
use axon_sdk_for_physical_ai.Types.{DType, dtype_size, mul_dims, max_rank}
use axon_sdk_for_physical_ai.Os.{Os}
use axon_sdk_for_physical_ai.Pool.{TensorPool}
use axon_sdk_for_physical_ai.Descriptor.{TensorDescriptor, implied_bytes, element_count}
use axon_sdk_for_physical_ai.Descriptor.Errors.{error-none→publishable}
use axon_sdk_for_physical_ai.Descriptor.Products.{mul_dims-one, wrap-mul}
use axon_sdk_for_physical_ai.Publisher.{TensorPublisher, AcquiredDescriptor, stamp}
use axon_sdk_for_physical_ai.Publisher.Steps.{publish_total}
use axon_sdk_for_physical_ai.Python.Publish.{
  publish_staged, publish_device, stage_device, set_dims, is_rank,
}
use axon_sdk_for_physical_ai.Python.Arrays.{elements, product-set_dims, product-elements}
use axon_sdk_for_physical_ai.Python.Copied.{publish_staged-publish}

-- The frame in the slot: its fields are those asked for, and its size is the one that its shape and type
-- imply, which the buffer holds.
pub record IsShown (shape : List ℕ) (t : DType) (size : ℕ) (d : TensorDescriptor) : Type 0 where
  pub rank : d.rank ≡ length shape
  pub dims : d.shape ≡ set_dims shape (replicate 8 0)
  pub dtype : d.dtype ≡ t
  pub implied : d.size ≡ implied_bytes d
  pub held : d.offset + d.size ≤ size
  pub covered : (elements shape * dtype_size t ≤ d.size) ↔ (elements shape * dtype_size t < 2 ^ 64)

-- The loop of `publish_device` and that of `element_count` agree on the staged dimensions.
count-set_dims :
    (shape dims : List ℕ)
    → length shape ≤ length dims
    → mul_dims (length shape) 1 (set_dims shape dims) ≡ mul_dims (length shape) 1 shape
count-set_dims shape dims le = omega (
  arith,
  mul_dims-one (length shape) (set_dims shape dims),
  mul_dims-one (length shape) shape,
  product-set_dims shape dims le,
  product-elements shape,
)

-- `element_count` of the staged dimensions.
count_staged_frame :
    (shape dims : List ℕ)
    → length shape ≤ max_rank
    → dims ≡ replicate 8 0
    → mul_dims (length shape) 1 shape
      ≡ mul_dims (min (length shape) max_rank) 1 (set_dims shape dims)
count_staged_frame shape dims le clear =
    let whole : min (length shape) max_rank ≡ length shape = omega arith in
    rw (whole, clear) (sym (count-set_dims shape (replicate 8 0) le))

staged_size :
    (shape : List ℕ) (t : DType)
    → wrap64 (mul_dims (length shape) 1 shape * dtype_size t)
      ≡ wrap64 (elements shape * dtype_size t)
staged_size shape t =
    ap (λ x. wrap64 (x * dtype_size t))
      (mul_dims-one (length shape) shape ∙ ap wrap64 (product-elements shape))
    ∙ wrap-mul (elements shape) (dtype_size t)

publish_device-staged :
    (fuel : ℕ) (pool : TensorPool) (now : ℕ) (a : AcquiredDescriptor) (shape : List ℕ) (t : DType)
    (p : TensorPublisher) (os : Os)
    → (publish_device fuel pool now a shape t p os).0.0 ≡ none
    → (i : ℕ) × (a.buffer_index ≡ some i)
      × (length shape ≤ max_rank)
      × (publish_device fuel pool now a shape t p os
          ≡ publish_staged fuel pool now i
              (record p { staging = stage_device shape t p.staging })
              os)
unfolding publish_device is_rank
publish_device-staged fuel pool now a shape t p os e = elim (Option-cases a.buffer_index) [
  | inl out ↦ absurd (ground (arith, out, e))
  | inr (i, at) ↦ elim (Bool-cases (is_rank (length shape))) [
    | inr out ↦ absurd (ground (arith, out, at, e))
    | inl ranked ↦ (i, at, ground (arith, ranked), ground (arith, at, ranked))
  ]
]

-- A frame that `publish_device` takes without an exception, with dimensions cleared as `acquire` leaves
-- them, stands in the slot with the shape and the type asked for and with the size that these imply; its
-- bytes fit the buffer, and they are all of the array exactly if their number is below 2 ^ 64.
pub publish_device-IsShown :
    (fuel : ℕ) (pool : TensorPool) (now : ℕ) (a : AcquiredDescriptor) (shape : List ℕ) (t : DType)
    (p : TensorPublisher) (os : Os)
    → p.staging.shape ≡ replicate 8 0
    → (publish_device fuel pool now a shape t p os).0.0 ≡ none
    → (d : TensorDescriptor) × ((publish_device fuel pool now a shape t p os).0.1.slot ≡ some d)
      × IsShown shape t p.buffer_size d
unfolding stage_device stamp implied_bytes element_count
publish_device-IsShown fuel pool now a shape t p os clear fine =
    let (i, at, ranked, step) = publish_device-staged fuel pool now a shape t p os fine in
    let staged : TensorPublisher = record p { staging = stage_device shape t p.staging } in
    let (taken, same) =
      publish_staged-publish fuel pool now i staged os (sym (ap (λ x. x.0.0) step) ∙ fine) in
    elim (publish_total fuel pool now (some i) none staged os) [
      | inl (n, out, denied, f) ↦ absurd (ground (arith, denied, taken))
      | inr (ok, accepted, f) ↦ (
        stamp pool now (some i) staged,
        ap (λ x. x.slot) (ap (λ x. x.0.1) step ∙ same) ∙ f.shown,
        record {
          rank = refl;
          dims = ap (set_dims shape) clear;
          dtype = refl;
          implied =
              ap (λ x. wrap64 (x * dtype_size t))
                (count_staged_frame shape p.staging.shape ranked clear);
          held = (error-none→publishable staged.staging staged.buffer_size ok).inside;
          covered =
              let size = staged_size shape t in
              (λ h. omega (arith, size), λ h. omega (arith, size));
        },
      )
    ]
