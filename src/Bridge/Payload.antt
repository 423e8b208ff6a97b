-- ===== src/Bridge/Payload.antt =====
-- What the caller of `payload` has to check.
use axon_sdk_for_physical_ai.Common.{ℕ, ◌+◌, ◌≤◌, ◌≡◌, none, some, arith, Option-cases, inl, inr}
use axon_sdk_for_physical_ai.Descriptor.{TensorDescriptor, descriptor_error}
use axon_sdk_for_physical_ai.Descriptor.Errors.{error-none→publishable}
use axon_sdk_for_physical_ai.Bridge.{Consumer, view_at, payload}

-- If the caller has validated a descriptor with `descriptor_error` against the size of the consumer's
-- buffers, and `payload` gives a pointer for the descriptor's handle and offset, then each byte of the
-- tensor lies in the mapping of that buffer; the same call for an offset that is not below the size of the
-- buffers gives a pointer outside of it.
pub payload-in_view :
    (c : Consumer) (d : TensorDescriptor) (far p q : ℕ)
    → descriptor_error d c.buffer_size ≡ none
    → payload c d.bo_handle d.offset ≡ some p
    → payload c d.bo_handle far ≡ some q
    → c.buffer_size ≤ far
    → (v : ℕ) × (view_at c.views d.bo_handle ≡ some v)
      × (v ≤ p)
      × (p + d.size ≤ v + c.buffer_size)
      × (v + c.buffer_size ≤ q)
unfolding payload
payload-in_view c d far p q accepted at at_far past_end =
    let inside = (error-none→publishable d c.buffer_size accepted).inside in
    elim (Option-cases (view_at c.views d.bo_handle)) [
      | inl out ↦ absurd (ground (arith, out, at))
      | inr (v, e) ↦
          let here : p ≡ v + d.offset = ground (arith, e, at) in
          let there : q ≡ v + far = ground (arith, e, at_far) in
          (v, e, omega (arith, here), omega (arith, here, inside), omega (arith, there, past_end))
    ]
