-- ===== src/Publisher/Slot.antt =====
-- What the slot shows after `publish`.
use axon_sdk_for_physical_ai.Publisher.Steps.{IsPublished, publish_total}
use axon_sdk_for_physical_ai.Common.{
  ℕ, ◌≡◌, refl, sym, Option, none, some, arith, inl, inr, subst, ◌∙◌, ap,
}
use axon_sdk_for_physical_ai.Descriptor.{
  row_stride_bytes, image_bytes, packed_row, pitch_error, TensorDescriptor, descriptor_error,
}
use axon_sdk_for_physical_ai.Os.{Os}
use axon_sdk_for_physical_ai.Pool.{TensorPool}
use axon_sdk_for_physical_ai.Publisher.{TensorPublisher, stamp, publish}

-- What the slot shows is the last accepted frame: it carries the publisher's sequence number and passes
-- `descriptor_error` for the publisher's buffer size.
pub record IsConsistent (p : TensorPublisher) : Type 0 where
  pub numbered : (d : TensorDescriptor) → p.slot ≡ some d → d.seqno ≡ p.seqno
  pub checked : (d : TensorDescriptor) → p.slot ≡ some d → descriptor_error d p.buffer_size ≡ none

stamp-checked :
    (pool : TensorPool) (now : ℕ) (index : Option ℕ) (p : TensorPublisher) (b : ℕ)
    → descriptor_error (stamp pool now index p) b ≡ descriptor_error p.staging b
unfolding stamp descriptor_error pitch_error packed_row image_bytes row_stride_bytes
stamp-checked pool now index p b = refl

published-IsConsistent :
    (pool : TensorPool) (now : ℕ) (index : Option ℕ) (p q : TensorPublisher)
    → descriptor_error p.staging p.buffer_size ≡ none
    → IsPublished pool now index p q
    → IsConsistent q
unfolding stamp
published-IsConsistent pool now index p q ok h = record {
  numbered = λ d e.
      let same : stamp pool now index p ≡ d = ground (arith, h.shown, e) in
      ap (λ x. x.seqno) (sym same) ∙ sym h.numbered;
  checked = λ d e.
      let same : stamp pool now index p ≡ d = ground (arith, h.shown, e) in
      subst (λ x. descriptor_error x q.buffer_size ≡ none) same
        (subst (λ b. descriptor_error (stamp pool now index p) b ≡ none) (sym h.sized)
          (stamp-checked pool now index p p.buffer_size ∙ ok));
}

-- The slot stays consistent through `publish`, whether it accepts the frame or not.
pub publish-IsConsistent :
    (fuel : ℕ) (pool : TensorPool) (now : ℕ) (index sync_fd : Option ℕ) (p : TensorPublisher)
    (s : Os)
    → IsConsistent p
    → IsConsistent (publish fuel pool now index sync_fd p s).0.1
publish-IsConsistent fuel pool now index sync_fd p s h =
    elim (publish_total fuel pool now index sync_fd p s) [
      | inl (e, out, denied, r) ↦
          subst IsConsistent (sym r.counted) (record { numbered = h.numbered; checked = h.checked })
      | inr (ok, accepted, r) ↦ published-IsConsistent pool now index p _ ok r
    ]
