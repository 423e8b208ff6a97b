-- ===== src/Descriptor/Errors.antt =====
-- Which descriptors `descriptor_error` lets through, and which error the others get.
use axon_sdk_for_physical_ai.Common.{
  ℕ, ◌+◌, ◌≤◌, ◌<◌, ◌≡◌, ◌≢◌, ◌↔◌, ◌⊎◌, none, some, arith, e_msgsize,
}
use axon_sdk_for_physical_ai.Types.{dtype_size, max_rank}
use axon_sdk_for_physical_ai.Descriptor.{
  TensorDescriptor, packed_row, image_bytes, descriptor_error, pitch_error,
}

-- The fields that are checked before the range in the buffer.
pub record IsWellFormed (d : TensorDescriptor) : Type 0 where
  pub ranked : 0 < d.rank
  pub rank_le : d.rank ≤ max_rank
  pub known : dtype_size d.dtype ≢ 0
  pub nonempty : 0 < d.size

-- What a publishable descriptor promises of a buffer of `b` bytes.
pub record IsPublishable (d : TensorDescriptor) (b : ℕ) : Type 0 where
  pub formed : IsWellFormed d
  pub inside : d.offset + d.size ≤ b
  pub pitched : (d.row_pitch ≡ 0) ⊎ ((packed_row d ≤ d.row_pitch) × (image_bytes d ≤ d.size))

pub error-none→publishable :
    (d : TensorDescriptor) (b : ℕ) → descriptor_error d b ≡ none → IsPublishable d b
unfolding descriptor_error pitch_error
error-none→publishable d b e = record {
  formed = record {
    ranked = ground arith;
    rank_le = ground arith;
    known = ground arith;
    nonempty = ground arith;
  };
  inside = ground arith;
  pitched = ground arith;
}

publishable→error-none :
    (d : TensorDescriptor) (b : ℕ) → IsPublishable d b → descriptor_error d b ≡ none
unfolding descriptor_error pitch_error
publishable→error-none d b h = ground arith

pub descriptor_error-none_iff :
    (d : TensorDescriptor) (b : ℕ) → (descriptor_error d b ≡ none) ↔ IsPublishable d b
descriptor_error-none_iff d b = (error-none→publishable d b, publishable→error-none d b)

descriptor_error-msgsize_iff :
    (d : TensorDescriptor) (b : ℕ)
    → (descriptor_error d b ≡ some e_msgsize) ↔ (IsWellFormed d × (b < d.offset + d.size))
unfolding descriptor_error pitch_error
descriptor_error-msgsize_iff d b = (
  λ e. (
    record {
      ranked = ground arith;
      rank_le = ground arith;
      known = ground arith;
      nonempty = ground arith;
    },
    ground arith,
  ),
  λ h. ground arith,
)
