-- ===== src/Python/Copied.antt =====
-- python/axon_py.cpp: what `publish` of an array has done when it raises no exception.
use axon_sdk_for_physical_ai.Common.{
  ◌≢◌, replicate, ◌==◌, ℕ, ◌%◌, ◌<◌, ◌≤◌, ◌≡◌, refl, true, Option, none, some, arith, Option-cases,
  Bool-cases, inl, inr, length, get_or, ltb,
}
use axon_sdk_for_physical_ai.Types.{DType, dtype_size, max_rank}
use axon_sdk_for_physical_ai.Os.{Os}
use axon_sdk_for_physical_ai.Descriptor.Errors.{error-none→publishable}
use axon_sdk_for_physical_ai.Descriptor.{clear_descriptor}
use axon_sdk_for_physical_ai.Python.{PyError}
use axon_sdk_for_physical_ai.Pool.{TensorPool}
use axon_sdk_for_physical_ai.Publisher.{publish, TensorPublisher, acquire_descriptor}
use axon_sdk_for_physical_ai.Bytes.{Memory}
use axon_sdk_for_physical_ai.Python.Publish.{
  memcpy, BufferInfo, writable, nbytes, stage_array, is_rank, outcome, publish_staged,
  publish_array,
}
use axon_sdk_for_physical_ai.Publisher.Steps.{publish_total}

-- What `publish_array` does when it raises nothing: it has copied the array to `view`, the host view of
-- buffer `i`, and published the descriptor staged for it.
pub record IsCopied (fuel : ℕ) (pool : TensorPool) (now : ℕ) (info : BufferInfo) (t : DType)
    (p q : TensorPublisher) (mem : Memory) (os : Os)
    (r : (Option PyError × (TensorPublisher × Memory)) × Os) (i view : ℕ) : Type 0 where
  pub below : i < length pool.share_fds
  pub index : i ≡ p.next_index % length pool.share_fds
  pub viewed : get_or p.host_views i none ≡ some view
  pub fits : nbytes info ≤ p.buffer_size
  pub ranked : (1 ≤ length info.shape) × (length info.shape ≤ max_rank)
  pub clear : q.staging.shape ≡ replicate 8 0
  pub pitch : q.staging.row_pitch ≡ 0
  pub size : q.buffer_size ≡ p.buffer_size
  pub result : r ≡ (
    (
      (publish_staged fuel pool now i (record q { staging = stage_array info t q.staging }) os).0.0,
      (
        (publish_staged fuel pool now i
            (record q { staging = stage_array info t q.staging })
            os).0.1,
        memcpy view info.ptr (nbytes info) mem,
      ),
    ),
    (publish_staged fuel pool now i (record q { staging = stage_array info t q.staging }) os).1,
  )

pub publish_array-IsCopied :
    (fuel : ℕ) (pool : TensorPool) (now : ℕ) (info : BufferInfo) (t : DType) (p : TensorPublisher)
    (mem : Memory) (os : Os)
    → (publish_array fuel pool now info t p mem os).0.0 ≡ none
    → (i : ℕ) × (view : ℕ) × IsCopied fuel pool now info t p
        (acquire_descriptor pool p).1
        mem
        os
        (publish_array fuel pool now info t p mem os)
        i
        view
unfolding publish_array writable is_rank acquire_descriptor clear_descriptor
publish_array-IsCopied fuel pool now info t p mem os e =
    elim (Bool-cases (length pool.share_fds == 0)) [
      | inl out ↦ absurd (ground (arith, e, out))
      | inr has ↦
          elim (Option-cases (get_or p.host_views (p.next_index % length pool.share_fds) none)) [
            | inl out ↦ absurd (ground (arith, e, has, out))
            | inr (view, at) ↦ elim (Bool-cases (ltb p.buffer_size (nbytes info))) [
              | inl big ↦ absurd (ground (arith, e, has, at, big))
              | inr fits ↦ elim (Bool-cases (is_rank (length info.shape))) [
                | inr out ↦ absurd (ground (arith, e, has, at, fits, out))
                | inl ranked ↦ (
                  p.next_index % length pool.share_fds,
                  view,
                  record {
                    below = ground (arith, has);
                    index = refl;
                    viewed = at;
                    fits = ground (arith, fits);
                    ranked = ground (arith, ranked);
                    clear = ground (arith, has);
                    pitch = ground (arith, has);
                    size = ground (arith, has);
                    result = ground (arith, has, at, fits, ranked);
                  },
                )
              ]
            ]
          ]
    ]

pub publish_staged-publish :
    (fuel : ℕ) (pool : TensorPool) (now i : ℕ) (p : TensorPublisher) (os : Os)
    → (publish_staged fuel pool now i p os).0.0 ≡ none
    → ((publish fuel pool now (some i) none p os).0.0 ≡ true)
      × ((publish_staged fuel pool now i p os).0.1 ≡ (publish fuel pool now (some i) none p os).0.1)
unfolding publish_staged outcome
publish_staged-publish fuel pool now i p os e = (ground (arith, e), refl)

-- What `publish` takes of the staged array.
pub staged_bytes :
    (fuel : ℕ) (pool : TensorPool) (now i : ℕ) (info : BufferInfo) (t : DType) (q : TensorPublisher)
    (os : Os)
    → (publish fuel pool now
        (some i)
        none
        (record q { staging = stage_array info t q.staging })
        os).0.0
      ≡ true
    → (0 < nbytes info) × (dtype_size t ≢ 0)
unfolding stage_array
staged_bytes fuel pool now i info t q os e =
    let staged = record q { staging = stage_array info t q.staging } in
    elim (publish_total fuel pool now (some i) none staged os) [
      | inl (n, out, denied, f) ↦ absurd (ground (arith, denied, e))
      | inr (ok, accepted, f) ↦
          let formed = (error-none→publishable staged.staging staged.buffer_size ok).formed in
          (formed.nonempty, formed.known)
    ]
