-- ===== src/Subscriber/View.antt =====
-- What `latest_view` does when it serves a frame and when it does not, and the frame that it stores.
use axon_sdk_for_physical_ai.Common.{
  subst, ℕ, ◌+◌, ◌≤◌, ◌≡◌, refl, sym, List, true, false, Option, none, some, arith, Option-cases,
  Bool-cases, inl, inr, ◌⊎◌, get_or, wrap64, ap,
}
use axon_sdk_for_physical_ai.Descriptor.{TensorDescriptor, descriptor_error}
use axon_sdk_for_physical_ai.Descriptor.Errors.{error-none→publishable}
use axon_sdk_for_physical_ai.Subscriber.{
  TensorView, Subscriber, Reading, servable, view_of, commit, fallback_view, latest_view,
  offset_ptr,
}

-- A view's pointer is in a buffer that is mapped, and the descriptor's range is within the mapping.
pub record Frame (views : List (Option ℕ)) (size : ℕ) (v : TensorView) (base : ℕ)
    (d : TensorDescriptor) : Type 0 where
  pub mapped : get_or views d.bo_handle none ≡ some base
  pub pointer : v.data_ptr ≡ some (base + d.offset)
  pub within : d.offset + d.size ≤ size
  pub shown : v.shape.dims ≡ d.shape
  pub pitched : v.row_pitch ≡ d.row_pitch

abbrev pub InBuffer : List (Option ℕ) → ℕ → TensorView → Type 0
InBuffer views size v =
    (v.data_ptr ≡ none) ⊎ ((base : ℕ) × (d : TensorDescriptor) × Frame views size v base d)

-- The stored frame lies in a buffer that is mapped now.
abbrev pub WellAttached : Subscriber → Type 0
WellAttached s = s.have_last_good ≡ true → InBuffer s.views s.buffer_size s.last_good

-- The publisher has checked what the subscriber reads against the size that the subscriber maps.
abbrev pub Checked : Subscriber → Reading → Type 0
Checked s r = (d : TensorDescriptor) → r.result ≡ some d → descriptor_error d s.buffer_size ≡ none

servable-read :
    (s : Subscriber) (r : Reading) (d : TensorDescriptor) (fence : Option ℕ)
    → servable s r ≡ some (d, fence)
    → r.result ≡ some d
unfolding servable
servable-read s r d fence e = ground arith

view_of-InBuffer :
    (s : Subscriber) (r : Reading) (d : TensorDescriptor) (fence : Option ℕ)
    → descriptor_error d s.buffer_size ≡ none
    → InBuffer s.views s.buffer_size (view_of s r d fence)
unfolding view_of offset_ptr
view_of-InBuffer s r d fence ok = elim (Bool-cases s.device_backed) [
  | inl dev ↦ inl (rw dev refl)
  | inr host ↦ elim (Option-cases (get_or s.views d.bo_handle none)) [
    | inl out ↦ inl (rw (host, out) refl)
    | inr (base, at) ↦ inr (
      base,
      d,
      record {
        mapped = at;
        pointer = rw (host, at) refl;
        within = (error-none→publishable d s.buffer_size ok).inside;
        shown = refl;
        pitched = refl;
      },
    )
  ]
]

latest_view-detached :
    (s : Subscriber) (r : Reading) → s.attached ≡ false → latest_view s r ≡ (none, s)
unfolding latest_view
latest_view-detached s r e = ground arith

pub latest_view-served :
    (s : Subscriber) (r : Reading) (d : TensorDescriptor) (fence : Option ℕ)
    → s.attached ≡ true
    → servable s r ≡ some (d, fence)
    → latest_view s r ≡ (some (view_of s r d fence), commit s r d)
unfolding latest_view
latest_view-served s r d fence up e = ground arith

pub latest_view-skipped :
    (s : Subscriber) (r : Reading)
    → s.attached ≡ true
    → servable s r ≡ none
    → latest_view s r
      ≡ (fallback_view s.fallback s r, record s { fallback_count = wrap64 (s.fallback_count + 1) })
unfolding latest_view
latest_view-skipped s r up e = ground arith

-- If what is read has passed `descriptor_error` for the size that the subscriber maps, `latest_view` keeps
-- the stored frame in a buffer that is mapped.
latest_view-WellAttached :
    (s : Subscriber) (r : Reading) → WellAttached s → Checked s r → WellAttached (latest_view s r).1
unfolding commit
latest_view-WellAttached s r h checked = elim (Bool-cases s.attached) [
  | inr down ↦ subst WellAttached (sym (ap (λ x. x.1) (latest_view-detached s r down))) h
  | inl up ↦ elim (Option-cases (servable s r)) [
    | inl out ↦
        let kept : WellAttached (record s { fallback_count = wrap64 (s.fallback_count + 1) }) = h in
        subst WellAttached (sym (ap (λ x. x.1) (latest_view-skipped s r up out))) kept
    | inr (p, e) ↦
        let ok = checked p.0 (servable-read s r p.0 p.1 e) in
        let kept : WellAttached (commit s r p.0) = λ have. view_of-InBuffer s r p.0 none ok in
        subst WellAttached (sym (ap (λ x. x.1) (latest_view-served s r p.0 p.1 up e))) kept
  ]
]
