-- ===== src/Subscriber/Mapping.antt =====
-- Where a view (src/subscriber.cpp) points in the buffers that are mapped.
use axon_sdk_for_physical_ai.Common.{
  subst, refl, ◌∙◌, ℕ, ◌+◌, ◌≡◌, ◌⊎◌, inl, inr, List, [], ◌∷◌, true, false, Option, none, some,
  arith, Option-cases, Bool-cases, get_or,
}
use axon_sdk_for_physical_ai.Descriptor.{TensorDescriptor, descriptor_error}
use axon_sdk_for_physical_ai.Descriptor.Errors.{IsPublishable, error-none→publishable}
use axon_sdk_for_physical_ai.Subscriber.{
  TensorView, Subscriber, Reading, servable, view_of, commit, latest_view, offset_ptr, n_views,
}
use axon_sdk_for_physical_ai.Subscriber.Fallback.{after_views, restamp}

-- A pointer to the range of `d` in its buffer, by where the buffers are: null exactly if the buffer is not
-- mapped.
abbrev pub PointsInto : List (Option ℕ) → TensorDescriptor → Option ℕ → Type 0
PointsInto views d ptr =
    ((get_or views d.bo_handle none ≡ none) × (ptr ≡ none))
    ⊎ ((base : ℕ) × (get_or views d.bo_handle none ≡ some base) × (ptr ≡ some (base + d.offset)))

-- A view `v` of the frame that `d` describes. By `fits`, the range of `d` lies within the mapped size, and a
-- pitch leaves room for a packed row.
pub record Shows (s : Subscriber) (d : TensorDescriptor) (v : TensorView) : Type 0 where
  pub pointer :
      ((s.device_backed ≡ true) × (v.data_ptr ≡ none))
      ⊎ ((s.device_backed ≡ false) × PointsInto s.views d v.data_ptr)
  pub imported : PointsInto s.device_ptrs d v.device_ptr
  pub fits : IsPublishable d s.buffer_size
  pub number : v.seqno ≡ d.seqno
  pub dims : v.shape.dims ≡ d.shape
  pub rank : v.shape.rank ≡ d.rank
  pub dtype : v.dtype ≡ d.dtype
  pub pitch : v.row_pitch ≡ d.row_pitch

offset_ptr-PointsInto :
    (views : List (Option ℕ)) (d : TensorDescriptor)
    → PointsInto views d (offset_ptr (get_or views d.bo_handle none) d.offset)
unfolding offset_ptr
offset_ptr-PointsInto views d = elim (Option-cases (get_or views d.bo_handle none)) [
  | inl out ↦ inl (out, rw out refl)
  | inr (base, at) ↦ inr (base, at, rw at refl)
]

pub view_of-Shows :
    (s : Subscriber) (r : Reading) (d : TensorDescriptor) (fence : Option ℕ)
    → descriptor_error d s.buffer_size ≡ none
    → Shows s d (view_of s r d fence)
unfolding view_of offset_ptr
view_of-Shows s r d fence ok = record {
  pointer = elim (Bool-cases s.device_backed) [
    | inl dev ↦ inl (dev, rw dev refl)
    | inr host ↦ inr (host, rw host (offset_ptr-PointsInto s.views d))
  ];
  imported = offset_ptr-PointsInto s.device_ptrs d;
  fits = error-none→publishable d s.buffer_size ok;
  number = refl;
  dims = refl;
  rank = refl;
  dtype = refl;
  pitch = refl;
}

-- Another age or number of retries leaves what is shown.
pub restamp-Shows :
    (s : Subscriber) (d : TensorDescriptor) (v : TensorView) (r : Reading) (published : ℕ)
    → Shows s d v
    → Shows s d (restamp v r published)
unfolding restamp
restamp-Shows s d v r published h = record {
  pointer = h.pointer;
  imported = h.imported;
  fits = h.fits;
  number = h.number;
  dims = h.dims;
  rank = h.rank;
  dtype = h.dtype;
  pitch = h.pitch;
}

-- What `latest_view` leaves alone.
pub record SameMapping (s t : Subscriber) : Type 0 where
  pub attached : t.attached ≡ s.attached
  pub views : t.views ≡ s.views
  pub device_ptrs : t.device_ptrs ≡ s.device_ptrs
  pub device_backed : t.device_backed ≡ s.device_backed
  pub size : t.buffer_size ≡ s.buffer_size
  pub generation : t.pool_generation ≡ s.pool_generation
  pub ring : t.ring ≡ s.ring

latest_view-SameMapping : (s : Subscriber) (r : Reading) → SameMapping s (latest_view s r).1
unfolding latest_view commit
latest_view-SameMapping s r = record {
  attached = ground arith;
  views = ground arith;
  device_ptrs = ground arith;
  device_backed = ground arith;
  size = ground arith;
  generation = ground arith;
  ring = ground arith;
}

pub after_views-SameMapping :
    (s : Subscriber) (rs : List Reading) → SameMapping s (after_views s rs)
unfolding after_views
after_views-SameMapping s [] = record {
  attached = refl;
  views = refl;
  device_ptrs = refl;
  device_backed = refl;
  size = refl;
  generation = refl;
  ring = refl;
}
after_views-SameMapping s (r ∷ rs) =
    let b = after_views-SameMapping s rs in
    let c = latest_view-SameMapping (after_views s rs) r in
    record {
      attached = c.attached ∙ b.attached;
      views = c.views ∙ b.views;
      device_ptrs = c.device_ptrs ∙ b.device_ptrs;
      device_backed = c.device_backed ∙ b.device_backed;
      size = c.size ∙ b.size;
      generation = c.generation ∙ b.generation;
      ring = c.ring ∙ b.ring;
    }

pub servable-same : (s t : Subscriber) (r : Reading) → SameMapping s t → servable t r ≡ servable s r
unfolding servable n_views
servable-same s t r h =
    ground (arith, h.ring, h.generation, h.device_backed, h.device_ptrs, h.views)

pub Shows-same :
    (s t : Subscriber) (d : TensorDescriptor) (v : TensorView)
    → SameMapping s t
    → Shows t d v
    → Shows s d v
Shows-same s t d v h is = record {
  pointer =
      subst
        (λ b. ((b ≡ true) × (v.data_ptr ≡ none)) ⊎ ((b ≡ false) × PointsInto s.views d v.data_ptr))
        h.device_backed
        (subst
          (λ views.
            ((t.device_backed ≡ true) × (v.data_ptr ≡ none))
            ⊎ ((t.device_backed ≡ false) × PointsInto views d v.data_ptr))
          h.views is.pointer);
  imported = subst (λ views. PointsInto views d v.device_ptr) h.device_ptrs is.imported;
  fits = subst (IsPublishable d) h.size is.fits;
  number = is.number;
  dims = is.dims;
  rank = is.rank;
  dtype = is.dtype;
  pitch = is.pitch;
}

pub servable-read :
    (s : Subscriber) (r : Reading) (d : TensorDescriptor) (fence : Option ℕ)
    → servable s r ≡ some (d, fence)
    → r.result ≡ some d
unfolding servable
servable-read s r d fence e = ground arith
