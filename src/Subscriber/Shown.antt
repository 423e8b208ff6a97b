-- ===== src/Subscriber/Shown.antt =====
-- Which frame `latest_view` (src/subscriber.cpp) shows, and where in the mapped buffers it points.
use axon_sdk_for_physical_ai.Subscriber.Mapping.{
  Shows, view_of-Shows, restamp-Shows, after_views-SameMapping, servable-same, Shows-same,
  servable-read,
}
use axon_sdk_for_physical_ai.Common.{
  subst, ap, sym, ◌∙◌, ℕ, ◌≡◌, ◌⊎◌, inl, inr, List, [], ◌∷◌, true, false, Option, none, some, arith,
  Option-cases,
}
use axon_sdk_for_physical_ai.Descriptor.{TensorDescriptor, descriptor_error}
use axon_sdk_for_physical_ai.Subscriber.{
  TensorView, Subscriber, Reading, servable, view_of, commit, fallback_view, latest_view,
}
use axon_sdk_for_physical_ai.Subscriber.View.{latest_view-served, latest_view-skipped}
use axon_sdk_for_physical_ai.Subscriber.Fallback.{after_views, restamp}

-- The publisher has checked what the readings find in the slot against the size that is mapped.
abbrev pub AllChecked : ℕ → List Reading → Type 0
AllChecked size [] = Unit {0}
AllChecked size (r ∷ rs) =
    ((d : TensorDescriptor) → r.result ≡ some d → descriptor_error d size ≡ none)
    × AllChecked size rs

-- One of the readings found `d` in the slot.
abbrev pub WasRead : TensorDescriptor → List Reading → Type 0
WasRead d [] = ⊥
WasRead d (r ∷ rs) = (r.result ≡ some d) ⊎ WasRead d rs

-- The descriptor of the newest reading that can be served.
unfoldable pub newest : Subscriber → List Reading → Option TensorDescriptor
newest s [] = none
newest s (r ∷ rs) = elim (servable s r) [ some (d, fence) ↦ some d | none ↦ newest s rs ]

-- A view that shows the newest frame that could be served, which one of the readings found.
abbrev pub ShowsNewest : Subscriber → List Reading → TensorView → Type 0
ShowsNewest s rs v = (d : TensorDescriptor) × (newest s rs ≡ some d) × WasRead d rs × Shows s d v

newest-skipped :
    (s : Subscriber) (r : Reading) (rs : List Reading) (v : TensorView)
    → servable s r ≡ none
    → ShowsNewest s rs v
    → ShowsNewest s (r ∷ rs) v
unfolding newest
newest-skipped s r rs v out (d, new, was, shows) = (d, ground (arith, out, new), inr was, shows)

-- A reading that is served after others shows what it found.
newest-served :
    (s : Subscriber) (r : Reading) (rs : List Reading) (d : TensorDescriptor)
    (fence handed : Option ℕ)
    → AllChecked s.buffer_size (r ∷ rs)
    → servable (after_views s rs) r ≡ some (d, fence)
    → ShowsNewest s (r ∷ rs) (view_of (after_views s rs) r d handed)
unfolding newest
newest-served s r rs d fence handed checked e =
    let t = after_views s rs in
    let same = after_views-SameMapping s rs in
    let read = servable-read t r d fence e in
    let ok = subst (λ b. descriptor_error d b ≡ none) (sym same.size) (checked.0 d read) in
    let here : servable s r ≡ some (d, fence) = sym (servable-same s t r same) ∙ e in
    (
      d,
      ground (arith, here),
      inl read,
      Shows-same s t d (view_of t r d handed) same (view_of-Shows t r d handed ok),
    )

-- The stored frame is one of the readings' too.
last_good-ShowsNewest :
    (s : Subscriber) (rs : List Reading)
    → s.attached ≡ true
    → s.have_last_good ≡ false
    → AllChecked s.buffer_size rs
    → (after_views s rs).have_last_good ≡ true
    → ShowsNewest s rs (after_views s rs).last_good
unfolding after_views commit
last_good-ShowsNewest s [] up empty checked have = absurd (ground (arith, empty, have))
last_good-ShowsNewest s (r ∷ rs) up empty checked have =
    let t = after_views s rs in
    let same = after_views-SameMapping s rs in
    elim (Option-cases (servable t r)) [
      | inl out ↦
          let step = ap (λ x. x.1) (latest_view-skipped t r (same.attached ∙ up) out) in
          let had : t.have_last_good ≡ true = ap (λ x. x.have_last_good) (sym step) ∙ have in
          let none_here : servable s r ≡ none = sym (servable-same s t r same) ∙ out in
          subst (ShowsNewest s (r ∷ rs)) (sym (ap (λ x. x.last_good) step)) (
            newest-skipped s r rs t.last_good none_here
              (last_good-ShowsNewest s rs up empty checked.1 had))
      | inr ((d, fence), e) ↦
          let step = ap (λ x. x.1) (latest_view-served t r d fence (same.attached ∙ up) e) in
          subst (ShowsNewest s (r ∷ rs)) (sym (ap (λ x. x.last_good) step))
            (newest-served s r rs d fence none checked e)
    ]

-- A fallback shows the stored frame with another age.
fallback_view-restamp :
    (s : Subscriber) (r : Reading) (v : TensorView)
    → fallback_view s.fallback s r ≡ some v
    → (s.have_last_good ≡ true) × (restamp s.last_good r s.last_good_publish_ts_ns ≡ v)
unfolding fallback_view restamp
fallback_view-restamp s r v e = (ground (arith, e), ground (arith, e))

-- Let a subscriber attach, and have no stored frame, and make any calls of `latest_view` (the newest reading
-- is first in the list), where what each reads has passed `descriptor_error` for the size that the subscriber
-- maps. A view that the last call returns, fresh or as a fallback, shows the newest descriptor that could be
-- served, which one of the calls has read: with its sequence number, shape, type and pitch; the host pointer
-- and the device pointer are each null if that buffer has no such mapping, and otherwise point at the
-- descriptor's offset in the mapping of its buffer; and its range and pitch fit the mapped size.
pub latest_view-ShowsNewest :
    (s : Subscriber) (r : Reading) (rs : List Reading) (v : TensorView)
    → s.attached ≡ true
    → s.have_last_good ≡ false
    → AllChecked s.buffer_size (r ∷ rs)
    → (latest_view (after_views s rs) r).0 ≡ some v
    → ShowsNewest s (r ∷ rs) v
latest_view-ShowsNewest s r rs v up empty checked e =
    let t = after_views s rs in
    let same = after_views-SameMapping s rs in
    elim (Option-cases (servable t r)) [
      | inl out ↦
          let step = ap (λ x. x.0) (latest_view-skipped t r (same.attached ∙ up) out) in
          let (had, is) = fallback_view-restamp t r v (sym step ∙ e) in
          let none_here : servable s r ≡ none = sym (servable-same s t r same) ∙ out in
          let (d, new, was, shows) =
            newest-skipped s r rs t.last_good none_here
              (last_good-ShowsNewest s rs up empty checked.1 had) in
          subst (ShowsNewest s (r ∷ rs)) is
            (d, new, was, restamp-Shows s d t.last_good r t.last_good_publish_ts_ns shows)
      | inr ((d, fence), e') ↦
          let step = ap (λ x. x.0) (latest_view-served t r d fence (same.attached ∙ up) e') in
          let is : view_of t r d fence ≡ v = ground (arith, step, e) in
          subst (ShowsNewest s (r ∷ rs)) is (newest-served s r rs d fence fence checked e')
    ]
