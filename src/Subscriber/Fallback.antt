-- ===== src/Subscriber/Fallback.antt =====
-- The last good frame, while reads fail.
use axon_sdk_for_physical_ai.Common.{
  subst, ℕ, ◌+◌, ◌≡◌, refl, sym, List, [], ◌∷◌, true, Option, none, some, arith, sub64, wrap64, ap,
  ◌∙◌,
}
use axon_sdk_for_physical_ai.Types.{last_known_good}
use axon_sdk_for_physical_ai.Descriptor.{TensorDescriptor}
use axon_sdk_for_physical_ai.Subscriber.{
  TensorView, Subscriber, Reading, servable, view_of, commit, fallback_view, latest_view,
  has_update, n_views,
}
use axon_sdk_for_physical_ai.Subscriber.View.{latest_view-served, latest_view-skipped}

-- The subscriber after calls of `latest_view`, the last of them first in the list.
unfoldable pub after_views : Subscriber → List Reading → Subscriber
after_views s [] = s
after_views s (r ∷ earlier) = (latest_view (after_views s earlier) r).1

-- None of the readings can be served.
unfoldable pub AllSkipped : Subscriber → List Reading → Type 0
AllSkipped s [] = Unit {0}
AllSkipped s (r ∷ earlier) = (servable s r ≡ none) × AllSkipped s earlier

-- The fields that decide what is served and shown.
record SameView (s t : Subscriber) : Type 0 where
  up : t.attached ≡ s.attached
  policy : t.fallback ≡ s.fallback
  have : t.have_last_good ≡ s.have_last_good
  last : t.last_good ≡ s.last_good
  stamp : t.last_good_publish_ts_ns ≡ s.last_good_publish_ts_ns
  served : (r : Reading) → servable t r ≡ servable s r
  word : t.seen_notify ≡ s.seen_notify
  seqno : t.seen_seqno ≡ s.seen_seqno

after_views-SameView :
    (s : Subscriber) (rs : List Reading)
    → s.attached ≡ true
    → AllSkipped s rs
    → SameView s (after_views s rs)
unfolding after_views AllSkipped servable n_views
after_views-SameView s [] up skipped = record {
  up = refl;
  policy = refl;
  have = refl;
  last = refl;
  stamp = refl;
  served = λ r. refl;
  word = refl;
  seqno = refl;
}
after_views-SameView s (r ∷ rs) up skipped =
    let b = after_views-SameView s rs up skipped.1 in
    let t = after_views s rs in
    let step : (latest_view t r).1 ≡ record t { fallback_count = wrap64 (t.fallback_count + 1) } =
      ap (λ x. x.1) (latest_view-skipped t r (b.up ∙ up) (b.served r ∙ skipped.0)) in
    subst (SameView s) (sym step) (record {
      up = b.up;
      policy = b.policy;
      have = b.have;
      last = b.last;
      stamp = b.stamp;
      served = b.served;
      word = b.word;
      seqno = b.seqno;
    })

-- A view with the age and the retries of a later call.
unfoldable pub restamp : TensorView → Reading → ℕ → TensorView
restamp v r published = record v {
  staleness_ns = sub64 r.now published;
  seqlock_retries = r.retries;
}

skipped_shows :
    (t : Subscriber) (r : Reading)
    → t.attached ≡ true
    → t.fallback ≡ last_known_good
    → t.have_last_good ≡ true
    → servable t r ≡ none
    → (latest_view t r).0 ≡ some (restamp t.last_good r t.last_good_publish_ts_ns)
unfolding fallback_view restamp
skipped_shows t r up lkg have e = ap (λ x. x.0) (latest_view-skipped t r up e) ∙ ground arith

has_update-same :
    (s t : Subscriber) (word : Option ℕ) (read : Option TensorDescriptor)
    → t.seen_notify ≡ s.seen_notify
    → t.seen_seqno ≡ s.seen_seqno
    → has_update t word read ≡ has_update s word read
unfolding has_update
has_update-same s t (some word) read a b = rw a refl
has_update-same s t none (some d) a b = rw b refl
has_update-same s t none none a b = refl

-- After a served frame and any number of skipped ones, a skipped call with `LastKnownGood` shows that
-- frame again, without a fence and with its age at that time, and the subscriber still waits for what
-- comes after that frame.
pub latest_view-fallback :
    (s : Subscriber) (first r : Reading) (d : TensorDescriptor) (fence : Option ℕ)
    (rs : List Reading)
    → s.attached ≡ true
    → s.fallback ≡ last_known_good
    → servable s first ≡ some (d, fence)
    → AllSkipped (latest_view s first).1 (r ∷ rs)
    → ((latest_view (after_views (latest_view s first).1 rs) r).0
        ≡ some (restamp (view_of s first d none) r d.producer_publish_ts_ns))
      × ((word : Option ℕ) (read : Option TensorDescriptor)
          → has_update (after_views (latest_view s first).1 (r ∷ rs)) word read
            ≡ has_update (latest_view s first).1 word read)
unfolding AllSkipped commit
latest_view-fallback s first r d fence rs up lkg served skipped =
    let c = (latest_view s first).1 in
    let t = after_views c rs in
    let is : c ≡ commit s first d = ap (λ x. x.1) (latest_view-served s first d fence up served) in
    let attached : c.attached ≡ true = ap (λ x. x.attached) is ∙ up in
    let b = after_views-SameView c rs attached skipped.1 in
    let all = after_views-SameView c (r ∷ rs) attached skipped in
    let shows =
      skipped_shows t r (b.up ∙ attached) (b.policy ∙ ap (λ x. x.fallback) is ∙ lkg)
        (b.have ∙ ap (λ x. x.have_last_good) is) (b.served r ∙ skipped.0) in
    let same_view : t.last_good ≡ view_of s first d none = b.last ∙ ap (λ x. x.last_good) is in
    let same_stamp : t.last_good_publish_ts_ns ≡ d.producer_publish_ts_ns =
      b.stamp ∙ ap (λ x. x.last_good_publish_ts_ns) is in
    (
      shows
          ∙ ap (λ v. some (restamp v r t.last_good_publish_ts_ns)) same_view
          ∙ ap (λ n. some (restamp (view_of s first d none) r n)) same_stamp,
      λ word read. has_update-same c (after_views c (r ∷ rs)) word read all.word all.seqno,
    )
