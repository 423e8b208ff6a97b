-- ===== src/Iox/Delivered.antt =====
-- What is published last is read next, and the wait for a publisher ends.
use axon_sdk_for_physical_ai.Common.{
  ℕ, zero, suc, ◌+◌, ◌*◌, ◌≡◌, refl, ap, ◌∙◌, subst, ℤ, List, [], ◌∷◌, ◌++◌, map, true, false,
  Option, none, some, arith, Bool-cases, inl, inr,
}
use axon_sdk_for_physical_ai.Os.{Os}
use axon_sdk_for_physical_ai.Descriptor.{TensorDescriptor}
use axon_sdk_for_physical_ai.Iox.{
  call, new_channel, publish, Iceoryx2Channel, sample, drain, cached, read_latest, open_port,
  waited_enough, subscriber_loop, step,
}
use axon_sdk_for_physical_ai.Iox.Newest.{newest}

newest-samples :
    (older : Option TensorDescriptor) (q : List TensorDescriptor) (d : TensorDescriptor)
    → newest older (map sample (q ++ d ∷ [])) ≡ some d
unfolding newest
newest-samples older [] d = refl
newest-samples older (x ∷ q) d = newest-samples (some x) q d

drain-samples :
    (c : Iceoryx2Channel) (q : List TensorDescriptor)
    → cached (drain c (map sample q)).0 ≡ newest (cached c) (map sample q)
unfolding drain newest
drain-samples c [] = refl
drain-samples c (d ∷ q) = drain-samples (record c { last = d; have = true }) q

-- The queue of a subscriber of the library, which is a parameter: how it takes a sample that is sent. A
-- bounded queue may drop older samples for it, but the sample is then the last of the queue.
module _ (deliver : List TensorDescriptor → TensorDescriptor → List TensorDescriptor)
    (keeps_newest : (q : List TensorDescriptor) (d : TensorDescriptor)
      → (kept : List TensorDescriptor) × (deliver q d ≡ kept ++ d ∷ [])) where
  -- The queue after a publisher has published frames, each of which the library loans a sample for.
  unfoldable pub publish_all :
      Iceoryx2Channel → List TensorDescriptor → List TensorDescriptor → List TensorDescriptor
  publish_all p q [] = q
  publish_all p q (d ∷ ds) = elim (publish p d true) [
    | none ↦ publish_all p q ds
    | some sent ↦ publish_all p (deliver q sent) ds
  ]

  publish_all-last :
      (p : Iceoryx2Channel) (q ds : List TensorDescriptor) (d : TensorDescriptor)
      → p.has_publisher ≡ true
      → (kept : List TensorDescriptor) × (publish_all p q (ds ++ d ∷ []) ≡ kept ++ d ∷ [])
  unfolding publish_all publish
  publish_all-last p q [] d on = let (kept, e) = keeps_newest q d in (kept, ground (arith, on, e))
  publish_all-last p q (x ∷ ds) d on =
      let (kept, e) = publish_all-last p (deliver q x) ds d on in (kept, ground (arith, on, e))

  -- When the library loans a sample for each frame, and its queue takes a sample that is sent as the last
  -- one, then after any number of frames, published by a channel with a publisher, the next `read_latest` of
  -- one with a subscriber returns the last of them.
  pub publish_all-read_latest :
      (p c : Iceoryx2Channel) (q ds : List TensorDescriptor) (d : TensorDescriptor)
      → p.has_publisher ≡ true
      → c.has_subscriber ≡ true
      → (read_latest c (map sample (publish_all p q (ds ++ d ∷ [])))).0 ≡ some d
  unfolding read_latest
  publish_all-read_latest p c q ds d on reads =
      let (kept, e) = publish_all-last p q ds d on in
      let back = drain-samples c (kept ++ d ∷ []) ∙ newest-samples (cached c) kept d in
      ap (λ x. (read_latest c (map sample x)).0) e ∙ ground (arith, reads, back)

-- With fuel for a round per pause of 20 ms, the wait for the library's objects ends.
pub subscriber_loop-ends :
    (fuel : ℕ) (timeout_ms : ℤ) (waited : ℕ) (s : Os)
    → waited_enough (waited + step * fuel) timeout_ms ≡ true
    → (r : Option Iceoryx2Channel) × ((subscriber_loop (suc fuel) timeout_ms waited s).0 ≡ some r)
unfolding subscriber_loop
subscriber_loop-ends zero timeout_ms waited s enough =
    let o = open_port s in
    elim (Bool-cases (o.0)) [
      | inl made ↦ (some (new_channel false true), ground (arith, made))
      | inr not_made ↦ elim (Bool-cases (waited_enough waited timeout_ms)) [
        | inl over ↦ (none, ground (arith, not_made, over))
        | inr more ↦
            let now : waited_enough waited timeout_ms ≡ true =
              subst (λ w. waited_enough w timeout_ms ≡ true) (omega arith) enough in
            absurd (ground (arith, now, more))
      ]
    ]
subscriber_loop-ends (suc fuel) timeout_ms waited s enough =
    let o = open_port s in
    elim (Bool-cases (o.0)) [
      | inl made ↦ (some (new_channel false true), ground (arith, made))
      | inr not_made ↦ elim (Bool-cases (waited_enough waited timeout_ms)) [
        | inl over ↦ (none, ground (arith, not_made, over))
        | inr more ↦
            let t = (call o.1).1 in
            let later : waited_enough (waited + step + step * fuel) timeout_ms ≡ true =
              subst (λ w. waited_enough w timeout_ms ≡ true) (omega arith) enough in
            let (r, e) = subscriber_loop-ends fuel timeout_ms (waited + step) t later in
            (r, ground (arith, not_made, more, e))
      ]
    ]
