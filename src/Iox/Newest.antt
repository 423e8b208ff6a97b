-- ===== src/Iox/Newest.antt =====
-- The newest sample wins.
use axon_sdk_for_physical_ai.Common.{
  inr, false, subst, inl, ◌⊎◌, Bool, ℕ, zero, suc, ◌≡◌, refl, sym, ap, ◌∙◌, List, [], ◌∷◌, ◌++◌,
  true, Option, some, arith,
}
use axon_sdk_for_physical_ai.Descriptor.{TensorDescriptor}
use axon_sdk_for_physical_ai.Iox.{
  Iceoryx2Channel, Received, sample, nothing, broken, drain, cached, read_latest,
}

-- The newest sample of a list, or an older one.
unfoldable pub newest : Option TensorDescriptor → List Received → Option TensorDescriptor
newest older [] = older
newest older (sample d ∷ rest) = newest (some d) rest
newest older (nothing ∷ rest) = newest older rest
newest older (broken ∷ rest) = newest older rest

newest-append :
    (older : Option TensorDescriptor) (a b : List Received)
    → newest older (a ++ b) ≡ newest (newest older a) b
unfolding newest
newest-append older [] b = refl
newest-append older (sample d ∷ a) b = newest-append (some d) a b
newest-append older (nothing ∷ a) b = newest-append older a b
newest-append older (broken ∷ a) b = newest-append older a b

-- From a channel to a later one, all that `front` holds has been received.
pub record HasReceived (c d : Iceoryx2Channel) (front : List Received) : Type 0 where
  pub shown : cached d ≡ newest (cached c) front
  pub reads : d.has_subscriber ≡ c.has_subscriber

append_assoc : (a b c : List Received) → (a ++ b) ++ c ≡ a ++ (b ++ c)
append_assoc [] b c = refl
append_assoc (x ∷ a) b c = ap (λ r. x ∷ r) (append_assoc a b c)

abbrev pub is_sample : Received → Bool
is_sample (sample d) = true
is_sample nothing = false
is_sample broken = false

-- A call that receives `front` and leaves `rest` has gone on up to an answer that is no sample, or to the
-- end of the stream.
abbrev pub IsDrained : List Received → List Received → Type 0
IsDrained front rest =
    (rest ≡ [])
    ⊎ ((kept : List Received) × (r : Received) × (front ≡ kept ++ r ∷ []) × (is_sample r ≡ false))

after-IsDrained :
    (before front rest : List Received) → IsDrained front rest → IsDrained (before ++ front) rest
after-IsDrained before front rest (inl over) = inl over
after-IsDrained before front rest (inr (kept, r, split, none_left)) = inr (
  before ++ kept,
  r,
  ap (λ x. before ++ x) split ∙ sym (append_assoc before kept (r ∷ [])),
  none_left,
)

drain-HasReceived :
    (c : Iceoryx2Channel) (queue : List Received)
    → (front : List Received) × (queue ≡ front ++ (drain c queue).1)
      × HasReceived c (drain c queue).0 front
      × IsDrained front (drain c queue).1
unfolding drain newest
drain-HasReceived c [] = ([], refl, record { shown = refl; reads = refl }, inl refl)
drain-HasReceived c (sample d ∷ rest) =
    let c' : Iceoryx2Channel = record c { last = d; have = true } in
    let (front, split, more, stopped) = drain-HasReceived c' rest in
    (
      sample d ∷ front,
      ap (λ r. sample d ∷ r) split,
      record { shown = more.shown; reads = more.reads },
      after-IsDrained (sample d ∷ []) front (drain c' rest).1 stopped,
    )
drain-HasReceived c (nothing ∷ rest) =
    (nothing ∷ [], refl, record { shown = refl; reads = refl }, inr ([], nothing, refl, refl))
drain-HasReceived c (broken ∷ rest) =
    (broken ∷ [], refl, record { shown = refl; reads = refl }, inr ([], broken, refl, refl))

-- `n` calls of `read_latest`, whose results are dropped.
unfoldable pub reads : ℕ → Iceoryx2Channel → List Received → Iceoryx2Channel × List Received
reads zero c queue = (c, queue)
reads (suc n) c queue = let r = read_latest c queue in reads n (r.1.0) (r.1.1)

read_latest-HasReceived :
    (c : Iceoryx2Channel) (queue : List Received)
    → c.has_subscriber ≡ true
    → let r = read_latest c queue in
      (front : List Received) × (queue ≡ front ++ r.1.1)
      × HasReceived c (r.1.0) front
      × (r.0 ≡ newest (cached c) front)
      × IsDrained front r.1.1
unfolding read_latest
read_latest-HasReceived c queue reads =
    let (front, split, got, stopped) = drain-HasReceived c queue in
    let left : (drain c queue).1 ≡ (read_latest c queue).1.1 = ground (arith, reads) in
    (
      front,
      ground (arith, reads, split),
      record { shown = ground (arith, reads, got.shown); reads = ground (arith, reads, got.reads) },
      ground (arith, reads, got.shown),
      subst (IsDrained front) left stopped,
    )

reads-HasReceived :
    (n : ℕ) (c : Iceoryx2Channel) (queue : List Received)
    → c.has_subscriber ≡ true
    → (front : List Received) × (queue ≡ front ++ (reads n c queue).1)
      × HasReceived c (reads n c queue).0 front
unfolding reads newest
reads-HasReceived zero c queue on = ([], refl, record { shown = refl; reads = refl })
reads-HasReceived (suc n) c queue on =
    let r = read_latest c queue in
    let (front, split, got, result, stopped) = read_latest-HasReceived c queue on in
    let (more, split2, got2) = reads-HasReceived n (r.1.0) (r.1.1) (got.reads ∙ on) in
    (
      front ++ more,
      split ∙ ap (λ x. front ++ x) split2 ∙ sym (append_assoc front more _),
      record {
        shown =
            got2.shown
            ∙ ap (λ o. newest o more) got.shown
            ∙ sym (newest-append (cached c) front more);
        reads = got2.reads ∙ got.reads;
      },
    )

-- However a stream of samples, empty answers and errors is spread over `n + 1` calls of `read_latest` on a
-- channel with a subscriber, by the end of the last call a front part of the stream has been received, up to
-- an answer that is no sample or to the end of the stream, and the call returns the newest sample in that
-- part, or what the channel had cached at the start if the part has no sample.
pub read_latest-newest :
    (n : ℕ) (c : Iceoryx2Channel) (queue : List Received)
    → c.has_subscriber ≡ true
    → let r = reads n c queue in
      let last = read_latest (r.0) (r.1) in
      (front : List Received) × (queue ≡ front ++ last.1.1)
      × (last.0 ≡ newest (cached c) front)
      × IsDrained front last.1.1
read_latest-newest n c queue on =
    let r = reads n c queue in
    let (front, split, got) = reads-HasReceived n c queue on in
    let (more, split2, got2, result, stopped) =
      read_latest-HasReceived (r.0) (r.1) (got.reads ∙ on) in
    (
      front ++ more,
      split ∙ ap (λ x. front ++ x) split2 ∙ sym (append_assoc front more _),
      result ∙ ap (λ o. newest o more) got.shown ∙ sym (newest-append (cached c) front more),
      after-IsDrained front more _ stopped,
    )
