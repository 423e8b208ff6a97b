-- ===== src/Publisher/Runs.antt =====
-- A sequence of calls of `TensorPublisher::publish` (src/publisher.cpp).
use axon_sdk_for_physical_ai.Publisher.Frames.{
  Frame, publish_frame, IsStamped, Refused, Accepted, publish_frame-Refused, publish_frame-Accepted,
}
use axon_sdk_for_physical_ai.Common.{
  subst, refl, ◌∙◌, ℕ, suc, ◌+◌, ◌^◌, ◌<◌, ◌≡◌, List, [], ◌∷◌, Option, none, some, arith,
  Option-cases, inl, inr, length, map, wrap64, Errno,
}
use axon_sdk_for_physical_ai.Descriptor.{TensorDescriptor, descriptor_error}
use axon_sdk_for_physical_ai.Os.{Os, M, ◌>>=◌, pure}
use axon_sdk_for_physical_ai.Publisher.{TensorPublisher}

-- One frame after the other, with the result of each.
unfoldable pub publish_each :
    ℕ → List Frame → TensorPublisher → M (List (Option Errno) × TensorPublisher)
publish_each fuel [] p = pure ([], p)
publish_each fuel (f ∷ fs) p = do
  (result, q) ← publish_frame fuel f p
  (results, t) ← publish_each fuel fs q
  pure (result ∷ results, t)

-- How many of the frames fit a buffer of `size` bytes, how many do not, and the last that does.
unfoldable pub accepted : ℕ → List Frame → ℕ
accepted size [] = 0
accepted size (f ∷ fs) = elim (descriptor_error f.filled size) [
  | none ↦ suc (accepted size fs)
  | some e ↦ accepted size fs
]

unfoldable pub refused : ℕ → List Frame → ℕ
refused size [] = 0
refused size (f ∷ fs) = elim (descriptor_error f.filled size) [
  | none ↦ refused size fs
  | some e ↦ suc (refused size fs)
]

abbrev pub or_else : Option Frame → Option Frame → Option Frame
or_else (some g) f = some g
or_else none f = f

unfoldable pub last_accepted : ℕ → List Frame → Option Frame
last_accepted size [] = none
last_accepted size (f ∷ fs) =
    or_else (last_accepted size fs)
      (elim (descriptor_error f.filled size) [ none ↦ some f | some e ↦ none ])

-- What the slot shows, where `last` is the last frame accepted: if there is none, what it showed before.
abbrev pub ShowsLast : Option Frame → ℕ → Option TensorDescriptor → Option TensorDescriptor → Type 0
ShowsLast none seqno before slot = slot ≡ before
ShowsLast (some f) seqno before slot =
    (d : TensorDescriptor) × (slot ≡ some d) × IsStamped f seqno d

-- The results and the publisher after a sequence of frames, from `p` with buffers of `size` bytes.
pub record Accounted (size : ℕ) (fs : List Frame) (p : TensorPublisher)
    (results : List (Option Errno)) (q : TensorPublisher) : Type 0 where
  pub reported : results ≡ map (λ f. descriptor_error f.filled size) fs
  pub numbered : q.seqno ≡ wrap64 (p.seqno + accepted size fs)
  pub counted : q.rejected ≡ wrap64 (p.rejected + refused size fs)
  pub every : accepted size fs + refused size fs ≡ length fs
  pub shown : ShowsLast (last_accepted size fs) q.seqno p.slot q.slot

last_accepted-none :
    (size : ℕ) (fs : List Frame) → last_accepted size fs ≡ none → accepted size fs ≡ 0
unfolding last_accepted accepted
last_accepted-none size [] e = refl
last_accepted-none size (f ∷ fs) e = ground (arith, last_accepted-none size fs)

shown-Refused :
    (l : Option Frame) (seqno : ℕ) (before between slot : Option TensorDescriptor)
    → between ≡ before
    → ShowsLast l seqno between slot
    → ShowsLast (or_else l none) seqno before slot
shown-Refused none seqno before between slot same h = h ∙ same
shown-Refused (some g) seqno before between slot same h = h

shown-Accepted :
    (f : Frame) (l : Option Frame) (last seqno : ℕ) (before between slot : Option TensorDescriptor)
    → ((d : TensorDescriptor) × (between ≡ some d) × IsStamped f last d)
    → (l ≡ none → last ≡ seqno)
    → ShowsLast l seqno between slot
    → ShowsLast (or_else l (some f)) seqno before slot
shown-Accepted f none last seqno before between slot (d, at, is) same h =
    (d, h ∙ at, subst (λ n. IsStamped f n d) (same refl) is)
shown-Accepted f (some g) last seqno before between slot first same h = h

module _ (f : Frame) (fs : List Frame) (p : TensorPublisher) (r : Option Errno × TensorPublisher)
    (results : List (Option Errno)) (q : TensorPublisher)
    (rest : Accounted p.buffer_size fs r.1 results q) where
  cons-Refused :
      (e : Errno)
      → descriptor_error f.filled p.buffer_size ≡ some e
      → Refused f e p r
      → Accounted p.buffer_size (f ∷ fs) p (r.0 ∷ results) q
  unfolding accepted refused last_accepted
  cons-Refused e out is =
      let size = p.buffer_size in
      let good : accepted size (f ∷ fs) ≡ accepted size fs = ground (arith, out) in
      let bad : refused size (f ∷ fs) ≡ suc (refused size fs) = ground (arith, out) in
      let last : or_else (last_accepted size fs) none ≡ last_accepted size (f ∷ fs) =
        ground (arith, out) in
      record {
        reported = ground (arith, is.result, rest.reported, out);
        numbered = omega (arith, is.number, rest.numbered, good);
        counted = omega (arith, is.count, rest.counted, bad);
        every = omega (arith, rest.every, good, bad);
        shown =
            subst (λ l. ShowsLast l q.seqno p.slot q.slot) last
              (shown-Refused (last_accepted size fs) q.seqno p.slot r.1.slot q.slot is.slot
                rest.shown);
      }

  cons-Accepted :
      descriptor_error f.filled p.buffer_size ≡ none
      → Accepted f p r
      → Accounted p.buffer_size (f ∷ fs) p (r.0 ∷ results) q
  unfolding accepted refused last_accepted
  cons-Accepted ok is =
      let size = p.buffer_size in
      let good : accepted size (f ∷ fs) ≡ suc (accepted size fs) = ground (arith, ok) in
      let bad : refused size (f ∷ fs) ≡ refused size fs = ground (arith, ok) in
      let last : or_else (last_accepted size fs) (some f) ≡ last_accepted size (f ∷ fs) =
        ground (arith, ok) in
      record {
        reported = ground (arith, is.result, rest.reported, ok);
        numbered = omega (arith, is.number, rest.numbered, good);
        counted = omega (arith, is.count, rest.counted, bad);
        every = omega (arith, rest.every, good, bad);
        shown =
            subst (λ l. ShowsLast l q.seqno p.slot q.slot) last
              (shown-Accepted f (last_accepted size fs) r.1.seqno q.seqno p.slot r.1.slot q.slot
                is.slot number_stays rest.shown);
      }
    where
      number_stays : last_accepted p.buffer_size fs ≡ none → r.1.seqno ≡ q.seqno
      number_stays over =
          let still = last_accepted-none p.buffer_size fs over in
          omega (arith, is.number, rest.numbered)

-- After any sequence of frames that the caller fills in and publishes, each call has returned the error of
-- `descriptor_error` for that frame and the publisher's buffer size, or none where that is none; the
-- sequence number has gone up by the number of frames without an error and the count of refused ones by the
-- number of those with one, modulo 2 ^ 64; and the slot shows the last frame without an error, with the
-- present sequence number, the generation of its pool, its buffer and its time, and in all other fields as
-- it was filled in, or is as it was before if there is no such frame.
pub publish_each-Accounted :
    (fuel : ℕ) (fs : List Frame) (p : TensorPublisher) (s : Os)
    → p.seqno < 2 ^ 64
    → p.rejected < 2 ^ 64
    → Accounted p.buffer_size fs p (publish_each fuel fs p s).0.0 (publish_each fuel fs p s).0.1
unfolding publish_each accepted refused last_accepted
publish_each-Accounted fuel [] p s n r = record {
  reported = refl;
  numbered = omega arith;
  counted = omega arith;
  every = omega arith;
  shown = refl;
}
publish_each-Accounted fuel (f ∷ fs) p s n r =
    let x = publish_frame fuel f p s in
    let rest = publish_each fuel fs x.0.1 x.1 in
    elim (Option-cases (descriptor_error f.filled p.buffer_size)) [
      | inr (e, out) ↦
          let is = publish_frame-Refused fuel f e p s out in
          let all =
            publish_each-Accounted fuel fs x.0.1 x.1 (omega (arith, is.number))
              (omega (arith, is.count)) in
          cons-Refused f fs p x.0 rest.0.0 rest.0.1
            (subst (λ b. Accounted b fs x.0.1 rest.0.0 rest.0.1) is.size all) e out is
      | inl ok ↦
          let is = publish_frame-Accepted fuel f p s ok in
          let all =
            publish_each-Accounted fuel fs x.0.1 x.1 (omega (arith, is.number))
              (omega (arith, is.count)) in
          cons-Accepted f fs p x.0 rest.0.0 rest.0.1
            (subst (λ b. Accounted b fs x.0.1 rest.0.0 rest.0.1) is.size all) ok is
    ]
