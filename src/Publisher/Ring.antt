-- ===== src/Publisher/Ring.antt =====
-- Which buffer each frame goes to.
use native.Mathlib.Nat.{div-add-mod', mul-le-mul_right, add-mod_right}
use native.Mathlib.Decide.{dec_le}
use axon_sdk_for_physical_ai.Common.{
  ℕ, zero, suc, ◌+◌, ◌*◌, ◌/◌, ◌%◌, ◌^◌, ◌<◌, ◌≤◌, ◌≡◌, ◌≢◌, sym, Option, none, some, arith, inl,
  inr, wrap64, ◌∙◌, ap, length,
}
use axon_sdk_for_physical_ai.Descriptor.{TensorDescriptor}
use axon_sdk_for_physical_ai.Os.{Os, M, ◌>>=◌, pure}
use axon_sdk_for_physical_ai.Pool.{TensorPool}
use axon_sdk_for_physical_ai.Publisher.{TensorPublisher, acquire_descriptor, publish}
use axon_sdk_for_physical_ai.Publisher.Steps.{publish_total}

-- Numbers less than `n` apart have different remainders.
no_lap : (a b n : ℕ) → a < b → b < a + n → a % n ≢ b % n
no_lap a b n lt near e = elim (dec_le (b / n) (a / n)) [
  | yes le ↦ absurd (omega (arith, div-add-mod' a n, div-add-mod' b n, mul-le-mul_right n le))
  | no gt ↦
      let step : a / n + 1 ≤ b / n = omega arith in
      let scaled : (a / n + 1) * n ≤ b / n * n = mul-le-mul_right n step in
      let expand : (a / n + 1) * n ≡ a / n * n + n = omega arith in
      absurd (omega (arith, div-add-mod' a n, div-add-mod' b n, scaled, expand))
]

-- The producer's loop: `k` rounds of `acquire_descriptor`, the caller's filling in of the descriptor, and
-- `publish`, each at its time and with the connections then pending.
module _ (pool : TensorPool) (fill : ℕ → TensorDescriptor → TensorDescriptor)
    (now fuel : ℕ → ℕ) where
  unfoldable pub produce : ℕ → TensorPublisher → M TensorPublisher
  produce zero p = pure p
  produce (suc k) p = do
    q ← produce k p
    let (a, r) = acquire_descriptor pool q
    (done, t) ←
        publish (fuel k) pool (now k) a.buffer_index none (record r { staging = fill k r.staging })
    pure t

  -- The buffer of frame `k`.
  abbrev pub buffer_of : ℕ → TensorPublisher → Os → Option ℕ
  buffer_of k p s = (acquire_descriptor pool (produce k p s).0).0.buffer_index

  publish-next_index :
      (fuel : ℕ) (now : ℕ) (index fd : Option ℕ) (p : TensorPublisher) (s : Os)
      → (publish fuel pool now index fd p s).0.1.next_index ≡ p.next_index
  publish-next_index fuel now index fd p s = elim (publish_total fuel pool now index fd p s) [
    | inl (e, out, denied, r) ↦ ap (λ x. x.next_index) r.counted
    | inr (ok, accepted, r) ↦ r.next
  ]

  produce-next_index :
      (k : ℕ) (p : TensorPublisher) (s : Os)
      → 0 < length pool.share_fds
      → p.next_index + k < 2 ^ 64
      → (produce k p s).0.next_index ≡ p.next_index + k
  unfolding produce acquire_descriptor
  produce-next_index zero p s some_fds fits = omega arith
  produce-next_index (suc k) p s some_fds fits =
      let before = produce-next_index k p s some_fds (omega arith) in
      let q = (produce k p s).0 in
      let a = acquire_descriptor pool q in
      let moved : a.1.next_index ≡ wrap64 (q.next_index + 1) = ground arith in
      let kept =
        publish-next_index (fuel k) (now k) a.0.buffer_index none
          (record a.1 { staging = fill k a.1.staging }) (produce k p s).1 in
      omega (arith, before, moved, kept)

  buffer_of-index :
      (k : ℕ) (p : TensorPublisher) (s : Os)
      → 0 < length pool.share_fds
      → p.next_index + k < 2 ^ 64
      → buffer_of k p s ≡ some ((p.next_index + k) % length pool.share_fds)
  unfolding acquire_descriptor
  buffer_of-index k p s some_fds fits =
      let at = produce-next_index k p s some_fds fits in ground (arith, at)

  -- With a pool of `n` buffers, and while `next_index` stays below 2 ^ 64, a frame's buffer is given to none of the next `n - 1` frames, whatever
  -- the caller fills in and whether the frames are accepted, and is given to the `n`th.
  pub buffer_of-lap :
      (i : ℕ) (p : TensorPublisher) (s : Os)
      → 0 < length pool.share_fds
      → p.next_index + i + length pool.share_fds < 2 ^ 64
      → ((j : ℕ) → i < j → j < i + length pool.share_fds → buffer_of i p s ≢ buffer_of j p s)
        × (buffer_of (i + length pool.share_fds) p s ≡ buffer_of i p s)
  buffer_of-lap i p s some_fds fits =
      let n = length pool.share_fds in
      let x = p.next_index in
      let here = buffer_of-index i p s some_fds (omega arith) in
      (
        λ j lo hi same.
            let there = buffer_of-index j p s some_fds (omega arith) in
            let eq : some ((x + i) % n) ≡ some ((x + j) % n) = sym here ∙ same ∙ there in
            no_lap (x + i) (x + j) n (omega arith) (omega arith) (ground (arith, eq)),
        let lap = buffer_of-index (i + n) p s some_fds (omega arith) in
            let assoc : x + (i + n) ≡ x + i + n = omega arith in
            lap ∙ ap some (ap (λ y. y % n) assoc ∙ add-mod_right (x + i) n) ∙ sym here,
      )
