-- ===== src/Subscriber/Drain.antt =====
-- src/sidecar.cpp and src/subscriber.cpp: how the fences on the socket come into the ring.
use axon_sdk_for_physical_ai.Common.{
  ℕ, zero, suc, ◌+◌, ◌-◌, ◌≡◌, refl, sym, ap, ◌∙◌, List, [], ◌∷◌, ◌++◌, Bool, true, false, Option,
  none, some, length, length-append, if◌then◌else◌, ◌==◌, min, arith, Option-cases, Bool-cases, inl,
  inr, subst,
}
use axon_sdk_for_physical_ai.Os.{Os, M, ◌>>=◌, ◌>>◌, pure, call}
use axon_sdk_for_physical_ai.Sidecar.{pool_handshake_msg, max_sidecar_fds, close_each}
use axon_sdk_for_physical_ai.Sidecar.Client.{Message, read_exact, recv_fds, handshake_size}
use axon_sdk_for_physical_ai.Subscriber.{Subscriber}
use axon_sdk_for_physical_ai.Subscriber.Fences.{FenceRing, store_fence, store_all}

-- `SidecarMsg::SyncFence`, and `sizeof(SyncFenceHeader)`.
abbrev pub sync_fence_msg : ℕ
sync_fence_msg = 2

abbrev pub fence_size : ℕ
fence_size = 16

-- The loop that reads and drops a blob in chunks of 512 bytes; the fuel is the number of bytes.
unfoldable pub discard : ℕ → ℕ → M Bool
discard fuel zero = pure true
discard zero (suc left) = pure false
discard (suc fuel) (suc left) = do
  let chunk = min (suc left) 512
  framed ← read_exact chunk chunk
  if framed then discard fuel (suc left - chunk) else pure false

module _ (inbox : ℕ → Message) where
  -- `poll`, and `recv` with MSG_PEEK: the first byte of the message that the next call receives.
  unfoldable pub peek_tag : M (Option ℕ)
  peek_tag = do
    polled ← call
    elim polled [
      | none ↦ pure none
      | some n ↦ if n == 0 then pure none else do
        peeked ← call
        elim peeked [
          | none ↦ pure none
          | some k ↦ λ s. (if k == 0 then none else some (inbox s.calls).header.msg, s)
        ]
    ]

  -- A pool that is announced again: the blob is dropped and the descriptors are closed. `false` ends the
  -- loop, after `shutdown`.
  unfoldable pub drop_pool : Message → M Bool
  drop_pool m = do
    framed ← discard m.header.ext_len m.header.ext_len
    close_each m.fds
    if framed then pure true else (do _ ← call; pure false)

  -- What a message is to the loop: a fence, another message, or the end.
  unfoldable pub handle_other : ℕ → Message → M Bool
  handle_other tag m =
      if tag == pool_handshake_msg then drop_pool m else (do close_each m.fds; pure true)

  unfoldable pub fence_fd : ℕ → Message → Option ℕ
  fence_fd tag m =
      if tag == sync_fence_msg then elim m.fds [ fd ∷ [] ↦ some fd | _ ↦ none ] else none

  unfoldable pub next_message : M (Option (ℕ × Message))
  next_message = do
    peeked ← peek_tag
    elim peeked [
      | none ↦ pure none
      | some tag ↦ do
        received ←
            recv_fds inbox max_sidecar_fds
              (if tag == sync_fence_msg then fence_size else handshake_size)
        elim received [ none ↦ pure none | some m ↦ pure (some (tag, m)) ]
    ]

  -- `poll_sync_fences`, with `store_fence` for the sink. At most `fuel` messages are pending.
  unfoldable pub poll_sync_fences : ℕ → ℕ → FenceRing → M (ℕ × FenceRing)
  poll_sync_fences zero count ring = pure (count, ring)
  poll_sync_fences (suc fuel) count ring = do
    next ← next_message
    elim next [
      | none ↦ pure (count, ring)
      | some (tag, m) ↦ elim (fence_fd tag m) [
        | some fd ↦ do
          stored ← store_fence m.token fd ring
          poll_sync_fences fuel (count + 1) stored
        | none ↦ do
          more ← handle_other tag m
          elim more [ true ↦ poll_sync_fences fuel count ring | false ↦ pure (count, ring) ]
      ]
    ]

  unfoldable pub drain_fences : ℕ → Subscriber → M (ℕ × Subscriber)
  drain_fences fuel s = do
    (n, ring) ← poll_sync_fences fuel 0 s.ring
    pure (n, record s { ring = ring })

  -- The ring does not depend on the system.
  store_fence-ring :
      (t f : ℕ) (r : FenceRing) (s u : Os) → (store_fence t f r s).0 ≡ (store_fence t f r u).0
  unfolding store_fence
  store_fence-ring t f r s u = refl

  store_all-oldest :
      (fences : List (ℕ × ℕ)) (t f : ℕ) (r : FenceRing) (s u : Os)
      → (store_all (fences ++ (t, f) ∷ []) r u).0 ≡ (store_all fences (store_fence t f r s).0 u).0
  unfolding store_all
  store_all-oldest [] t f r s u = store_fence-ring t f r u s
  store_all-oldest ((t', f') ∷ older) t f r s u =
      let before = store_all-oldest older t f r s u in
      store_fence-ring t' f' (store_all (older ++ (t, f) ∷ []) r u).0
        (store_all (older ++ (t, f) ∷ []) r u).1 u
      ∙ ap (λ q. (store_fence t' f' q u).0) before
      ∙ store_fence-ring t' f' (store_all older (store_fence t f r s).0 u).0 u _

  -- The outcome of storing some fences, the newest first, in the ring, and counting them.
  unfoldable pub Stored : ℕ → FenceRing → Os → ℕ × FenceRing → Type 0
  Stored count ring u result =
      (fences : List (ℕ × ℕ)) × (result.0 ≡ count + length fences)
      × (result.1 ≡ (store_all fences ring u).0)

  one-Stored :
      (count t f : ℕ) (ring : FenceRing) (s u : Os) (result : ℕ × FenceRing)
      → Stored (count + 1) (store_fence t f ring s).0 u result
      → Stored count ring u result
  unfolding Stored
  one-Stored count t f ring s u result (fences, n, is) = (
    fences ++ (t, f) ∷ [],
    omega (arith, n, length-append fences ((t, f) ∷ [])),
    is ∙ sym (store_all-oldest fences t f ring s u),
  )

  none-Stored : (count : ℕ) (ring : FenceRing) (u : Os) → Stored count ring u (count, ring)
  unfolding Stored store_all
  none-Stored count ring u = ([], omega arith, refl)

  -- `poll_sync_fences` puts fences into the ring one after the other, as many as it reports, and leaves
  -- it alone otherwise, whatever arrives and whichever calls fail.
  pub poll_sync_fences-Stored :
      (fuel count : ℕ) (ring : FenceRing) (s u : Os)
      → Stored count ring u (poll_sync_fences fuel count ring s).0
  unfolding poll_sync_fences
  poll_sync_fences-Stored zero count ring s u = none-Stored count ring u
  poll_sync_fences-Stored (suc fuel) count ring s u =
      let next = next_message s in
      elim (Option-cases next.0) [
        | inl out ↦
            let step : (count, ring) ≡ (poll_sync_fences (suc fuel) count ring s).0 =
              ground (arith, out) in
            subst (Stored count ring u) step (none-Stored count ring u)
        | inr ((tag, m), e) ↦ elim (Option-cases (fence_fd tag m)) [
          | inr (fd, is) ↦
              let q = store_fence m.token fd ring next.1 in
              let step : (poll_sync_fences fuel (count + 1) q.0 q.1).0
                  ≡ (poll_sync_fences (suc fuel) count ring s).0 =
                ground (arith, e, is) in
              subst (Stored count ring u) step (
                one-Stored count m.token fd ring next.1 u _
                  (poll_sync_fences-Stored fuel (count + 1) q.0 q.1 u))
          | inl other ↦
              let more = handle_other tag m next.1 in
              elim (Bool-cases more.0) [
                | inl on ↦
                    let step : (poll_sync_fences fuel count ring more.1).0
                        ≡ (poll_sync_fences (suc fuel) count ring s).0 =
                      ground (arith, e, other, on) in
                    subst (Stored count ring u) step
                      (poll_sync_fences-Stored fuel count ring more.1 u)
                | inr off ↦
                    let step : (count, ring) ≡ (poll_sync_fences (suc fuel) count ring s).0 =
                      ground (arith, e, other, off) in
                    subst (Stored count ring u) step (none-Stored count ring u)
              ]
        ]
      ]
