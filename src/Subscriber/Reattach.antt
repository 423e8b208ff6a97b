-- ===== src/Subscriber/Reattach.antt =====
-- The stored frame of a subscriber that attaches again.
use axon_sdk_for_physical_ai.Common.{
  ℕ, ◌≡◌, refl, false, arith, Option-cases, Bool-cases, inl, inr, ◌⊎◌, ◌==◌, subst, sym,
}
use axon_sdk_for_physical_ai.Os.{Os}
use axon_sdk_for_physical_ai.Descriptor.{wire_version}
use axon_sdk_for_physical_ai.Sidecar.Client.{Message, connect, recv_pool_handshake}
use axon_sdk_for_physical_ai.Publisher.{map_each}
use axon_sdk_for_physical_ai.Subscriber.{Subscriber}
use axon_sdk_for_physical_ai.Subscriber.Attach.{
  detach, adopt, open_channel, attach, receive, wait_handshake,
}
use axon_sdk_for_physical_ai.Subscriber.View.{WellAttached}

open_channel-have :
    (timeout : ℕ) (v : Subscriber) (s : Os)
    → (open_channel timeout v s).0.1.have_last_good ≡ v.have_last_good
unfolding open_channel
open_channel-have timeout v s = ground arith

detach-have : (v : Subscriber) (s : Os) → (detach v s).0.have_last_good ≡ false
unfolding detach
detach-have v s = refl

attach-have :
    (timeout : ℕ) (m : Message) (v : Subscriber) (s : Os)
    → (attach timeout m v s).0.1.have_last_good ≡ false
unfolding attach adopt
attach-have timeout m v s =
    let g = detach v s in
    let t = adopt m g.0 in
    let views = map_each t.fds g.1 in
    ground
      (arith, detach-have v s, open_channel-have timeout (record t { views = views.0 }) views.1)

receive-cases :
    (inbox : ℕ → Message) (timeout : ℕ) (v : Subscriber) (s : Os)
    → ((receive inbox timeout v s).0.1 ≡ v)
      ⊎ ((receive inbox timeout v s).0.1.have_last_good ≡ false)
unfolding receive
receive-cases inbox timeout v s = elim (Option-cases (recv_pool_handshake inbox s).0) [
  | inl out ↦ inl (ground arith)
  | inr (m, e) ↦ elim (Bool-cases (m.header.wire_version == wire_version)) [
    | inr differs ↦ inl (ground arith)
    | inl same ↦ inr (ground (arith, attach-have timeout m v (recv_pool_handshake inbox s).1))
  ]
]

-- After `wait_handshake`, on each path, the stored frame is forgotten or in a buffer that is still
-- mapped, if it was before: no fallback shows a frame of a pool that has been let go.
pub wait_handshake-WellAttached :
    (inbox : ℕ → Message) (timeout : ℕ) (v : Subscriber) (s : Os)
    → WellAttached v
    → WellAttached (wait_handshake inbox timeout v s).0.1
unfolding wait_handshake
wait_handshake-WellAttached inbox timeout v s h =
    let r = connect timeout v.client s in
    let t : Subscriber = record v { client = r.0.1 } in
    let kept : WellAttached t = h in
    elim (Bool-cases r.0.0) [
      | inr down ↦
          let same : t ≡ (wait_handshake inbox timeout v s).0.1 = ground arith in
          subst WellAttached same kept
      | inl up ↦
          let same : (receive inbox timeout t r.1).0.1 ≡ (wait_handshake inbox timeout v s).0.1 =
            ground arith in
          subst WellAttached same (elim (receive-cases inbox timeout t r.1) [
            | inl stays ↦ subst WellAttached (sym stays) kept
            | inr forgets ↦ λ e. absurd (ground (arith, forgets, e))
          ])
    ]
