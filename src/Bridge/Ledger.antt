-- ===== src/Bridge/Ledger.antt =====
-- The descriptors of a producer and of a consumer over their lives.
use axon_sdk_for_physical_ai.Common.{
  ℕ, ◌+◌, List, [], ◌∷◌, true, false, Option, none, some, arith, Option-cases, Bool-cases, inl, inr,
}
use axon_sdk_for_physical_ai.Os.{Os, call, close}
use axon_sdk_for_physical_ai.Os.Ledger.{
  Balanced, count, count_option, one_if, call-Balanced, close-Balanced, close_option-Balanced,
}
use axon_sdk_for_physical_ai.Sidecar.Client.{Message, SidecarClient, connect, recv_pool_handshake}
use axon_sdk_for_physical_ai.Sidecar.Client.Ledger.{
  connect-Balanced, recv_pool_handshake-Balanced, handshake_lost,
}
use axon_sdk_for_physical_ai.Subscriber.Ledger.{unmap_each-Balanced}
use axon_sdk_for_physical_ai.Publisher.{unmap_each}
use axon_sdk_for_physical_ai.Bridge.{
  Consumer, map_and_close, drop_client, no_client, attach_consumer, create_consumer,
  destroy_consumer,
}

map_and_close-Balanced :
    (a : ℕ) (fds : List ℕ) (s : Os) (h : ℕ)
    → Balanced a s (h + count a fds) (map_and_close fds s).1 h
unfolding map_and_close count
map_and_close-Balanced a [] s h = omega arith
map_and_close-Balanced a (fd ∷ fds) s h =
    let s1 = (call s).1 in
    let s2 = (close fd s1).1 in
    omega (
      arith,
      call-Balanced a s (h + one_if a fd + count a fds),
      close-Balanced a fd s1 (h + count a fds),
      map_and_close-Balanced a fds s2 h,
    )

-- What a consumer holds.
unfoldable pub consumer_held : ℕ → Option Consumer → ℕ
consumer_held a none = 0
consumer_held a (some c) = count_option a c.client.sock

attach_consumer-Balanced :
    (inbox : ℕ → Message) (a : ℕ) (c : SidecarClient) (s : Os)
    → Balanced a s
        (count_option a c.sock)
        (attach_consumer inbox c s).1
        (consumer_held a (attach_consumer inbox c s).0 + count a (handshake_lost inbox s))
unfolding attach_consumer drop_client consumer_held count
attach_consumer-Balanced inbox a c s =
    let r = recv_pool_handshake inbox s in
    let got = recv_pool_handshake-Balanced inbox a s (count_option a c.sock) in
    let lost = count a (handshake_lost inbox s) in
    elim (Option-cases r.0) [
      | inl out ↦ ground (arith, out, got, close_option-Balanced a c.sock r.1 lost)
      | inr (m, e) ↦
          ground (arith, e, got, map_and_close-Balanced a m.fds r.1 (count_option a c.sock + lost))
    ]

-- What a consumer loses in its creation: the descriptors of a message of the wrong size.
unfoldable pub consumer_lost : (ℕ → Message) → ℕ → Os → List ℕ
consumer_lost inbox timeout s =
    let r = connect timeout no_client s in
    elim (r.0.0) [ false ↦ [] | true ↦ handshake_lost inbox r.1 ]

create_consumer-Balanced :
    (inbox : ℕ → Message) (a timeout : ℕ) (s : Os)
    → Balanced a s 0 (create_consumer inbox timeout s).1 (
        consumer_held a (create_consumer inbox timeout s).0
        + count a (consumer_lost inbox timeout s))
unfolding create_consumer drop_client consumer_held consumer_lost count count_option
create_consumer-Balanced inbox a timeout s =
    let r = connect timeout no_client s in
    let joined = connect-Balanced a timeout no_client s in
    elim (Bool-cases (r.0.0)) [
      | inr out ↦ ground (arith, out, joined, close_option-Balanced a (r.0.1.sock) r.1 0)
      | inl on ↦ ground (arith, on, joined, attach_consumer-Balanced inbox a (r.0.1) r.1)
    ]

destroy_consumer-Balanced :
    (a : ℕ) (c : Consumer) (s : Os) (h : ℕ)
    → Balanced a s (h + consumer_held a (some c)) (destroy_consumer c s).1 h
unfolding destroy_consumer consumer_held
destroy_consumer-Balanced a c s h = omega (
  arith,
  unmap_each-Balanced a c.views s (h + count_option a c.client.sock),
  close_option-Balanced a c.client.sock (unmap_each c.views s).1 h,
)

-- A consumer that is created, and destroyed if it could be.
unfoldable pub consumer_life : (ℕ → Message) → ℕ → Os → Os
consumer_life inbox timeout s =
    let r = create_consumer inbox timeout s in
    elim (r.0) [ none ↦ r.1 | some c ↦ (destroy_consumer c r.1).1 ]

-- Whatever arrives and whichever calls fail, after a consumer has been created, or not, and destroyed, each
-- file descriptor that was opened or received has been closed, those of the pool and the socket included,
-- but for those that came with a handshake message of the wrong size.
pub consumer_life-Balanced :
    (inbox : ℕ → Message) (a timeout : ℕ) (s : Os)
    → Balanced a s 0 (consumer_life inbox timeout s) (count a (consumer_lost inbox timeout s))
unfolding consumer_life consumer_held
consumer_life-Balanced inbox a timeout s =
    let r = create_consumer inbox timeout s in
    let made = create_consumer-Balanced inbox a timeout s in
    elim (Option-cases r.0) [
      | inl out ↦ ground (arith, out, made)
      | inr (c, e) ↦ ground (
        arith,
        e,
        made,
        destroy_consumer-Balanced a c r.1 (count a (consumer_lost inbox timeout s)),
      )
    ]
