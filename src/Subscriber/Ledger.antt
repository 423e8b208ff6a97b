-- ===== src/Subscriber/Ledger.antt =====
-- The descriptors and the views of a subscriber, as it attaches and lets go.
use axon_sdk_for_physical_ai.Common.{
  ℕ, zero, suc, ◌+◌, ◌≡◌, refl, List, [], ◌∷◌, true, false, Option, none, some, arith, Option-cases,
  inl, inr,
}
use axon_sdk_for_physical_ai.Os.{Os, call, call_open, close_option}
use axon_sdk_for_physical_ai.Os.Ledger.{
  Balanced, count, count_option, one_if, call-Balanced, call_open-Balanced, close-Balanced,
  close_option-Balanced,
}
use axon_sdk_for_physical_ai.Sidecar.{close_each}
use axon_sdk_for_physical_ai.Sidecar.Client.{
  Message, SidecarClient, connect, recv_pool_handshake, pauses,
}
use axon_sdk_for_physical_ai.Sidecar.Client.Ledger.{
  close_each-Balanced, connect-Balanced, recv_pool_handshake-Balanced, handshake_lost,
}
use axon_sdk_for_physical_ai.Publisher.{map_each, unmap_each}
use axon_sdk_for_physical_ai.Publisher.Channel.{attach_loop, map_slot}
use axon_sdk_for_physical_ai.Subscriber.{Subscriber}
use axon_sdk_for_physical_ai.Subscriber.Fences.{FenceSlot, close_slots, close_fences}
use axon_sdk_for_physical_ai.Subscriber.Attach.{
  detach, adopt, open_channel, attach, receive, wait_handshake,
}

-- The copies of `a` in the fence ring, and in the subscriber.
unfoldable pub slots_held : ℕ → List FenceSlot → ℕ
slots_held a [] = 0
slots_held a (x ∷ xs) = count_option a x.fd + slots_held a xs

unfoldable pub subscriber_held : ℕ → Subscriber → ℕ
subscriber_held a s = count a s.fds + slots_held a s.ring.fences + count_option a s.client.sock

pub unmap_each-Balanced :
    (a : ℕ) (views : List (Option ℕ)) (s : Os) (h : ℕ) → Balanced a s h (unmap_each views s).1 h
unfolding unmap_each
unmap_each-Balanced a [] s h = omega arith
unmap_each-Balanced a (none ∷ views) s h = unmap_each-Balanced a views s h
unmap_each-Balanced a (some v ∷ views) s h =
    omega (arith, call-Balanced a s h, unmap_each-Balanced a views (call s).1 h)

pub map_each-Balanced :
    (a : ℕ) (fds : List ℕ) (s : Os) (h : ℕ) → Balanced a s h (map_each fds s).1 h
unfolding map_each
map_each-Balanced a [] s h = omega arith
map_each-Balanced a (fd ∷ fds) s h =
    omega (arith, call-Balanced a s h, map_each-Balanced a fds (call s).1 h)

pub close_slots-Balanced :
    (a : ℕ) (slots : List FenceSlot) (s : Os) (h : ℕ)
    → Balanced a s (h + slots_held a slots) (close_slots slots s).1 h
      × (slots_held a (close_slots slots s).0 ≡ 0)
unfolding close_slots slots_held count_option
close_slots-Balanced a [] s h = (omega arith, refl)
close_slots-Balanced a (x ∷ xs) s h =
    let rest = close_slots-Balanced a xs (close_option x.fd s).1 h in
    (
      omega (arith, close_option-Balanced a x.fd s (h + slots_held a xs), rest.0),
      omega (arith, rest.1),
    )

detach-Balanced :
    (a : ℕ) (v : Subscriber) (s : Os)
    → Balanced a s (subscriber_held a v) (detach v s).1 (subscriber_held a (detach v s).0)
      × (subscriber_held a (detach v s).0 ≡ count_option a v.client.sock)
unfolding detach close_fences subscriber_held count
detach-Balanced a v s =
    let s1 = (unmap_each v.views s).1 in
    let s2 = (close_each v.fds s1).1 in
    let sock = count_option a v.client.sock in
    let ring = slots_held a v.ring.fences in
    let closed = close_slots-Balanced a v.ring.fences s2 sock in
    (
      omega (
        arith,
        unmap_each-Balanced a v.views s (subscriber_held a v),
        close_each-Balanced a v.fds s1 (ring + sock),
        closed.0,
        closed.1,
      ),
      omega (arith, closed.1),
    )

map_slot-Balanced : (a fd : ℕ) (s : Os) (h : ℕ) → Balanced a s (h + one_if a fd) (map_slot fd s).1 h
unfolding map_slot
map_slot-Balanced a fd s h =
    let s1 = (call s).1 in
    let s2 = (call s1).1 in
    ground (
      arith,
      call-Balanced a s (h + one_if a fd),
      call-Balanced a s1 (h + one_if a fd),
      close-Balanced a fd s2 h,
    )

attach_loop-Balanced : (a left : ℕ) (s : Os) (h : ℕ) → Balanced a s h (attach_loop left s).1 h
unfolding attach_loop count_option
attach_loop-Balanced a zero s h = elim (Option-cases (call_open s).0) [
  | inl out ↦ ground (arith, call_open-Balanced a s h)
  | inr (fd, e) ↦ ground (arith, call_open-Balanced a s h, map_slot-Balanced a fd (call_open s).1 h)
]
attach_loop-Balanced a (suc left) s h = elim (Option-cases (call_open s).0) [
  | inl out ↦
      let s1 = (call_open s).1 in
      ground (
        arith,
        call_open-Balanced a s h,
        call-Balanced a s1 h,
        attach_loop-Balanced a left (call s1).1 h,
      )
  | inr (fd, e) ↦ ground (arith, call_open-Balanced a s h, map_slot-Balanced a fd (call_open s).1 h)
]

pub open_channel-Balanced :
    (a timeout : ℕ) (v : Subscriber) (s : Os)
    → Balanced a s
        (subscriber_held a v)
        (open_channel timeout v s).1
        (subscriber_held a (open_channel timeout v s).0.1)
unfolding open_channel subscriber_held
open_channel-Balanced a timeout v s = ground (
  arith,
  call-Balanced a s (subscriber_held a v),
  attach_loop-Balanced a (pauses timeout) s (subscriber_held a v),
  attach_loop-Balanced a (pauses timeout) (call s).1 (subscriber_held a v),
)

pub adopt-held :
    (a : ℕ) (m : Message) (v : Subscriber)
    → subscriber_held a (adopt m v) + count a v.fds ≡ subscriber_held a v + count a m.fds
unfolding adopt subscriber_held
adopt-held a m v = omega arith

detach-no_fds : (a : ℕ) (v : Subscriber) (s : Os) → count a (detach v s).0.fds ≡ 0
unfolding detach count
detach-no_fds a v s = refl

view_free :
    (a : ℕ) (v : Subscriber) (views : List (Option ℕ))
    → subscriber_held a (record v { views = views }) ≡ subscriber_held a v
unfolding subscriber_held
view_free a v views = refl

attach-Balanced :
    (a timeout : ℕ) (m : Message) (v : Subscriber) (s : Os)
    → Balanced a s
        (subscriber_held a v + count a m.fds)
        (attach timeout m v s).1
        (subscriber_held a (attach timeout m v s).0.1)
unfolding attach
attach-Balanced a timeout m v s =
    let g = detach v s in
    let t = adopt m g.0 in
    let views = map_each t.fds g.1 in
    let opened = open_channel-Balanced a timeout (record t { views = views.0 }) views.1 in
    ground (
      arith,
      (detach-Balanced a v s).0,
      adopt-held a m g.0,
      detach-no_fds a v s,
      map_each-Balanced a t.fds g.1 (subscriber_held a t),
      view_free a t views.0,
      opened,
    )

pub count-none : (a : ℕ) → count a [] ≡ 0
unfolding count
count-none a = refl

receive-Balanced :
    (inbox : ℕ → Message) (a timeout : ℕ) (v : Subscriber) (s : Os)
    → Balanced a s
        (subscriber_held a v)
        (receive inbox timeout v s).1
        (subscriber_held a (receive inbox timeout v s).0.1 + count a (handshake_lost inbox s))
unfolding receive
receive-Balanced inbox a timeout v s =
    let got = recv_pool_handshake-Balanced inbox a s (subscriber_held a v) in
    let s1 = (recv_pool_handshake inbox s).1 in
    let lost = count a (handshake_lost inbox s) in
    elim (Option-cases (recv_pool_handshake inbox s).0) [
      | inl out ↦ ground (arith, got, out, count-none a)
      | inr (m, e) ↦ ground (
        arith,
        got,
        e,
        close_each-Balanced a m.fds s1 (subscriber_held a v + lost),
        attach-Balanced a timeout m v s1,
      )
    ]

-- What a handshake loses when it starts at `s` on a client that it has first to connect.
unfoldable pub wait_lost : (ℕ → Message) → ℕ → Subscriber → Os → List ℕ
wait_lost inbox timeout v s =
    let r = connect timeout v.client s in
    elim r.0.0 [ true ↦ handshake_lost inbox r.1 | false ↦ [] ]

pub with_client :
    (a : ℕ) (v : Subscriber) (c : SidecarClient)
    → subscriber_held a (record v { client = c }) + count_option a v.client.sock
      ≡ subscriber_held a v + count_option a c.sock
unfolding subscriber_held
with_client a v c = omega arith

-- Whatever arrives and whichever calls fail, on each path of `wait_handshake` the subscriber holds or
-- closes every descriptor that it had, opens or receives, but for those that come with a message of the
-- wrong size.
pub wait_handshake-Balanced :
    (inbox : ℕ → Message) (a timeout : ℕ) (v : Subscriber) (s : Os)
    → Balanced a s (subscriber_held a v) (wait_handshake inbox timeout v s).1 (
        subscriber_held a (wait_handshake inbox timeout v s).0.1
        + count a (wait_lost inbox timeout v s))
unfolding wait_handshake wait_lost
wait_handshake-Balanced inbox a timeout v s =
    let r = connect timeout v.client s in
    let t = record v { client = r.0.1 } in
    ground (
      arith,
      connect-Balanced a timeout v.client s,
      with_client a v r.0.1,
      receive-Balanced inbox a timeout t r.1,
      count-none a,
    )
