-- ===== src/Subscriber/Devices/Still.antt =====
-- The calls of the system that leave the device libraries alone.
use axon_sdk_for_physical_ai.Common.{
  ℕ, zero, suc, ◌≡◌, refl, ◌∙◌, List, [], ◌∷◌, Option, none, some, arith, Option-cases, inl, inr,
  subst, sym, ◌-◌, ◌+◌,
}
use axon_sdk_for_physical_ai.Os.{Os, Object, call, call_open, close, close_option}
use axon_sdk_for_physical_ai.Os.Objects.{Settled, tally}
use axon_sdk_for_physical_ai.Sidecar.{close_each, max_sidecar_fds}
use axon_sdk_for_physical_ai.Sidecar.Client.{
  Message, SidecarClient, connect_loop, connect, pauses, recvmsg, recv_fds, read_exact,
  finish_handshake, recv_pool_handshake, handshake_size,
}
use axon_sdk_for_physical_ai.Publisher.{map_each, unmap_each}
use axon_sdk_for_physical_ai.Publisher.Channel.{attach_loop, map_slot}
use axon_sdk_for_physical_ai.Subscriber.{Subscriber}
use axon_sdk_for_physical_ai.Subscriber.Fences.{FenceSlot, close_slots}
use axon_sdk_for_physical_ai.Subscriber.Attach.{open_channel}

-- What is held of each object stays.
pub still : (o : Object) (s t : Os) (h : ℕ) → t.device ≡ s.device → Settled o s h t h
still o s t h e =
    subst
      (λ d.
        tally o d.taken + tally o s.device.returned + h
        ≡ tally o s.device.taken + tally o d.returned + h)
      (sym e) refl

pub call-device : (s : Os) → (call s).1.device ≡ s.device
unfolding call
call-device s = ground arith

call_open-device : (s : Os) → (call_open s).1.device ≡ s.device
unfolding call_open
call_open-device s = ground arith

close-device : (fd : ℕ) (s : Os) → (close fd s).1.device ≡ s.device
unfolding close
close-device fd s = ground arith

pub close_option-device : (o : Option ℕ) (s : Os) → (close_option o s).1.device ≡ s.device
unfolding close_option
close_option-device none s = refl
close_option-device (some fd) s = close-device fd s

pub unmap_each-device :
    (views : List (Option ℕ)) (s : Os) → (unmap_each views s).1.device ≡ s.device
unfolding unmap_each
unmap_each-device [] s = refl
unmap_each-device (none ∷ views) s = unmap_each-device views s
unmap_each-device (some v ∷ views) s = unmap_each-device views (call s).1 ∙ call-device s

pub map_each-device : (fds : List ℕ) (s : Os) → (map_each fds s).1.device ≡ s.device
unfolding map_each
map_each-device [] s = refl
map_each-device (fd ∷ fds) s = map_each-device fds (call s).1 ∙ call-device s

pub close_each-device : (fds : List ℕ) (s : Os) → (close_each fds s).1.device ≡ s.device
unfolding close_each
close_each-device [] s = refl
close_each-device (fd ∷ fds) s = close_each-device fds (close fd s).1 ∙ close-device fd s

pub close_slots-device :
    (slots : List FenceSlot) (s : Os) → (close_slots slots s).1.device ≡ s.device
unfolding close_slots
close_slots-device [] s = refl
close_slots-device (x ∷ xs) s =
    close_slots-device xs (close_option x.fd s).1 ∙ close_option-device x.fd s

connect_loop-device :
    (left fd : ℕ) (c : SidecarClient) (s : Os) → (connect_loop left fd c s).1.device ≡ s.device
unfolding connect_loop
connect_loop-device zero fd c s =
    ground (arith, call-device s, close-device fd (call s).1, close_option-device c.sock (call s).1)
connect_loop-device (suc left) fd c s =
    let t = (call s).1 in
    ground (
      arith,
      call-device s,
      call-device t,
      connect_loop-device left fd c (call t).1,
      close_option-device c.sock t,
    )

pub connect-device :
    (timeout : ℕ) (c : SidecarClient) (s : Os) → (connect timeout c s).1.device ≡ s.device
unfolding connect
connect-device timeout c s = elim (Option-cases (call_open s).0) [
  | inl e ↦ ground (arith, e, call_open-device s)
  | inr (fd, e) ↦
      ground
        (arith, e, call_open-device s, connect_loop-device (pauses timeout) fd c (call_open s).1)
]

read_exact-device : (fuel n : ℕ) (s : Os) → (read_exact fuel n s).1.device ≡ s.device
unfolding read_exact
read_exact-device fuel zero s = refl
read_exact-device zero (suc n) s = refl
read_exact-device (suc fuel) (suc n) s =
    let t = (call s).1 in
    let u = (call t).1 in
    elim (Option-cases (call t).0) [
      | inl e ↦ ground (arith, e, call-device s, call-device t)
      | inr (r, e) ↦
          ground (arith, e, call-device s, call-device t, read_exact-device fuel (suc n - r) u)
    ]

map_slot-device : (fd : ℕ) (s : Os) → (map_slot fd s).1.device ≡ s.device
unfolding map_slot
map_slot-device fd s =
    let t = (call s).1 in
    let u = (call t).1 in ground (arith, call-device s, call-device t, close-device fd u)

attach_loop-device : (left : ℕ) (s : Os) → (attach_loop left s).1.device ≡ s.device
unfolding attach_loop
attach_loop-device zero s = elim (Option-cases (call_open s).0) [
  | inl e ↦ ground (arith, e, call_open-device s)
  | inr (fd, e) ↦ ground (arith, e, call_open-device s, map_slot-device fd (call_open s).1)
]
attach_loop-device (suc left) s =
    let t = (call_open s).1 in
    elim (Option-cases (call_open s).0) [
      | inl e ↦
          ground (arith, e, call_open-device s, call-device t, attach_loop-device left (call t).1)
      | inr (fd, e) ↦ ground (arith, e, call_open-device s, map_slot-device fd t)
    ]

pub open_channel-device :
    (timeout : ℕ) (v : Subscriber) (s : Os) → (open_channel timeout v s).1.device ≡ s.device
unfolding open_channel
open_channel-device timeout v s = ground (
  arith,
  call-device s,
  attach_loop-device (pauses timeout) s,
  attach_loop-device (pauses timeout) (call s).1,
)

module _ (inbox : ℕ → Message) where
  recvmsg-device : (s : Os) → (recvmsg inbox s).1.device ≡ s.device
  unfolding recvmsg
  recvmsg-device s = ground arith

  recv_fds-device : (max size : ℕ) (s : Os) → (recv_fds inbox max size s).1.device ≡ s.device
  unfolding recv_fds
  recv_fds-device max size s = elim (Option-cases (recvmsg inbox s).0) [
    | inl e ↦ ground (arith, e, recvmsg-device s)
    | inr ((n, m), e) ↦
        ground (arith, e, recvmsg-device s, close_each-device m.fds (recvmsg inbox s).1)
  ]

  finish_handshake-device :
      (m : Message) (s : Os) → (finish_handshake inbox m s).1.device ≡ s.device
  unfolding finish_handshake
  finish_handshake-device m s =
      let n = m.header.ext_len in
      ground (
        arith,
        close_each-device m.fds s,
        read_exact-device n n s,
        close_each-device m.fds (read_exact n n s).1,
      )

  pub recv_pool_handshake-device : (s : Os) → (recv_pool_handshake inbox s).1.device ≡ s.device
  unfolding recv_pool_handshake
  recv_pool_handshake-device s =
      let t = (call s).1 in
      let r = recv_fds inbox max_sidecar_fds handshake_size t in
      elim (Option-cases r.0) [
        | inl e ↦ ground (arith, e, call-device s, recv_fds-device max_sidecar_fds handshake_size t)
        | inr (m, e) ↦ ground (
          arith,
          e,
          call-device s,
          recv_fds-device max_sidecar_fds handshake_size t,
          finish_handshake-device m r.1,
        )
      ]
