-- ===== src/Sidecar/Client/Ledger.antt =====
-- The descriptors that the client receives, keeps and closes.
use axon_sdk_for_physical_ai.Common.{
  ◌<◌, ℕ, zero, suc, ◌+◌, ◌-◌, ◌≤◌, ◌≡◌, refl, List, [], ◌∷◌, Option, none, some, arith,
  Option-cases, Bool-cases, inl, inr, if◌then◌else◌, ◌==◌,
}
use axon_sdk_for_physical_ai.Os.{Os, call, call_open, close}
use axon_sdk_for_physical_ai.Os.Ledger.{
  Reply-cases, Balanced, count, count-append, count_option, one_if, call-Balanced,
  call_open-Balanced, close-Balanced, close_option-Balanced,
}
use axon_sdk_for_physical_ai.Sidecar.{max_sidecar_fds, close_each}
use axon_sdk_for_physical_ai.Sidecar.Client.{
  Message, SidecarClient, handshake_size, read_exact, connect_loop, pauses, connect, recvmsg,
  recv_fds, finish_handshake, recv_pool_handshake,
}

pub close_each-Balanced :
    (a : ℕ) (fds : List ℕ) (s : Os) (h : ℕ) → Balanced a s (h + count a fds) (close_each fds s).1 h
unfolding close_each count
close_each-Balanced a [] s h = omega arith
close_each-Balanced a (fd ∷ fds) s h =
    omega
      (arith, close-Balanced a fd s (h + count a fds), close_each-Balanced a fds (close fd s).1 h)

read_exact-Balanced : (a fuel n : ℕ) (s : Os) (h : ℕ) → Balanced a s h (read_exact fuel n s).1 h
unfolding read_exact
read_exact-Balanced a fuel zero s h = omega arith
read_exact-Balanced a zero (suc n) s h = omega arith
read_exact-Balanced a (suc fuel) (suc n) s h =
    let polled = call-Balanced a s h in
    let s1 = (call s).1 in
    let got = call-Balanced a s1 h in
    elim (Option-cases (call s1).0) [
      | inl out ↦ ground (arith, polled, got)
      | inr (r, e) ↦
          let rest = read_exact-Balanced a fuel (suc n - r) (call s1).1 h in
          ground (arith, polled, got, rest)
    ]

read_exact_same_fuel : (n f g : ℕ) (s : Os) → n ≤ f → n ≤ g → read_exact f n s ≡ read_exact g n s
unfolding read_exact
read_exact_same_fuel zero f g s a b = refl
read_exact_same_fuel (suc n) zero g s a b = absurd (omega arith)
read_exact_same_fuel (suc n) (suc f) zero s a b = absurd (omega arith)
read_exact_same_fuel (suc n) (suc f) (suc g) s a b =
    let s1 = (call s).1 in
    elim (Option-cases (call s1).0) [
      | inl out ↦ ground arith
      | inr (r, e) ↦ elim (Bool-cases (r == 0)) [
        | inl ended ↦ ground arith
        | inr more ↦
            let positive : 0 < r = ground arith in
            let rest =
              read_exact_same_fuel (suc n - r) f g (call s1).1 (omega arith) (omega arith) in
            ground (arith, rest)
      ]
    ]

-- A fuel of one round for each byte is enough: more makes no difference to `read_exact`.
pub read_exact_enough_fuel :
    (n fuel : ℕ) (s : Os) → n ≤ fuel → read_exact fuel n s ≡ read_exact n n s
read_exact_enough_fuel n fuel s le = read_exact_same_fuel n fuel n s le (omega arith)

connect_loop-Balanced :
    (a left fd : ℕ) (c : SidecarClient) (s : Os)
    → Balanced a s
        (count_option a c.sock + one_if a fd)
        (connect_loop left fd c s).1
        (count_option a (connect_loop left fd c s).0.1.sock)
unfolding connect_loop count_option
connect_loop-Balanced a zero fd c s = ground (
  arith,
  call-Balanced a s (count_option a c.sock + one_if a fd),
  close-Balanced a fd (call s).1 (count_option a c.sock),
  close_option-Balanced a c.sock (call s).1 (one_if a fd),
)
connect_loop-Balanced a (suc left) fd c s =
    let tried = call-Balanced a s (count_option a c.sock + one_if a fd) in
    let s1 = (call s).1 in
    let paused = call-Balanced a s1 (count_option a c.sock + one_if a fd) in
    let rest = connect_loop-Balanced a left fd c (call s1).1 in
    ground (arith, tried, paused, rest, close_option-Balanced a c.sock s1 (one_if a fd))

-- `connect` keeps one socket: the new one in place of the old, or the old one if it fails.
pub connect-Balanced :
    (a timeout : ℕ) (c : SidecarClient) (s : Os)
    → Balanced a s
        (count_option a c.sock)
        (connect timeout c s).1
        (count_option a (connect timeout c s).0.1.sock)
unfolding connect count_option
connect-Balanced a timeout c s = elim (Option-cases (call_open s).0) [
  | inl out ↦ ground (arith, call_open-Balanced a s (count_option a c.sock), out)
  | inr (fd, e) ↦
      let opened = call_open-Balanced a s (count_option a c.sock) in
      let rest = connect_loop-Balanced a (pauses timeout) fd c (call_open s).1 in
      ground (arith, opened, rest)
]

abbrev pub message_fds : Option Message → List ℕ
message_fds none = []
message_fds (some m) = m.fds

-- The descriptors that come with the next call, if it reads another number of bytes than `size`.
unfoldable pub lost_fds : (ℕ → Message) → ℕ → Os → List ℕ
lost_fds inbox size s = elim (recvmsg inbox s).0 [
  | none ↦ []
  | some (n, m) ↦ if n == size then [] else m.fds
]

arrived : Option (ℕ × Message) → List ℕ
arrived none = []
arrived (some (n, m)) = m.fds

recvmsg-Balanced :
    (inbox : ℕ → Message) (a : ℕ) (s : Os) (h : ℕ)
    → Balanced a s h (recvmsg inbox s).1 (h + count a (arrived (recvmsg inbox s).0))
unfolding recvmsg arrived count
recvmsg-Balanced inbox a s h = elim (Reply-cases (s.reply s.calls)) [
  | inl (n, e) ↦ ground (arith, e, count-append a (inbox s.calls).fds s.opened)
  | inr (x, e) ↦ ground (arith, e)
]

recv_fds-Balanced :
    (inbox : ℕ → Message) (a max size : ℕ) (s : Os) (h : ℕ)
    → Balanced a s h
        (recv_fds inbox max size s).1
        (h + count a (message_fds (recv_fds inbox max size s).0) + count a (lost_fds inbox size s))
unfolding recv_fds lost_fds arrived count
recv_fds-Balanced inbox a max size s h = elim (Option-cases (recvmsg inbox s).0) [
  | inl out ↦ ground (arith, recvmsg-Balanced inbox a s h)
  | inr ((n, m), e) ↦
      ground
        (arith, recvmsg-Balanced inbox a s h, close_each-Balanced a m.fds (recvmsg inbox s).1 h)
]

finish_handshake-Balanced :
    (inbox : ℕ → Message) (a : ℕ) (m : Message) (s : Os) (h : ℕ)
    → Balanced a s
        (h + count a m.fds)
        (finish_handshake inbox m s).1
        (h + count a (message_fds (finish_handshake inbox m s).0))
unfolding finish_handshake count
finish_handshake-Balanced inbox a m s h =
    let n = m.header.ext_len in
    let read = read_exact-Balanced a n n s (h + count a m.fds) in
    ground (
      arith,
      read,
      close_each-Balanced a m.fds s h,
      close_each-Balanced a m.fds (read_exact n n s).1 h,
    )

-- What a handshake that starts at `s` loses: nothing unless the socket is readable.
unfoldable pub handshake_lost : (ℕ → Message) → Os → List ℕ
handshake_lost inbox s = elim (call s).0 [
  | none ↦ []
  | some n ↦ if n == 0 then [] else lost_fds inbox handshake_size (call s).1
]

-- Whatever arrives and whichever calls fail, `recv_pool_handshake` returns the descriptors that it
-- receives or closes them, but for those that come with a message of the wrong size, which stay open.
pub recv_pool_handshake-Balanced :
    (inbox : ℕ → Message) (a : ℕ) (s : Os) (h : ℕ)
    → Balanced a s h (recv_pool_handshake inbox s).1 (
        h
        + count a (message_fds (recv_pool_handshake inbox s).0)
        + count a (handshake_lost inbox s))
unfolding recv_pool_handshake handshake_lost count
recv_pool_handshake-Balanced inbox a s h =
    let polled = call-Balanced a s h in
    let s1 = (call s).1 in
    let got = recv_fds-Balanced inbox a max_sidecar_fds handshake_size s1 h in
    let s2 = (recv_fds inbox max_sidecar_fds handshake_size s1).1 in
    let lost = count a (lost_fds inbox handshake_size s1) in
    elim (Option-cases (recv_fds inbox max_sidecar_fds handshake_size s1).0) [
      | inl out ↦ ground (arith, polled, got)
      | inr (m, e) ↦ ground (arith, polled, got, finish_handshake-Balanced inbox a m s2 (h + lost))
    ]
