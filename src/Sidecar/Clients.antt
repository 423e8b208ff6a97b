-- ===== src/Sidecar/Clients.antt =====
-- The consumers that a server keeps.
use axon_sdk_for_physical_ai.Common.{
  ℕ, zero, suc, ◌+◌, ◌-◌, ◌≤◌, ◌<◌, ◌≡◌, refl, List, [], ◌∷◌, ◌++◌, true, false, Option, none, some,
  arith, Option-cases, inl, inr, length,
}
use axon_sdk_for_physical_ai.Os.{Os, call, call_open}
use axon_sdk_for_physical_ai.Os.Ledger.{
  Balanced, count, count-append, count_option, one_if, call-Balanced, call_open-Balanced,
  close-Balanced,
}
use axon_sdk_for_physical_ai.Sidecar.{
  SidecarServer, set_pool, max_handshake_ext, max_sidecar_fds, send_fds, send_ext, send_pool_to,
  accept_one, accept_and_handshake,
}

send_fds-Balanced : (a n : ℕ) (s : Os) (h : ℕ) → Balanced a s h (send_fds n s).1 h
unfolding send_fds
send_fds-Balanced a n s h = ground (arith, call-Balanced a s h)

send_ext-Balanced : (a fuel n : ℕ) (s : Os) (h : ℕ) → Balanced a s h (send_ext fuel n s).1 h
unfolding send_ext
send_ext-Balanced a zero n s h = omega arith
send_ext-Balanced a (suc fuel) n s h = elim (Option-cases (call s).0) [
  | inl out ↦ ground (arith, call-Balanced a s h)
  | inr (w, sent) ↦
      let rest = send_ext-Balanced a fuel (n - w) (call s).1 h in
      ground (arith, rest, call-Balanced a s h)
]

send_pool_to-Balanced :
    (a : ℕ) (v : SidecarServer) (s : Os) (h : ℕ) → Balanced a s h (send_pool_to v s).1 h
unfolding send_pool_to
send_pool_to-Balanced a v s h =
    let sent = send_fds-Balanced a (length v.pool_fds) s h in
    let rest =
      send_ext-Balanced a (length v.ext) (length v.ext) (send_fds (length v.pool_fds) s).1 h in
    ground (arith, sent, rest)

count-snoc : (a c : ℕ) (cs : List ℕ) → count a (cs ++ c ∷ []) ≡ count a cs + one_if a c
unfolding count
count-snoc a c cs = omega (arith, count-append a cs (c ∷ []))

-- What `accept_one` leaves the server holding.
abbrev kept : ℕ → SidecarServer → Option SidecarServer → ℕ
kept a v none = count a v.clients
kept a v (some w) = count a w.clients

accept_one-Balanced :
    (a : ℕ) (v : SidecarServer) (s : Os)
    → Balanced a s (count a v.clients) (accept_one v s).1 (kept a v (accept_one v s).0)
unfolding accept_one count_option
accept_one-Balanced a v s = elim (Option-cases (call_open s).0) [
  | inl out ↦ ground (arith, call_open-Balanced a s (count a v.clients))
  | inr (c, made) ↦
      let s1 = (call_open s).1 in
      let s2 = (send_pool_to v s1).1 in
      ground (
        arith,
        call_open-Balanced a s (count a v.clients),
        send_pool_to-Balanced a v s1 (count a v.clients + one_if a c),
        close-Balanced a c s2 (count a v.clients),
        count-snoc a c v.clients,
      )
]

-- Each connection that `accept_and_handshake` accepts becomes a client or is closed, also when the
-- handshake fails, and no other descriptor is touched.
pub accept_and_handshake-Balanced :
    (a fuel n : ℕ) (v : SidecarServer) (s : Os)
    → Balanced a s
        (count a v.clients)
        (accept_and_handshake fuel n v s).1
        (count a (accept_and_handshake fuel n v s).0.1.clients)
unfolding accept_and_handshake
accept_and_handshake-Balanced a zero n v s = omega arith
accept_and_handshake-Balanced a (suc fuel) n v s =
    let polled = call-Balanced a s (count a v.clients) in
    let s1 = (call s).1 in
    let one = accept_one-Balanced a v s1 in
    elim (Option-cases (accept_one v s1).0) [
      | inl out ↦ ground (arith, polled, one)
      | inr (w, made) ↦
          let rest = accept_and_handshake-Balanced a fuel (n + 1) w (accept_one v s1).1 in
          ground (arith, polled, one, rest)
    ]

accept_one-oversize :
    (v : SidecarServer) (s : Os) → max_sidecar_fds < length v.pool_fds → (accept_one v s).0 ≡ none
unfolding accept_one send_pool_to send_fds
accept_one-oversize v s big = ground arith

-- A pool of more than 32 buffers is never delivered: whoever connects, no client is kept.
pub accept_and_handshake-oversize :
    (fuel n : ℕ) (v : SidecarServer) (s : Os)
    → max_sidecar_fds < length v.pool_fds
    → (accept_and_handshake fuel n v s).0.1 ≡ v
unfolding accept_and_handshake
accept_and_handshake-oversize zero n v s big = refl
accept_and_handshake-oversize (suc fuel) n v s big =
    let refused = accept_one-oversize v (call s).1 big in ground (arith, refused)

-- After `set_pool` the header announces exactly the bytes of the blob that follows it, and the blob is
-- the given one unless it is longer than 65535 bytes, which the result tells.
pub set_pool-framed :
    (fds : List ℕ) (generation size version backend : ℕ) (ext : List ℕ) (v : SidecarServer)
    → let r = set_pool fds generation size version backend ext v in
      (r.1.header.ext_len ≡ length r.1.ext)
      × (r.1.header.ext_len ≤ max_handshake_ext)
      × (r.0 ≡ true → r.1.ext ≡ ext)
      × (r.0 ≡ false → max_handshake_ext < length ext)
unfolding set_pool
set_pool-framed fds generation size version backend ext v = ground arith
