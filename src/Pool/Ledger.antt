-- ===== src/Pool/Ledger.antt =====
-- The file descriptors of a pool: what each path opens, it keeps in the pool or closes, once.
use axon_sdk_for_physical_ai.Common.{
  ℕ, zero, suc, ◌+◌, ◌≡◌, List, [], ◌∷◌, ◌++◌, Bool, Option, none, some, arith, Option-cases, inl,
  inr,
}
use axon_sdk_for_physical_ai.Types.{PoolBackend, v4l2, udmabuf, custom, accelerator, nv_buf_surface}
use axon_sdk_for_physical_ai.Os.{Os, call, call_open}
use axon_sdk_for_physical_ai.Os.Ledger.{
  Balanced, one_if, count_option, call-Balanced, call_open-Balanced, close-Balanced,
}
use axon_sdk_for_physical_ai.Pool.{Buffer, TensorPool}
use axon_sdk_for_physical_ai.Pool.Alloc.{
  size_and_seal, make_sealed_memfd, allocate_custom, make_udmabuf, udmabuf_loop, allocate_udmabuf,
  export_loop, request_buffers, allocate_v4l2, allocate_unsupported, allocate_backend, plain_buffer,
  push,
}

-- The copies of `a` that buffers, and a pool, hold.
unfoldable pub held_by : ℕ → List Buffer → ℕ
held_by a [] = 0
held_by a (b ∷ bs) = one_if a b.share_fd + count_option a b.backing_fd + held_by a bs

unfoldable pub held : ℕ → TensorPool → ℕ
held a p = held_by a p.buffers + count_option a p.v4l2_fd

held_by-append : (a : ℕ) (bs cs : List Buffer) → held_by a (bs ++ cs) ≡ held_by a bs + held_by a cs
unfolding held_by
held_by-append a [] cs = omega arith
held_by-append a (b ∷ bs) cs = omega (arith, held_by-append a bs cs)

size_and_seal-Balanced :
    (a fd : ℕ) (s : Os) (h : ℕ)
    → Balanced a s
        (h + one_if a fd)
        (size_and_seal fd s).1
        (h + count_option a (size_and_seal fd s).0)
unfolding size_and_seal count_option
size_and_seal-Balanced a fd s h = ground (
  arith,
  call-Balanced a s (h + one_if a fd),
  call-Balanced a (call s).1 (h + one_if a fd),
  close-Balanced a fd (call s).1 h,
  close-Balanced a fd (call (call s).1).1 h,
)

make_sealed_memfd-Balanced :
    (a : ℕ) (s : Os) (h : ℕ)
    → Balanced a s h (make_sealed_memfd s).1 (h + count_option a (make_sealed_memfd s).0)
unfolding make_sealed_memfd count_option
make_sealed_memfd-Balanced a s h = elim (Option-cases (call_open s).0) [
  | inl e ↦ ground (arith, call_open-Balanced a s h)
  | inr (fd, e) ↦
      ground (arith, call_open-Balanced a s h, size_and_seal-Balanced a fd (call_open s).1 h)
]

-- From `p` to the pool that a run `m` returns.
abbrev pub RunBalanced : ℕ → Os → TensorPool → (Bool × TensorPool) × Os → Type 0
RunBalanced a s p r = Balanced a s (held a p) r.1 (held a r.0.1)

-- A new buffer adds its descriptors to what the pool holds.
held-push :
    (a : ℕ) (p : TensorPool) (fd : ℕ) (backing : Option ℕ)
    → held a (push p (plain_buffer fd backing)) ≡ held a p + one_if a fd + count_option a backing
unfolding held held_by
held-push a p fd backing = omega (arith, held_by-append a p.buffers (plain_buffer fd backing ∷ []))

allocate_custom-Balanced :
    (a left : ℕ) (p : TensorPool) (s : Os) → RunBalanced a s p (allocate_custom left p s)
unfolding allocate_custom count_option
allocate_custom-Balanced a zero p s = omega arith
allocate_custom-Balanced a (suc left) p s = elim (Option-cases (make_sealed_memfd s).0) [
  | inl e ↦ ground (arith, make_sealed_memfd-Balanced a s (held a p))
  | inr (fd, e) ↦ ground (
    arith,
    make_sealed_memfd-Balanced a s (held a p),
    held-push a p fd none,
    allocate_custom-Balanced a left (push p (plain_buffer fd none)) (make_sealed_memfd s).1,
  )
]

export_loop-Balanced :
    (a left : ℕ) (p : TensorPool) (s : Os) → RunBalanced a s p (export_loop left p s)
unfolding export_loop count_option
export_loop-Balanced a zero p s = omega arith
export_loop-Balanced a (suc left) p s = elim (Option-cases (call_open s).0) [
  | inl e ↦ ground (arith, call_open-Balanced a s (held a p))
  | inr (fd, e) ↦ ground (
    arith,
    call_open-Balanced a s (held a p),
    held-push a p fd none,
    export_loop-Balanced a left (push p (plain_buffer fd none)) (call_open s).1,
  )
]

unfoldable pub count_pair : ℕ → Option (ℕ × ℕ) → ℕ
count_pair a none = 0
count_pair a (some (x, y)) = one_if a x + one_if a y

make_udmabuf-Balanced :
    (a : ℕ) (s : Os) (h : ℕ)
    → Balanced a s h (make_udmabuf s).1 (h + count_pair a (make_udmabuf s).0)
unfolding make_udmabuf count_pair count_option
make_udmabuf-Balanced a s h = elim (Option-cases (make_sealed_memfd s).0) [
  | inl e ↦ ground (arith, make_sealed_memfd-Balanced a s h)
  | inr (fd, e) ↦ ground (
    arith,
    make_sealed_memfd-Balanced a s h,
    call_open-Balanced a (make_sealed_memfd s).1 (h + one_if a fd),
    close-Balanced a fd (call_open (make_sealed_memfd s).1).1 h,
  )
]

udmabuf_loop-Balanced :
    (a left : ℕ) (p : TensorPool) (s : Os) → RunBalanced a s p (udmabuf_loop left p s)
unfolding udmabuf_loop count_pair count_option
udmabuf_loop-Balanced a zero p s = omega arith
udmabuf_loop-Balanced a (suc left) p s = elim (Option-cases (make_udmabuf s).0) [
  | inl e ↦ ground (arith, make_udmabuf-Balanced a s (held a p))
  | inr (made, e) ↦ ground (
    arith,
    make_udmabuf-Balanced a s (held a p),
    held-push a p made.0 (some made.1),
    udmabuf_loop-Balanced a left (push p (plain_buffer made.0 (some made.1))) (make_udmabuf s).1,
  )
]

allocate_udmabuf-Balanced :
    (a : ℕ) (p : TensorPool) (s : Os) → RunBalanced a s p (allocate_udmabuf p s)
unfolding allocate_udmabuf count_option
allocate_udmabuf-Balanced a p s = elim (Option-cases (call_open s).0) [
  | inl e ↦ ground (arith, call_open-Balanced a s (held a p))
  | inr (fd, e) ↦
      let r = udmabuf_loop p.cfg.n_buffers p (call_open s).1 in
      ground (
        arith,
        call_open-Balanced a s (held a p),
        udmabuf_loop-Balanced a p.cfg.n_buffers p (call_open s).1,
        close-Balanced a fd r.1 (held a r.0.1),
      )
]

request_buffers-Balanced :
    (a : ℕ) (p : TensorPool) (s : Os) → RunBalanced a s p (request_buffers p s)
unfolding request_buffers
request_buffers-Balanced a p s =
    ground
      (arith, call-Balanced a s (held a p), export_loop-Balanced a p.cfg.n_buffers p (call s).1)

-- The device is not open yet.
allocate_v4l2-Balanced :
    (a : ℕ) (p : TensorPool) (s : Os) → p.v4l2_fd ≡ none → RunBalanced a s p (allocate_v4l2 p s)
unfolding allocate_v4l2 count_option held
allocate_v4l2-Balanced a p s shut = elim (Option-cases (call_open s).0) [
  | inl e ↦ ground (arith, call_open-Balanced a s (held a p))
  | inr (fd, e) ↦ ground (
    arith,
    call_open-Balanced a s (held a p),
    request_buffers-Balanced a (record p { v4l2_fd = some fd }) (call_open s).1,
  )
]

pub allocate_backend-Balanced :
    (a : ℕ) (b : PoolBackend) (p : TensorPool) (s : Os)
    → p.v4l2_fd ≡ none
    → RunBalanced a s p (allocate_backend b p s)
unfolding allocate_backend allocate_unsupported
allocate_backend-Balanced a custom p s shut = allocate_custom-Balanced a p.cfg.n_buffers p s
allocate_backend-Balanced a udmabuf p s shut = allocate_udmabuf-Balanced a p s
allocate_backend-Balanced a v4l2 p s shut = allocate_v4l2-Balanced a p s shut
allocate_backend-Balanced a accelerator p s shut = omega arith
allocate_backend-Balanced a nv_buf_surface p s shut = omega arith
