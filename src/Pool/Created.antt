-- ===== src/Pool/Created.antt =====
-- The pool that `create` returns, and the sizes of its buffers.
use native.Mathlib.Nat.{div-add-mod', mod-lt, mul-mod_left}
use axon_sdk_for_physical_ai.Common.{
  subst, ap, ℕ, zero, suc, ◌+◌, ◌-◌, ◌*◌, ◌/◌, ◌%◌, ◌^◌, ◌≤◌, ◌<◌, ◌≡◌, refl, [], ◌∷◌, Bool, true,
  false, Option, none, some, arith, Option-cases, inl, inr, length, length-append, map,
  length-replicate, wrap64, get_or-replicate, replicate,
}
use axon_sdk_for_physical_ai.Types.{PoolBackend, v4l2, udmabuf, custom, accelerator, nv_buf_surface}
use axon_sdk_for_physical_ai.Os.{Os, call, call_open}
use axon_sdk_for_physical_ai.Pool.{TensorPoolConfig, TensorPool}
use axon_sdk_for_physical_ai.Pool.Ring.{IsValid, used}
use axon_sdk_for_physical_ai.Pool.Alloc.{
  page_size, page_round_up, make_sealed_memfd, allocate_custom, make_udmabuf, udmabuf_loop,
  allocate_udmabuf, export_loop, request_buffers, allocate_v4l2, allocate_unsupported,
  allocate_backend, ready_pool, allocate, new_pool, create, plain_buffer, push,
}

-- A run that made all its buffers added `left` of them and kept the rest of the pool.
pub record Made (left : ℕ) (p q : TensorPool) : Type 0 where
  pub more : length q.buffers ≡ length p.buffers + left
  pub same_cfg : q.cfg ≡ p.cfg
  pub same_size : q.buffer_size ≡ p.buffer_size
  pub same_gen : q.gen ≡ p.gen

abbrev MadeIf : ℕ → TensorPool → (Bool × TensorPool) × Os → Type 0
MadeIf left p r = r.0.0 ≡ true → Made left p r.0.1

Made-push :
    (left fd : ℕ) (b : Option ℕ) (p q : TensorPool)
    → Made left (push p (plain_buffer fd b)) q
    → Made (suc left) p q
Made-push left fd b p q h = record {
  more = omega (arith, h.more, length-append p.buffers (plain_buffer fd b ∷ []));
  same_cfg = h.same_cfg;
  same_size = h.same_size;
  same_gen = h.same_gen;
}

Made-none : (p : TensorPool) → Made 0 p p
Made-none p = record { more = omega arith; same_cfg = refl; same_size = refl; same_gen = refl }

allocate_custom-Made :
    (left : ℕ) (p : TensorPool) (s : Os) → MadeIf left p (allocate_custom left p s)
unfolding allocate_custom
allocate_custom-Made zero p s = λ e. Made-none p
allocate_custom-Made (suc left) p s = λ e. elim (Option-cases (make_sealed_memfd s).0) [
  | inl out ↦ ground arith
  | inr (fd, made) ↦
      let q = push p (plain_buffer fd none) in
      let rest = allocate_custom-Made left q (make_sealed_memfd s).1 (ground arith) in
      let all = Made-push left fd none p _ rest in ground (arith, all)
]

export_loop-Made : (left : ℕ) (p : TensorPool) (s : Os) → MadeIf left p (export_loop left p s)
unfolding export_loop
export_loop-Made zero p s = λ e. Made-none p
export_loop-Made (suc left) p s = λ e. elim (Option-cases (call_open s).0) [
  | inl out ↦ ground arith
  | inr (fd, made) ↦
      let q = push p (plain_buffer fd none) in
      let rest = export_loop-Made left q (call_open s).1 (ground arith) in
      let all = Made-push left fd none p _ rest in ground (arith, all)
]

udmabuf_loop-Made : (left : ℕ) (p : TensorPool) (s : Os) → MadeIf left p (udmabuf_loop left p s)
unfolding udmabuf_loop
udmabuf_loop-Made zero p s = λ e. Made-none p
udmabuf_loop-Made (suc left) p s = λ e. elim (Option-cases (make_udmabuf s).0) [
  | inl out ↦ ground arith
  | inr (fds, made) ↦
      let q = push p (plain_buffer fds.0 (some fds.1)) in
      let rest = udmabuf_loop-Made left q (make_udmabuf s).1 (ground arith) in
      let all = Made-push left fds.0 (some fds.1) p _ rest in ground (arith, all)
]

-- The page size is taken to be positive, as the code does.
page_size-pos : (pg : ℕ) → 0 < page_size pg
page_size-pos pg = ground arith

round_down : (m p : ℕ) → 0 < p → (m < m / p * p + p) × (m / p * p ≤ m)
round_down m p h = (omega (arith, div-add-mod' m p, mod-lt m h), omega (arith, div-add-mod' m p))

-- Where `n` plus a page does not pass 2 ^ 64, rounding up gives a multiple of the page size that is at
-- least `n` and less than a page above it.
pub page_round_up_bounds :
    (pg n : ℕ)
    → n + page_size pg ≤ 2 ^ 64
    → (n ≤ page_round_up pg n)
      × (page_round_up pg n < n + page_size pg)
      × (page_round_up pg n % page_size pg ≡ 0)
unfolding page_round_up
page_round_up_bounds pg n h = go (page_size pg) (page_size-pos pg) h
  where
    go :
        (p : ℕ)
        → 0 < p
        → n + p ≤ 2 ^ 64
        → (n ≤ wrap64 (n + p - 1) / p * p)
          × (wrap64 (n + p - 1) / p * p < n + p)
          × (wrap64 (n + p - 1) / p * p % p ≡ 0)
    go p pos fits =
        let exact : wrap64 (n + p - 1) ≡ n + p - 1 = omega arith in
        let near = round_down (n + p - 1) p pos in
        (rw exact (omega arith), rw exact (omega arith), mul-mod_left (wrap64 (n + p - 1) / p) p)

allocate_v4l2-Made : (p : TensorPool) (s : Os) → MadeIf p.cfg.n_buffers p (allocate_v4l2 p s)
unfolding allocate_v4l2 request_buffers
allocate_v4l2-Made p s = λ e. elim (Option-cases (call_open s).0) [
  | inl out ↦ ground arith
  | inr (fd, made) ↦
      let q : TensorPool = record p { v4l2_fd = some fd } in
      let rest = export_loop-Made p.cfg.n_buffers q (call (call_open s).1).1 in
      let done = rest (ground arith) in ground (arith, done)
]

allocate_udmabuf-Made : (p : TensorPool) (s : Os) → MadeIf p.cfg.n_buffers p (allocate_udmabuf p s)
unfolding allocate_udmabuf
allocate_udmabuf-Made p s = λ e. elim (Option-cases (call_open s).0) [
  | inl out ↦ ground arith
  | inr (fd, made) ↦
      let done = udmabuf_loop-Made p.cfg.n_buffers p (call_open s).1 (ground arith) in
      ground (arith, done)
]

allocate_backend-Made :
    (b : PoolBackend) (p : TensorPool) (s : Os) → MadeIf p.cfg.n_buffers p (allocate_backend b p s)
unfolding allocate_backend allocate_unsupported
allocate_backend-Made custom p s = allocate_custom-Made p.cfg.n_buffers p s
allocate_backend-Made udmabuf p s = allocate_udmabuf-Made p s
allocate_backend-Made v4l2 p s = allocate_v4l2-Made p s
allocate_backend-Made accelerator p s = λ e. cc
allocate_backend-Made nv_buf_surface p s = λ e. cc

-- A pool after a successful `allocate`.
record Ready (p q : TensorPool) : Type 0 where
  made : Made p.cfg.n_buffers p q
  shared : q.share_fds ≡ map (λ b. b.share_fd) q.buffers
  free : q.in_use ≡ replicate (length q.buffers) false
  at_start : q.ring_head ≡ 0

ready_pool-Ready : (p q : TensorPool) → Made p.cfg.n_buffers p q → Ready p (ready_pool q)
unfolding ready_pool
ready_pool-Ready p q h = record {
  made = record {
    more = h.more;
    same_cfg = h.same_cfg;
    same_size = h.same_size;
    same_gen = h.same_gen;
  };
  shared = refl;
  free = refl;
  at_start = refl;
}

allocate-Ready : (p : TensorPool) (s : Os) → (allocate p s).0.0 ≡ true → Ready p (allocate p s).0.1
unfolding allocate
allocate-Ready p s e =
    let r = allocate_backend p.cfg.backend p s in
    let done : r.0.0 ≡ true = ground arith in
    let all = ready_pool-Ready p r.0.1 (allocate_backend-Made p.cfg.backend p s done) in
    let same : ready_pool r.0.1 ≡ (allocate p s).0.1 = ground arith in subst (Ready p) same all

-- A pool that `create` has made.
pub record Allocated (pg : ℕ) (cfg : TensorPoolConfig) (p : TensorPool) : Type 0 where
  pub count : length p.buffers ≡ cfg.n_buffers
  pub shared : p.share_fds ≡ map (λ b. b.share_fd) p.buffers
  pub generation : p.gen ≡ 1
  pub sized : p.buffer_size ≡ page_round_up pg cfg.buffer_size
  pub configured : p.cfg ≡ cfg
  pub valid : IsValid p
  pub all_free : (i : ℕ) → used p i ≡ false

-- A pool that `create` returns has as many buffers as were asked for, each with a shared descriptor and
-- a free slot, generation 1, and the size that `page_round_up` gives.
pub create-Allocated :
    (pg : ℕ) (cfg : TensorPoolConfig) (s : Os) (p : TensorPool)
    → (create pg cfg s).0 ≡ some p
    → Allocated pg cfg p
unfolding create new_pool
create-Allocated pg cfg s p e = record {
  count = omega (arith, ready.made.more);
  shared = ready.shared;
  generation = ready.made.same_gen;
  sized = ready.made.same_size;
  configured = ready.made.same_cfg;
  valid = record {
    slots = omega (arith, ap length ready.free, length-replicate (length p.buffers) false);
    head_lt = omega (arith, ready.made.more, ready.at_start, positive);
  };
  all_free = λ i. rw ready.free (get_or-replicate (length p.buffers) i false);
}
  where
    q : TensorPool
    q = new_pool pg cfg

    done : (allocate q s).0.0 ≡ true
    done = ground arith

    same : (allocate q s).0.1 ≡ p
    same = ground arith

    positive : 0 < cfg.n_buffers
    positive = ground arith

    ready : Ready q p
    ready = subst (Ready q) same (allocate-Ready q s done)
