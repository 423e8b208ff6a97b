-- ===== src/Pool/Alloc.antt =====
-- src/pool.cpp: how a pool gets its buffers from each backend, gives them back, and is created and
-- reallocated. The page size is a parameter, `pg`, and is the code's 4096 if the system reports none.

use axon_sdk_for_physical_ai.Common.{
  ℕ, zero, suc, ◌+◌, ◌-◌, ◌*◌, ◌/◌, List, [], ◌∷◌, ◌++◌, map, Bool, true, false, Option, none, some,
  length, replicate, if◌then◌else◌, ltb, ◌==◌, ◌&&◌, ◌||◌, not, wrap64, e_inval, e_nosys, e_nospc,
}
use axon_sdk_for_physical_ai.Types.{PoolBackend, v4l2, udmabuf, custom, accelerator, nv_buf_surface}
use axon_sdk_for_physical_ai.Os.{
  M, ◌>>=◌, ◌>>◌, pure, set_errno, call, call_open, close, close_option,
}
use axon_sdk_for_physical_ai.Pool.{TensorPoolConfig, Buffer, TensorPool}

abbrev pub page_size : ℕ → ℕ
page_size pg = if pg == 0 then 4096 else pg

-- `(n + page - 1) & ~(page - 1)`, for a page size that is a power of two.
unfoldable pub page_round_up : ℕ → ℕ → ℕ
page_round_up pg n = wrap64 (n + page_size pg - 1) / page_size pg * page_size pg

-- The rest of `make_sealed_memfd`, after the descriptor is there: size it, then seal it.
unfoldable pub size_and_seal : ℕ → M (Option ℕ)
size_and_seal fd = do
  sized ← call
  elim sized [
    | none ↦ do close fd; pure none
    | some _ ↦ do
      sealed ← call
      elim sealed [ none ↦ do close fd; pure none | some _ ↦ pure (some fd) ]
  ]

unfoldable pub make_sealed_memfd : M (Option ℕ)
make_sealed_memfd = do
  memfd ← call_open
  elim memfd [ none ↦ pure none | some fd ↦ size_and_seal fd ]

abbrev pub plain_buffer : ℕ → Option ℕ → Buffer
plain_buffer fd backing = record { share_fd = fd; backing_fd = backing; device_ptr = 0; pitch = 0 }

abbrev pub push : TensorPool → Buffer → TensorPool
push p b = record p { buffers = p.buffers ++ b ∷ [] }

-- The loops below have the rounds left as fuel, and return whether all buffers were made.
unfoldable pub allocate_custom : ℕ → TensorPool → M (Bool × TensorPool)
allocate_custom zero p = pure (true, p)
allocate_custom (suc left) p = do
  memfd ← make_sealed_memfd
  elim memfd [
    | none ↦ pure (false, p)
    | some fd ↦ allocate_custom left (push p (plain_buffer fd none))
  ]

-- One udmabuf: a memfd, and the dma-buf made from it by `UDMABUF_CREATE`.
unfoldable pub make_udmabuf : M (Option (ℕ × ℕ))
make_udmabuf = do
  memfd ← make_sealed_memfd
  elim memfd [
    | none ↦ pure none
    | some fd ↦ do
      dmabuf ← call_open
      elim dmabuf [ none ↦ do close fd; pure none | some b ↦ pure (some (b, fd)) ]
  ]

unfoldable pub udmabuf_loop : ℕ → TensorPool → M (Bool × TensorPool)
udmabuf_loop zero p = pure (true, p)
udmabuf_loop (suc left) p = do
  made ← make_udmabuf
  elim made [
    | none ↦ pure (false, p)
    | some (dmabuf, memfd) ↦ udmabuf_loop left (push p (plain_buffer dmabuf (some memfd)))
  ]

unfoldable pub allocate_udmabuf : TensorPool → M (Bool × TensorPool)
allocate_udmabuf p = do
  udma ← call_open
  elim udma [
    | none ↦ pure (false, p)
    | some fd ↦ do r ← udmabuf_loop p.cfg.n_buffers p; close fd; pure r
  ]

-- `VIDIOC_EXPBUF` for each buffer.
unfoldable pub export_loop : ℕ → TensorPool → M (Bool × TensorPool)
export_loop zero p = pure (true, p)
export_loop (suc left) p = do
  exported ← call_open
  elim exported [
    | none ↦ pure (false, p)
    | some fd ↦ export_loop left (push p (plain_buffer fd none))
  ]

-- `VIDIOC_REQBUFS` answers with the number of buffers that the driver grants.
unfoldable pub request_buffers : TensorPool → M (Bool × TensorPool)
request_buffers p = do
  granted ← call
  elim granted [
    | none ↦ pure (false, p)
    | some n ↦
        if ltb n p.cfg.n_buffers
        then (do set_errno e_nospc; pure (false, p))
        else export_loop p.cfg.n_buffers p
  ]

unfoldable pub allocate_v4l2 : TensorPool → M (Bool × TensorPool)
allocate_v4l2 p = if not p.cfg.v4l2_device then (do set_errno e_inval; pure (false, p)) else do
  device ← call_open
  elim device [
    | none ↦ pure (false, p)
    | some fd ↦ request_buffers (record p { v4l2_fd = some fd })
  ]

-- The build has neither CUDA nor Jetson support.
unfoldable pub allocate_unsupported : TensorPool → M (Bool × TensorPool)
allocate_unsupported p = do set_errno e_nosys; pure (false, p)

unfoldable pub allocate_backend : PoolBackend → TensorPool → M (Bool × TensorPool)
allocate_backend custom p = allocate_custom p.cfg.n_buffers p
allocate_backend udmabuf p = allocate_udmabuf p
allocate_backend v4l2 p = allocate_v4l2 p
allocate_backend accelerator p = allocate_unsupported p
allocate_backend nv_buf_surface p = allocate_unsupported p

unfoldable pub close_buffers : List Buffer → M (Unit {0})
close_buffers [] = pure tt
close_buffers (b ∷ bs) = do close b.share_fd; close_option b.backing_fd; close_buffers bs

-- `free_all`; `ring_head`, `cfg`, `buffer_size` and `gen` stay.
unfoldable pub free_all : TensorPool → M TensorPool
free_all p = do
  close_buffers p.buffers
  close_option p.v4l2_fd
  pure (record p { buffers = []; share_fds = []; in_use = []; import_blob = []; v4l2_fd = none })

-- The end of `allocate`: the slots are free, and `rebuild_share_fds` caches the descriptors.
unfoldable pub ready_pool : TensorPool → TensorPool
ready_pool p = record p {
  in_use = replicate (length p.buffers) false;
  ring_head = 0;
  share_fds = map (λ b. b.share_fd) p.buffers;
}

unfoldable pub allocate : TensorPool → M (Bool × TensorPool)
allocate p = do
  (done, q) ← allocate_backend p.cfg.backend p
  elim done [
    | true ↦ pure (true, ready_pool q)
    | false ↦ do freed ← free_all q; pure (false, freed)
  ]

unfoldable pub is_nv : PoolBackend → Bool
is_nv nv_buf_surface = true
is_nv _ = false

-- The pool that `create` fills.
unfoldable pub new_pool : ℕ → TensorPoolConfig → TensorPool
new_pool pg cfg = record {
  cfg = cfg;
  buffer_size = page_round_up pg cfg.buffer_size;
  gen = 1;
  buffers = [];
  share_fds = [];
  in_use = [];
  ring_head = 0;
  import_blob = [];
  v4l2_fd = none;
}

unfoldable pub regenerate : ℕ → ℕ → TensorPool → TensorPool
regenerate pg size p = record p { buffer_size = page_round_up pg size; gen = wrap64 (p.gen + 1) }

-- `TensorPool::create`; `none` is the null pointer. `gen` starts at 1.
unfoldable pub create : ℕ → TensorPoolConfig → M (Option TensorPool)
create pg cfg =
    if cfg.n_buffers == 0 || cfg.buffer_size == 0 && not (is_nv cfg.backend)
    then pure none
    else (do (done, p) ← allocate (new_pool pg cfg); if done then pure (some p) else pure none)

-- `retire_and_reallocate`, which does not report whether the new buffers were made.
unfoldable pub retire_and_reallocate : ℕ → ℕ → TensorPool → M TensorPool
retire_and_reallocate pg new_buffer_size p = do
  freed ← free_all p
  (done, q) ← allocate (regenerate pg new_buffer_size freed)
  pure q

-- `~TensorPool`.
unfoldable pub destroy : TensorPool → M (Unit {0})
destroy p = do _ ← free_all p; pure tt
