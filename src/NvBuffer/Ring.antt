-- ===== src/NvBuffer/Ring.antt =====
-- src/pool.cpp, built with Jetson support and CUDA: the loops of the pool over surfaces.
use axon_sdk_for_physical_ai.Common.{
  ℕ, zero, suc, List, [], ◌∷◌, ◌++◌, length, replicate, Bool, true, false, none, some,
  if◌then◌else◌, ltb, get_elem?, get_or, set, ◌==◌, ◌&&◌, not,
}
use axon_sdk_for_physical_ai.Os.{M, ◌>>=◌, pure}
use axon_sdk_for_physical_ai.Pool.Alloc.{page_round_up}
use axon_sdk_for_physical_ai.NvBuffer.{
  NvBuf, NvBufCuda, SurfaceInfo, PixelFormats, no_cuda, nvbuf_alloc, nvbuf_free,
  nvbuf_get_import_params, nvbuf_cuda_unmap, nvbuf_cuda_map,
}

-- The part of the pool's state that the surfaces fill. `blobs` is whether the import blob is there.
pub record NvRing : Type 0 where
  pub buffers : List NvBuf
  pub views : List NvBufCuda
  pub buffer_size : ℕ
  pub blobs : Bool

-- What to allocate: `width`, `height` and `fourcc` of the pool's configuration.
pub record Frame : Type 0 where
  pub width : ℕ
  pub height : ℕ
  pub fourcc : ℕ

-- The first loop of `allocate_nvbufsurface`: whether all were made, the largest size, and the surfaces.
unfoldable pub surface_loop :
    PixelFormats → (ℕ → SurfaceInfo) → Frame → ℕ → ℕ → List NvBuf → M (Bool × (ℕ × List NvBuf))
surface_loop formats info f zero max_size buffers = pure (true, (max_size, buffers))
surface_loop formats info f (suc left) max_size buffers = do
  made ← nvbuf_alloc formats info f.width f.height f.fourcc
  elim made [
    | none ↦ pure (false, (max_size, buffers))
    | some b ↦
        surface_loop formats info f left (if ltb max_size b.size then b.size else max_size)
          (buffers ++ b ∷ [])
  ]

-- The second one.
unfoldable pub params_loop : List NvBuf → M Bool
params_loop [] = pure true
params_loop (b ∷ bs) = do
  written ← nvbuf_get_import_params b
  elim written [ false ↦ pure false | true ↦ params_loop bs ]

-- `allocate_nvbufsurface`.
unfoldable pub allocate_nvbufsurface :
    ℕ → PixelFormats → (ℕ → SurfaceInfo) → Frame → ℕ → ℕ → M (Bool × NvRing)
allocate_nvbufsurface pg formats info f n old_size = do
  (made, (max_size, buffers)) ← surface_loop formats info f n 0 []
  elim made [
    | false ↦
        pure
          (false, record { buffers = buffers; views = []; buffer_size = old_size; blobs = false })
    | true ↦ do
      written ← params_loop buffers
      pure (
        written,
        record {
          buffers = buffers;
          views = replicate (length buffers) no_cuda;
          buffer_size = page_round_up pg max_size;
          blobs = written;
        },
      )
  ]

-- The part of `free_all`: a buffer that has a view is unmapped first.
unfoldable pub free_surfaces : List NvBuf → List NvBufCuda → M (Unit {0})
free_surfaces [] views = pure tt
free_surfaces (b ∷ bs) [] = do _ ← nvbuf_free b; free_surfaces bs []
free_surfaces (b ∷ bs) (c ∷ cs) = do _ ← nvbuf_cuda_unmap b c; _ ← nvbuf_free b; free_surfaces bs cs

-- The view of a buffer, which is mapped when it is first asked for, and not again once that has failed.
unfoldable pub lazy_view : (ℕ → Bool) → NvBuf → NvBufCuda → M NvBufCuda
lazy_view pitched b c =
    if (c.device_ptr == 0) && not c.failed
    then (do
      m ← nvbuf_cuda_map pitched b
      elim m [ none ↦ pure (record c { failed = true }) | some d ↦ pure d ])
    else pure c

-- `TensorPool::device_ptr`; 0 is the null pointer.
unfoldable pub nv_device_ptr : (ℕ → Bool) → ℕ → NvRing → M (ℕ × NvRing)
nv_device_ptr pitched index r = elim (get_elem? r.buffers index) [
  | none ↦ pure (0, r)
  | some b ↦ elim b.surf [
    | none ↦ pure (0, r)
    | some surf ↦ do
      c ← lazy_view pitched b (get_or r.views index no_cuda)
      pure (c.device_ptr, record r { views = set r.views index c })
  ]
]
