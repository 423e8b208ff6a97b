-- ===== src/NvBuffer.antt =====
-- include/axon/detail/nvbuf.h and src/pool_nvbufsurface.cpp, built with CUDA: buffers of the Jetson
-- library. What the library reports of a surface is a parameter, `info` for one that it allocates and
-- `imported` for one that is made from a descriptor. Destroying a surface closes its descriptor.
pub mod Owned
pub mod Ring
pub mod Life
pub mod Views
pub mod Pools
pub mod Imports
use axon_sdk_for_physical_ai.Common.{
  ℕ, zero, suc, ◌+◌, List, [], ◌∷◌, ◌++◌, Bool, true, false, Option, none, some, if◌then◌else◌, ltb,
  ◌==◌, ◌||◌, ◌&&◌, not, e_inval, e_nomem, e_proto,
}
use axon_sdk_for_physical_ai.Os.{
  M, Os, ◌>>=◌, ◌>>◌, pure, set_errno, call_open, close, surface, image, resource, device_call,
  device_query, device_take, device_return,
}
use axon_sdk_for_physical_ai.Accel.{accel_init}

-- `NvBuf`; `surf` is `none` for the null pointer.
pub record NvBuf : Type 0 where
  pub surf : Option ℕ
  pub fd : ℕ
  pub size : ℕ
  pub pitch : ℕ

-- `NvBufCuda`.
pub record NvBufCuda : Type 0 where
  pub resource : Option ℕ
  pub device_ptr : ℕ
  pub failed : Bool

-- `bufferDesc`, `dataSize` and `pitch` of `surfaceList[0]`.
pub record SurfaceInfo : Type 0 where
  pub desc : ℕ
  pub data_size : ℕ
  pub pitch : ℕ

-- The codes of YUYV, GREY and RGBA32 in the kernel's header.
pub record PixelFormats : Type 0 where
  pub yuyv : ℕ
  pub grey : ℕ
  pub rgba32 : ℕ

abbrev pub no_nvbuf : NvBuf
no_nvbuf = record { surf = none; fd = 0; size = 0; pitch = 0 }

abbrev pub no_cuda : NvBufCuda
no_cuda = record { resource = none; device_ptr = 0; failed = false }

abbrev pub nvbuf_of : ℕ → SurfaceInfo → NvBuf
nvbuf_of surf i = record { surf = some surf; fd = i.desc; size = i.data_size; pitch = i.pitch }

-- Whether a pixel format has a colour format.
unfoldable pub has_color : PixelFormats → ℕ → Bool
has_color f fourcc = (fourcc == f.yuyv) || (fourcc == f.grey) || (fourcc == f.rgba32)

-- The library opens the descriptor of a surface that it allocates.
abbrev pub open_desc : ℕ → M (Unit {0})
open_desc fd s = (tt, record s { opened = fd ∷ s.opened })

-- `NvBufSurfaceDestroy`.
unfoldable pub destroy_surface : ℕ → ℕ → M (Unit {0})
destroy_surface surf fd s =
    let t = (device_return (surface surf) s).1 in (tt, record t { closed = fd ∷ t.closed })

-- `nvbuf_alloc`; `none` is its false.
unfoldable pub nvbuf_alloc : PixelFormats → (ℕ → SurfaceInfo) → ℕ → ℕ → ℕ → M (Option NvBuf)
nvbuf_alloc formats info width height fourcc =
    if (width == 0) || (height == 0) || not (has_color formats fourcc)
    then (do set_errno e_inval; pure none)
    else do
      made ← device_take surface
      elim made [
        | none ↦ do set_errno e_nomem; pure none
        | some surf ↦ do open_desc (info surf).desc; pure (some (nvbuf_of surf (info surf)))
      ]

-- `nvbuf_free`.
unfoldable pub nvbuf_free : NvBuf → M NvBuf
nvbuf_free b = elim b.surf [
  | none ↦ pure b
  | some surf ↦ do destroy_surface surf b.fd; pure no_nvbuf
]

-- `nvbuf_get_import_params`: whether the blob is written.
unfoldable pub nvbuf_get_import_params : NvBuf → M Bool
nvbuf_get_import_params b = elim b.surf [ none ↦ pure false | some surf ↦ device_call ]

-- The rest of `nvbuf_import`, once the descriptor is duplicated.
unfoldable pub import_own : (ℕ → ℕ → SurfaceInfo) → ℕ → M (Option NvBuf)
import_own imported own = do
  made ← device_take surface
  elim made [
    | none ↦ do close own; set_errno e_proto; pure none
    | some surf ↦ pure (some (nvbuf_of surf (imported surf own)))
  ]

-- `nvbuf_import` of a descriptor, `none` for a negative one, with a blob.
unfoldable pub nvbuf_import : (ℕ → ℕ → SurfaceInfo) → Option ℕ → M (Option NvBuf)
nvbuf_import imported none = do set_errno e_inval; pure none
nvbuf_import imported (some fd) = do
  own ← call_open
  elim own [ none ↦ pure none | some n ↦ import_own imported n ]

abbrev pub usable_frame : (ℕ → Bool) → Option ℕ → Option ℕ
usable_frame pitched none = none
usable_frame pitched (some p) = if pitched p then some p else none

-- The mapped frame, once the image is registered. It is an error if it is not pitch-linear, which
-- `pitched` tells of its pointer.
unfoldable pub mapped_frame : (ℕ → Bool) → ℕ → ℕ → M (Option NvBufCuda)
mapped_frame pitched surf res = do
  frame ← device_query
  elim (usable_frame pitched frame) [
    | some p ↦ pure (some (record { resource = some res; device_ptr = p; failed = false }))
    | none ↦ do device_return (resource res); device_return (image surf); pure none
  ]

unfoldable pub register_image : (ℕ → Bool) → ℕ → M (Option NvBufCuda)
register_image pitched surf = do
  registered ← device_take resource
  elim registered [
    | none ↦ do device_return (image surf); pure none
    | some res ↦ mapped_frame pitched surf res
  ]

-- `nvbuf_cuda_map`.
unfoldable pub nvbuf_cuda_map : (ℕ → Bool) → NvBuf → M (Option NvBufCuda)
nvbuf_cuda_map pitched b = elim b.surf [
  | none ↦ pure none
  | some surf ↦ do
    ready ← accel_init
    elim ready [
      | false ↦ pure none
      | true ↦ do
        mapped ← device_take (λ n. image surf)
        elim mapped [ none ↦ pure none | some n ↦ register_image pitched surf ]
    ]
]

abbrev pub return_image : Option ℕ → M (Unit {0})
return_image none = pure tt
return_image (some surf) = device_return (image surf)

-- `nvbuf_cuda_unmap`.
unfoldable pub nvbuf_cuda_unmap : NvBuf → NvBufCuda → M NvBufCuda
nvbuf_cuda_unmap b c = elim c.resource [
  | none ↦ pure c
  | some res ↦ do _ ← accel_init; device_return (resource res); return_image b.surf; pure no_cuda
]
