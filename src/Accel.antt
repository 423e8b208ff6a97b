-- ===== src/Accel.antt =====
-- include/axon/detail/accelerator.h and src/accelerator_cuda.cpp: device buffers. The calls of the CUDA
-- driver are calls of `Os`, which fail at any point; an address that it reserves is not null.
pub mod Neutral
pub mod Owned
pub mod Gives
pub mod Ring
use axon_sdk_for_physical_ai.Common.{
  ℕ, zero, suc, ◌+◌, ◌-◌, ◌*◌, ◌/◌, List, [], ◌∷◌, ◌++◌, Bool, true, false, Option, none, some,
  if◌then◌else◌, ◌==◌, ◌||◌, ◌&&◌, not, wrap64,
}
use axon_sdk_for_physical_ai.Os.{
  M, Os, ◌>>=◌, ◌>>◌, pure, close_option, handle, range, mapping, device_call, device_query,
  device_take, device_return, device_fd, start_device,
}

-- `AccelBuffer`; `device_ptr` is 0 for the null pointer and `export_fd` is `none` for -1.
pub record AccelBuffer : Type 0 where
  pub device_ptr : ℕ
  pub export_fd : Option ℕ
  pub aligned : ℕ
  pub handle : ℕ

-- Calls one after the other, up to the first that fails.
infixr 4 ◌and_then◌
abbrev pub ◌and_then◌ : M Bool → M Bool → M Bool
a and_then b = do r ← a; elim r [ false ↦ pure false | true ↦ b ]

-- `g_init`.
abbrev pub is_started : M Bool
is_started s = (s.device.started, s)

unfoldable pub mark_started : M Bool
mark_started = do start_device; pure true

-- `accel_init`.
unfoldable pub accel_init : M Bool
accel_init = do
  started ← is_started
  elim started [
    | true ↦ device_call
    | false ↦
        device_call and_then device_call and_then device_call and_then device_call
        and_then mark_started
  ]

-- `aligned_size`; `none` is its 0.
unfoldable pub aligned_size : ℕ → M (Option ℕ)
aligned_size size = do
  gran ← device_query
  elim gran [
    | none ↦ pure none
    | some g ↦ elim (g == 0 || wrap64 (size + g - 1) / g * g == 0) [
      | true ↦ pure none
      | false ↦ pure (some (wrap64 (size + g - 1) / g * g))
    ]
  ]

-- The rest of `map_rw`, once the range is mapped: grant access.
unfoldable pub grant : ℕ → M (Option ℕ)
grant ptr = do
  granted ← device_call
  elim granted [
    | true ↦ pure (some ptr)
    | false ↦ do device_return (mapping ptr); device_return (range ptr); pure none
  ]

-- The address that `cuMemAddressReserve` gives; it is never 0.
abbrev pub address : ℕ → ℕ
address n = n + 1

-- `map_rw`.
unfoldable pub map_rw : M (Option ℕ)
map_rw = do
  reserved ← device_take (λ n. range (address n))
  elim reserved [
    | none ↦ pure none
    | some n ↦ do
      mapped ← device_take (λ i. mapping (address n))
      elim mapped [
        | none ↦ do device_return (range (address n)); pure none
        | some i ↦ grant (address n)
      ]
  ]

-- Gives a mapped buffer back.
unfoldable pub undo_alloc : ℕ → ℕ → M (Unit {0})
undo_alloc ptr h = do
  device_return (mapping ptr)
  device_return (range ptr)
  device_return (handle h)

abbrev pub accel_buffer : ℕ → Option ℕ → ℕ → ℕ → AccelBuffer
accel_buffer ptr fd sz h = record { device_ptr = ptr; export_fd = fd; aligned = sz; handle = h }

-- The end of `accel_alloc`: the shareable handle.
unfoldable pub export_buffer : ℕ → ℕ → ℕ → M (Option AccelBuffer)
export_buffer ptr sz h = do
  exported ← device_fd
  elim exported [
    | none ↦ do undo_alloc ptr h; pure none
    | some fd ↦ pure (some (accel_buffer ptr (some fd) sz h))
  ]

-- A buffer of `sz` bytes, an aligned size.
unfoldable pub alloc_aligned : ℕ → M (Option AccelBuffer)
alloc_aligned sz = do
  made ← device_take handle
  elim made [
    | none ↦ pure none
    | some h ↦ do
      mapped ← map_rw
      elim mapped [
        | none ↦ do device_return (handle h); pure none
        | some ptr ↦ export_buffer ptr sz h
      ]
  ]

-- `accel_init`, then `aligned_size`, as both functions below begin.
unfoldable pub usable_size : ℕ → M (Option ℕ)
usable_size size =
    if size == 0
    then pure none
    else do ready ← accel_init; elim ready [ false ↦ pure none | true ↦ aligned_size size ]

-- `accel_alloc`; `none` is its false.
unfoldable pub accel_alloc : ℕ → M (Option AccelBuffer)
accel_alloc size = do
  usable ← usable_size size
  elim usable [ none ↦ pure none | some sz ↦ alloc_aligned sz ]

unfoldable pub import_aligned : ℕ → M (Option AccelBuffer)
import_aligned sz = do
  made ← device_take handle
  elim made [
    | none ↦ pure none
    | some h ↦ do
      mapped ← map_rw
      elim mapped [
        | none ↦ do device_return (handle h); pure none
        | some ptr ↦ pure (some (accel_buffer ptr none sz h))
      ]
  ]

-- `accel_import`; the descriptor is `none` for a negative one.
unfoldable pub accel_import : Option ℕ → ℕ → M (Option AccelBuffer)
accel_import none size = pure none
accel_import (some export_fd) size = do
  usable ← usable_size size
  elim usable [ none ↦ pure none | some sz ↦ import_aligned sz ]

abbrev pub no_buffer : AccelBuffer
no_buffer = record { device_ptr = 0; export_fd = none; aligned = 0; handle = 0 }

-- `accel_free`.
unfoldable pub accel_free : AccelBuffer → M AccelBuffer
accel_free b =
    if b.device_ptr == 0
    then pure b
    else do undo_alloc b.device_ptr b.handle; close_option b.export_fd; pure no_buffer

-- `TensorPool::Impl::allocate_accelerator`, built with CUDA: whether all the buffers are made, and those
-- that are.
unfoldable pub allocate_accelerator : ℕ → ℕ → List AccelBuffer → M (Bool × List AccelBuffer)
allocate_accelerator zero size buffers = pure (true, buffers)
allocate_accelerator (suc left) size buffers = do
  made ← accel_alloc size
  elim made [
    | none ↦ pure (false, buffers)
    | some b ↦ allocate_accelerator left size (buffers ++ b ∷ [])
  ]

-- The part of `free_all` for these buffers.
unfoldable pub free_each : List AccelBuffer → M (Unit {0})
free_each [] = pure tt
free_each (b ∷ bs) = do _ ← accel_free b; free_each bs
