-- ===== src/Python/Holds.antt =====
-- python/axon_py.cpp: the functions that create an object or raise, and `CpuLatencyHold`.
use axon_sdk_for_physical_ai.Pool.Access.{device_ptr, dma_buf_fds}
use axon_sdk_for_physical_ai.Common.{
  ◌==◌, ℕ, ℤ, List, Bool, true, false, Option, none, some, length, if◌then◌else◌, ltb,
}
use axon_sdk_for_physical_ai.Types.{DType, PoolBackend}
use axon_sdk_for_physical_ai.Os.{M, ◌>>=◌, pure, get_errno}
use axon_sdk_for_physical_ai.Pool.{TensorPool, TensorPoolConfig}
use axon_sdk_for_physical_ai.Pool.Alloc as Alloc
use axon_sdk_for_physical_ai.Publisher.{TensorPublisher}
use axon_sdk_for_physical_ai.Publisher as Publisher
use axon_sdk_for_physical_ai.Rt.Latency.{CpuLatencyHold}
use axon_sdk_for_physical_ai.Rt.Latency as Latency
use axon_sdk_for_physical_ai.Python.{
  PyError, PyDeviceArray, pool_create_failed, publisher_create_failed, null_device_ptr, os_error,
}

-- A result or the exception thrown.
pub data PyResult (A : Type 0) : Type 0 where
  ok : A → PyResult A
  throws : PyError → PyResult A

unfoldable pub or_throw : {A : Type 0} → PyError → Option A → PyResult A
or_throw e none = throws e
or_throw e (some a) = ok a

-- The configuration that `TensorPool.create` makes of its arguments: an empty name is no device.
unfoldable pub pool_config : ℕ → ℕ → PoolBackend → List ℕ → TensorPoolConfig
pool_config n_buffers buffer_size backend v4l2_device = record {
  n_buffers = n_buffers;
  buffer_size = buffer_size;
  backend = backend;
  v4l2_device = ltb 0 (length v4l2_device);
}

-- `TensorPool.create`, on pages of `pg` bytes.
unfoldable pub py_create_pool : ℕ → ℕ → ℕ → PoolBackend → List ℕ → M (PyResult TensorPool)
py_create_pool pg n_buffers buffer_size backend v4l2_device = do
  p ← Alloc.create pg (pool_config n_buffers buffer_size backend v4l2_device)
  pure (or_throw pool_create_failed p)

-- `TensorPublisher.create`.
unfoldable pub py_create_publisher : TensorPool → M (PyResult TensorPublisher)
py_create_publisher pool = do p ← Publisher.create pool; pure (or_throw publisher_create_failed p)

-- `PyLatencyHold`: its `hold`, if it is active.
abbrev pub PyLatencyHold : Type 0
PyLatencyHold = Option CpuLatencyHold

-- `cpu`; `none` is -1.
unfoldable pub hold_cpu_of : PyLatencyHold → Option ℕ
hold_cpu_of none = none
hold_cpu_of (some h) = h.cpu

-- `max_latency_us`; `none` is -1.
unfoldable pub hold_limit_of : PyLatencyHold → Option ℕ
hold_limit_of none = none
hold_limit_of (some h) = some h.us

unfoldable pub is_active : PyLatencyHold → Bool
is_active none = false
is_active (some h) = true

-- `release`, and the end of a `with` block: `hold.reset()`.
unfoldable pub reset : PyLatencyHold → M PyLatencyHold
reset none = pure none
reset (some h) = do _ ← Latency.release h; pure none

-- `cpu_latency_hold`.
unfoldable pub cpu_latency_hold : ℤ → ℤ → M (PyResult PyLatencyHold)
cpu_latency_hold us cpu = do
  h ← Latency.acquire us cpu
  e ← get_errno
  pure (elim h [ none ↦ throws (os_error e) | some x ↦ ok (some x) ])

-- `TensorPool.device_array`.
unfoldable pub device_array : TensorPool → ℕ → List ℕ → DType → Bool → PyResult PyDeviceArray
device_array p index shape t read_only =
    if device_ptr p index == 0
    then throws null_device_ptr
    else ok (record { ptr = device_ptr p index; shape = shape; dtype = t; read_only = read_only })

-- `buffer_count`.
unfoldable pub buffer_count : TensorPool → ℕ
buffer_count p = length (dma_buf_fds p)
