-- ===== src/Python.antt =====
-- python/axon_py.cpp: what the bindings add to the library. The glue of pybind11 is left out; a text is
-- a list of bytes, and an exception is a value of `PyError`.
pub mod Publish
pub mod Views
pub mod Arrays
pub mod Holds
pub mod Copied
pub mod RoundTrip
pub mod Devices
pub mod Frames
pub mod Overrun
use axon_sdk_for_physical_ai.Common.{
  ℕ, ◌-◌, ◌*◌, ◌/◌, List, [], ◌∷◌, Bool, true, false, Option, none, some, if◌then◌else◌, Errno,
  e_msgsize,
}
use axon_sdk_for_physical_ai.Types.{
  DType, u8, u16, i16, f16, bf16, f32, f64, i32, i64, unnamed, PoolBackend,
}
use axon_sdk_for_physical_ai.Os.{M, ◌>>=◌, pure}
use axon_sdk_for_physical_ai.Pool.{TensorPool, TensorPoolConfig}

-- The exceptions that the bindings throw.
pub data PyError : Type 0 where
  pool_create_failed publisher_create_failed subscriber_create_failed : PyError
  no_writable_buffer array_too_large bad_rank frame_does_not_fit null_device_ptr : PyError
  descriptor_rejected os_error : Errno → PyError

-- `throw_publish_error`.
unfoldable pub publish_error : Errno → PyError
publish_error e_msgsize = frame_does_not_fit
publish_error e = descriptor_rejected e

-- "u1", "u2", "i2", "f2", "u2", "f4", "f8", "i4" and "i8".
unfoldable pub numpy_dtype : DType → List ℕ
numpy_dtype u8 = 117 ∷ 49 ∷ []
numpy_dtype u16 = 117 ∷ 50 ∷ []
numpy_dtype i16 = 105 ∷ 50 ∷ []
numpy_dtype f16 = 102 ∷ 50 ∷ []
numpy_dtype bf16 = 117 ∷ 50 ∷ []
numpy_dtype f32 = 102 ∷ 52 ∷ []
numpy_dtype f64 = 102 ∷ 56 ∷ []
numpy_dtype i32 = 105 ∷ 52 ∷ []
numpy_dtype i64 = 105 ∷ 56 ∷ []
numpy_dtype (unnamed b) = 117 ∷ 49 ∷ []

-- "|u1", and then "<u2" and so on.
unfoldable pub cai_typestr : DType → List ℕ
cai_typestr u8 = 124 ∷ 117 ∷ 49 ∷ []
cai_typestr u16 = 60 ∷ 117 ∷ 50 ∷ []
cai_typestr i16 = 60 ∷ 105 ∷ 50 ∷ []
cai_typestr f16 = 60 ∷ 102 ∷ 50 ∷ []
cai_typestr bf16 = 60 ∷ 117 ∷ 50 ∷ []
cai_typestr f32 = 60 ∷ 102 ∷ 52 ∷ []
cai_typestr f64 = 60 ∷ 102 ∷ 56 ∷ []
cai_typestr i32 = 60 ∷ 105 ∷ 52 ∷ []
cai_typestr i64 = 60 ∷ 105 ∷ 56 ∷ []
cai_typestr (unnamed b) = 124 ∷ 117 ∷ 49 ∷ []

-- The dictionary of the CUDA Array Interface; "strides" is `None` and "version" 3 at each place.
pub record CudaArray : Type 0 where
  pub shape : List ℕ
  pub typestr : List ℕ
  pub pointer : ℕ
  pub read_only : Bool

pub record PyDeviceArray : Type 0 where
  pub ptr : ℕ
  pub shape : List ℕ
  pub dtype : DType
  pub read_only : Bool

-- `DeviceArray.__cuda_array_interface__`.
unfoldable pub cuda_array : PyDeviceArray → CudaArray
cuda_array d = record {
  shape = d.shape;
  typestr = cai_typestr d.dtype;
  pointer = d.ptr;
  read_only = d.read_only;
}
