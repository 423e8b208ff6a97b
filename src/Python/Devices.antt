-- ===== src/Python/Devices.antt =====
-- python/axon_py.cpp: the types by name, and the frames in device memory that `publish_device` makes.
use axon_sdk_for_physical_ai.Common.{
  ℕ, ◌-◌, ◌*◌, ◌≡◌, ◌≢◌, refl, List, [], ◌∷◌, ◌==◌, if◌then◌else◌,
}
use axon_sdk_for_physical_ai.Types.{
  DType, dtype_size, u8, u16, i16, f16, bf16, f32, f64, i32, i64, unnamed,
}
use axon_sdk_for_physical_ai.Python.{numpy_dtype, cai_typestr}
use axon_sdk_for_physical_ai.Python.Views.{NumpyArray}
use axon_sdk_for_physical_ai.Python.Arrays.{elements}

-- The bytes of an element, by the digit of its type's name.
unfoldable pub text_size : List ℕ → ℕ
text_size (kind ∷ digit ∷ []) = digit - 48
text_size _ = 0

-- The byte order of a type string: 124, which is none, for one byte; 60, little-endian, for more.
unfoldable pub order_of : ℕ → ℕ
order_of size = if size == 1 then 124 else 60

-- For each type that has a size, `numpy_dtype` names a type of that size, and `cai_typestr` the same type
-- with its byte order.
pub cai_typestr-numpy_dtype :
    (t : DType)
    → dtype_size t ≢ 0
    → (text_size (numpy_dtype t) ≡ dtype_size t)
      × (cai_typestr t ≡ order_of (dtype_size t) ∷ numpy_dtype t)
unfolding text_size numpy_dtype cai_typestr order_of dtype_size
cai_typestr-numpy_dtype u8 h = (refl, refl)
cai_typestr-numpy_dtype u16 h = (refl, refl)
cai_typestr-numpy_dtype i16 h = (refl, refl)
cai_typestr-numpy_dtype f16 h = (refl, refl)
cai_typestr-numpy_dtype bf16 h = (refl, refl)
cai_typestr-numpy_dtype f32 h = (refl, refl)
cai_typestr-numpy_dtype f64 h = (refl, refl)
cai_typestr-numpy_dtype i32 h = (refl, refl)
cai_typestr-numpy_dtype i64 h = (refl, refl)
cai_typestr-numpy_dtype (unnamed b) h = absurd (h refl)

-- The bytes that a NumPy array shows.
unfoldable pub view_bytes : NumpyArray → ℕ
view_bytes a = elements a.shape * text_size a.dtype
