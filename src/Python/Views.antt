-- ===== src/Python/Views.antt =====
-- python/axon_py.cpp: `TensorSubscriber.latest_view` and the view that it returns.
use axon_sdk_for_physical_ai.Common.{
  ℕ, zero, suc, List, [], ◌∷◌, false, Option, none, some, if◌then◌else◌, ◌==◌, min,
}
use axon_sdk_for_physical_ai.Types.{DType, max_rank, mul_dims}
use axon_sdk_for_physical_ai.Subscriber.{TensorView, Subscriber, Reading, latest_view}
use axon_sdk_for_physical_ai.Python.{numpy_dtype, cai_typestr, CudaArray}

-- A NumPy array: `start` is the memory that it shows, and `none` for an array with memory of its own.
pub record NumpyArray : Type 0 where
  pub dtype : List ℕ
  pub shape : List ℕ
  pub start : Option ℕ

pub record PyView : Type 0 where
  pub seqno : ℕ
  pub staleness_ns : ℕ
  pub seqlock_retries : ℕ
  pub dtype : DType
  pub shape : List ℕ
  pub array : NumpyArray
  pub device_ptr : ℕ

-- `for (i = 0; i < rank && i < kMaxRank; ++i) shape.push_back(dims[i])`.
unfoldable pub first_dims : ℕ → List ℕ → List ℕ
first_dims zero dims = []
first_dims (suc k) [] = []
first_dims (suc k) (d ∷ dims) = d ∷ first_dims k dims

-- The address of a pointer, 0 for the null pointer.
unfoldable pub address : Option ℕ → ℕ
address none = 0
address (some a) = a

unfoldable pub array_of : DType → Option ℕ → ℕ → List ℕ → NumpyArray
array_of t (some start) (suc n) shape = record {
  dtype = numpy_dtype t;
  shape = shape;
  start = some start;
}
array_of t _ _ shape = record { dtype = numpy_dtype t; shape = 0 ∷ []; start = none }

unfoldable pub py_view : TensorView → PyView
py_view v =
    let rank = min v.shape.rank max_rank in
    record {
      seqno = v.seqno;
      staleness_ns = v.staleness_ns;
      seqlock_retries = v.seqlock_retries;
      dtype = v.dtype;
      shape = first_dims rank v.shape.dims;
      array =
          array_of v.dtype v.data_ptr (mul_dims rank 1 v.shape.dims) (first_dims rank v.shape.dims);
      device_ptr = address v.device_ptr;
    }

-- The lambda of `latest_view`; `none` is `None`.
unfoldable pub py_latest_view : Subscriber → Reading → Option PyView × Subscriber
py_latest_view s r =
    let (v, t) = latest_view s r in (elim v [ none ↦ none | some x ↦ some (py_view x) ], t)

-- `TensorView.__cuda_array_interface__`; `none` is `None`, for a frame in host memory.
unfoldable pub view_cuda_array : PyView → Option CudaArray
view_cuda_array v =
    if v.device_ptr == 0
    then none
    else some (record {
      shape = v.shape;
      typestr = cai_typestr v.dtype;
      pointer = v.device_ptr;
      read_only = false;
    })
