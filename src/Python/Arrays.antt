-- ===== src/Python/Arrays.antt =====
-- python/axon_py.cpp: arrays as `publish` takes them, and their dimensions in a descriptor.
use axon_sdk_for_physical_ai.Common.{
  replicate, ℕ, zero, suc, ◌+◌, ◌*◌, ◌^◌, ◌<◌, ◌≤◌, ◌≡◌, refl, ap, subst, List, [], ◌∷◌, Option,
  none, some, arith, length, map, wrap32, wrap64,
}
use axon_sdk_for_physical_ai.Types.{DType, mul_dims, max_rank}
use axon_sdk_for_physical_ai.Descriptor.Products.{product, mul_dims-one}
use axon_sdk_for_physical_ai.Subscriber.{offset_ptr}
use axon_sdk_for_physical_ai.Python.{numpy_dtype}
use axon_sdk_for_physical_ai.Bytes.{Memory}
use axon_sdk_for_physical_ai.Python.Publish.{memcpy, BufferInfo, nbytes, set_dims}
use axon_sdk_for_physical_ai.Python.Views.{array_of, first_dims}

-- The number of elements, which does not wrap.
unfoldable pub elements : List ℕ → ℕ
elements [] = 1
elements (d ∷ shape) = d * elements shape

-- What the code needs of an array: dimensions of 32 bits, `size` their product, and fewer than 2 ^ 64
-- bytes in all.
pub record IsArray (info : BufferInfo) : Type 0 where
  pub narrow : map wrap32 info.shape ≡ info.shape
  pub sized : info.size ≡ elements info.shape
  pub addressable : info.size * info.itemsize < 2 ^ 64

pub first_dims-set_dims :
    (shape dims : List ℕ)
    → length shape ≤ length dims
    → first_dims (length shape) (set_dims shape dims) ≡ shape
unfolding first_dims set_dims
first_dims-set_dims [] dims h = refl
first_dims-set_dims (d ∷ shape) [] h = elim h [ ]
first_dims-set_dims (d ∷ shape) (x ∷ dims) h =
    ap (◌∷◌ d) (first_dims-set_dims shape dims (omega arith))

pub memcpy-at :
    (to from n j : ℕ) (mem : Memory) → j < n → memcpy to from n mem (to + j) ≡ mem (from + j)
unfolding memcpy
memcpy-at to from n j mem h = ground arith

pub product-set_dims :
    (shape dims : List ℕ)
    → length shape ≤ length dims
    → product (length shape) (set_dims shape dims) ≡ elements shape
unfolding product set_dims elements
product-set_dims [] dims h = refl
product-set_dims (d ∷ shape) [] h = elim h [ ]
product-set_dims (d ∷ shape) (x ∷ dims) h = ap (◌*◌ d) (product-set_dims shape dims (omega arith))

-- The count of the staged dimensions.
pub count_staged :
    (shape : List ℕ)
    → length shape ≤ max_rank
    → elements shape < 2 ^ 64
    → mul_dims (length shape) 1 (set_dims shape (replicate 8 0)) ≡ elements shape
count_staged shape le lt =
    let dims = set_dims shape (replicate 8 0) in
    omega (arith, mul_dims-one (length shape) dims, product-set_dims shape (replicate 8 0) le)

pub array_of-shown :
    (t : DType) (o : Option ℕ) (start n : ℕ) (shape : List ℕ)
    → o ≡ some start
    → 0 < n
    → array_of t o n shape ≡ record { dtype = numpy_dtype t; shape = shape; start = some start }
unfolding array_of
array_of-shown t none start n shape e h = absurd (ground (arith, e))
array_of-shown t (some a) start zero shape e h = elim h [ ]
array_of-shown t (some a) start (suc n) shape e h = ground (arith, e)

-- A product that is neither 0 nor large has such a factor.
factor_lt : (a b n : ℕ) → 0 < a * b → a * b < n → (0 < a) × (a < n)
factor_lt zero b n pos lt = absurd (omega arith)
factor_lt (suc a) zero n pos lt = absurd (omega arith)
factor_lt (suc a) (suc b) n pos lt = (omega arith, grind arith)

pub small_elements :
    (info : BufferInfo)
    → IsArray info
    → 0 < nbytes info
    → ((0 < elements info.shape) × (elements info.shape < 2 ^ 64))
      × (nbytes info ≡ info.size * info.itemsize)
unfolding nbytes
small_elements info h some_bytes =
    let whole : wrap64 (info.size * info.itemsize) ≡ info.size * info.itemsize =
      omega (arith, h.addressable) in
    let factor =
      factor_lt info.size info.itemsize (2 ^ 64) (subst (λ x. 0 < x) whole some_bytes)
        h.addressable in
    (subst (λ x. (0 < x) × (x < 2 ^ 64)) h.sized factor, whole)

pub offset_ptr-zero : (o : Option ℕ) (base : ℕ) → o ≡ some base → offset_ptr o 0 ≡ some base
unfolding offset_ptr
offset_ptr-zero none base e = absurd (ground (arith, e))
offset_ptr-zero (some a) base e = ground (arith, e)

pub product-elements : (shape : List ℕ) → product (length shape) shape ≡ elements shape
unfolding product elements
product-elements [] = refl
product-elements (d ∷ shape) = ap (◌*◌ d) (product-elements shape)
