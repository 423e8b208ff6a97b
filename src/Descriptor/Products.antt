-- ===== src/Descriptor/Products.antt =====
-- The products of `Types.mul_dims`, against products that do not wrap.
use native.Mathlib.Nat.{add-mul-mod_self_left, mul_assoc}
use axon_sdk_for_physical_ai.Common.{
  ℕ, zero, suc, ◌+◌, ◌*◌, ◌/◌, ◌%◌, ◌^◌, ◌<◌, ◌≡◌, sym, ap, ◌∙◌, List, [], ◌∷◌, arith, wrap64,
}
use axon_sdk_for_physical_ai.Types.{mul_dims}

-- The product of the first `k` dimensions.
unfoldable pub product : ℕ → List ℕ → ℕ
product zero dims = 1
product (suc k) [] = 1
product (suc k) (d ∷ dims) = d * product k dims

mod-mul : (a b m : ℕ) → (a % m * b) % m ≡ (a * b) % m
mod-mul a b m = sym (ap (λ t. t % m) split ∙ add-mul-mod_self_left (a % m * b) m (a / m * b))
  where
    split : a * b ≡ a % m * b + m * (a / m * b)
    split = grind arith

pub mul_dims-mod :
    (k n : ℕ) (dims : List ℕ) → wrap64 (mul_dims k n dims) ≡ wrap64 (n * product k dims)
unfolding mul_dims product
mul_dims-mod zero n dims = omega arith
mul_dims-mod (suc k) n [] = omega arith
mul_dims-mod (suc k) n (d ∷ dims) =
    mul_dims-mod k (wrap64 (n * d)) dims
    ∙ mod-mul (n * d) (product k dims) (2 ^ 64)
    ∙ ap wrap64 (mul_assoc n d (product k dims))

pub mul_dims-lt : (k n : ℕ) (dims : List ℕ) → n < 2 ^ 64 → mul_dims k n dims < 2 ^ 64
unfolding mul_dims
mul_dims-lt zero n dims h = h
mul_dims-lt (suc k) n [] h = h
mul_dims-lt (suc k) n (d ∷ dims) h = mul_dims-lt k (wrap64 (n * d)) dims (omega arith)

-- From 1 the loop computes the product modulo 2 ^ 64.
pub mul_dims-one : (k : ℕ) (dims : List ℕ) → mul_dims k 1 dims ≡ wrap64 (product k dims)
mul_dims-one k dims = omega (arith, mul_dims-mod k 1 dims, mul_dims-lt k 1 dims (omega arith))

pub wrap-mul : (a b : ℕ) → wrap64 (wrap64 a * b) ≡ wrap64 (a * b)
wrap-mul a b = mod-mul a b (2 ^ 64)
