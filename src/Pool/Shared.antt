-- ===== src/Pool/Shared.antt =====
-- What `TensorPool::create` (src/pool.cpp) promises of the pool that it returns.
use axon_sdk_for_physical_ai.Common.{
  ap, ◌∙◌, ℕ, ◌+◌, ◌%◌, ◌^◌, ◌≤◌, ◌<◌, ◌≡◌, List, [], ◌∷◌, false, some, arith, length, length-map,
  map,
}
use axon_sdk_for_physical_ai.Os.{Os}
use axon_sdk_for_physical_ai.Os.Ledger.{Balanced, count, count_option}
use axon_sdk_for_physical_ai.Pool.{TensorPoolConfig, Buffer, TensorPool}
use axon_sdk_for_physical_ai.Pool.Ring.{IsValid, used}
use axon_sdk_for_physical_ai.Pool.Alloc.{page_size, create}
use axon_sdk_for_physical_ai.Pool.Ledger.{held_by, held}
use axon_sdk_for_physical_ai.Pool.Lifecycle.{held_option, create-Balanced}
use axon_sdk_for_physical_ai.Pool.Created.{create-Allocated, page_round_up_bounds}

-- How often a descriptor backs one of the buffers.
unfoldable pub count_backing : ℕ → List Buffer → ℕ
count_backing a [] = 0
count_backing a (b ∷ bs) = count_option a b.backing_fd + count_backing a bs

held_by-shared :
    (a : ℕ) (bs : List Buffer)
    → held_by a bs ≡ count a (map (λ b. b.share_fd) bs) + count_backing a bs
unfolding held_by count count_backing
held_by-shared a [] = omega arith
held_by-shared a (b ∷ bs) = omega (arith, held_by-shared a bs)

-- A pool `p` that was made of the configuration `cfg`, between `s` and `t`. By `still_open`, of what was opened
-- since `s` the descriptors still open are those shared, those that back a buffer, and the device.
pub record IsCreated (pg : ℕ) (cfg : TensorPoolConfig) (s : Os) (p : TensorPool) (t : Os)
    : Type 0 where
  pub counted : length p.share_fds ≡ cfg.n_buffers
  pub shared : p.share_fds ≡ map (λ b. b.share_fd) p.buffers
  pub still_open :
      (a : ℕ)
      → Balanced a s 0 t
          (count a p.share_fds + count_backing a p.buffers + count_option a p.v4l2_fd)
  pub all_free : (i : ℕ) → used p i ≡ false
  pub valid : IsValid p
  pub generation : p.gen ≡ 1
  pub configured : p.cfg ≡ cfg
  pub size_le : cfg.buffer_size ≤ p.buffer_size
  pub size_lt : p.buffer_size < cfg.buffer_size + page_size pg
  pub whole_pages : p.buffer_size % page_size pg ≡ 0

-- If the size asked for and a page together do not pass 2 ^ 64, a pool that `create` returns has as many
-- buffers as were asked for. The descriptor that it shares for each is that buffer's own, and the shared
-- ones, with those that back the buffers and that of the device, are exactly the descriptors that `create`
-- has opened and not closed, each as often as opened. Every slot is free, the generation is 1, and the size
-- is the least number of whole pages that holds the size asked for.
pub create-IsCreated :
    (pg : ℕ) (cfg : TensorPoolConfig) (s : Os) (p : TensorPool)
    → cfg.buffer_size + page_size pg ≤ 2 ^ 64
    → (create pg cfg s).0 ≡ some p
    → IsCreated pg cfg s p (create pg cfg s).1
unfolding held held_option
create-IsCreated pg cfg s p fits e =
    let is = create-Allocated pg cfg s p e in
    let size = page_round_up_bounds pg cfg.buffer_size fits in
    record {
      counted = ap length is.shared ∙ length-map p.buffers _ ∙ is.count;
      shared = is.shared;
      still_open = λ a.
          let split = held_by-shared a p.buffers in
          let same = ap (count a) is.shared in ground (arith, create-Balanced a pg cfg s);
      all_free = is.all_free;
      valid = is.valid;
      generation = is.generation;
      configured = is.configured;
      size_le = omega (arith, size.0, is.sized);
      size_lt = omega (arith, size.1, is.sized);
      whole_pages = ap (λ n. n % page_size pg) is.sized ∙ size.2;
    }
