-- ===== src/Pool/Lifecycle.antt =====
-- The descriptors of a pool over its life: creation, reallocation and destruction.
use axon_sdk_for_physical_ai.Common.{
  ◌∙◌, ℕ, ◌+◌, ◌≡◌, refl, List, [], ◌∷◌, false, Option, none, some, arith,
}
use axon_sdk_for_physical_ai.Os.{Os, close_option, close}
use axon_sdk_for_physical_ai.Os.Ledger.{
  close_option-Balanced, Balanced, count_option, close-Balanced,
}
use axon_sdk_for_physical_ai.Pool.{TensorPoolConfig, Buffer, TensorPool}
use axon_sdk_for_physical_ai.Pool.Alloc.{
  allocate_backend, close_buffers, free_all, ready_pool, allocate, new_pool, regenerate, create,
  retire_and_reallocate, destroy,
}
use axon_sdk_for_physical_ai.Pool.Ledger.{held, held_by, RunBalanced, allocate_backend-Balanced}

close_buffers-Balanced :
    (a : ℕ) (bs : List Buffer) (s : Os) (h : ℕ)
    → Balanced a s (h + held_by a bs) (close_buffers bs s).1 h
unfolding close_buffers held_by
close_buffers-Balanced a [] s h = omega arith
close_buffers-Balanced a (b ∷ bs) s h =
    let s1 = (close b.share_fd s).1 in
    let s2 = (close_option b.backing_fd s1).1 in
    omega (
      arith,
      close-Balanced a b.share_fd s 0,
      close_option-Balanced a b.backing_fd s1 0,
      close_buffers-Balanced a bs s2 h,
    )

-- `free_all` closes what the pool holds, and leaves it with nothing.
free_all-Balanced :
    (a : ℕ) (p : TensorPool) (s : Os)
    → Balanced a s (held a p) (free_all p s).1 0 × (held a (free_all p s).0 ≡ 0)
unfolding free_all held held_by count_option
free_all-Balanced a p s = (
  omega (
    arith,
    close_buffers-Balanced a p.buffers s 0,
    close_option-Balanced a p.v4l2_fd (close_buffers p.buffers s).1 0,
  ),
  refl,
)

held-ready_pool : (a : ℕ) (p : TensorPool) → held a (ready_pool p) ≡ held a p
unfolding held ready_pool
held-ready_pool a p = refl

allocate-Balanced :
    (a : ℕ) (p : TensorPool) (s : Os) → p.v4l2_fd ≡ none → RunBalanced a s p (allocate p s)
unfolding allocate
allocate-Balanced a p s shut =
    let r = allocate_backend p.cfg.backend p s in
    ground (
      arith,
      allocate_backend-Balanced a p.cfg.backend p s shut,
      held-ready_pool a r.0.1,
      free_all-Balanced a r.0.1 r.1,
    )

-- A pool whose allocation failed holds no descriptor.
allocate-failed :
    (a : ℕ) (p : TensorPool) (s : Os) → (allocate p s).0.0 ≡ false → held a (allocate p s).0.1 ≡ 0
unfolding allocate
allocate-failed a p s e =
    let r = allocate_backend p.cfg.backend p s in ground (arith, free_all-Balanced a r.0.1 r.1)

held-new_pool : (a pg : ℕ) (cfg : TensorPoolConfig) → held a (new_pool pg cfg) ≡ 0
unfolding held held_by new_pool count_option
held-new_pool a pg cfg = refl

shut-new_pool : (pg : ℕ) (cfg : TensorPoolConfig) → (new_pool pg cfg).v4l2_fd ≡ none
unfolding new_pool
shut-new_pool pg cfg = refl

unfoldable pub held_option : ℕ → Option TensorPool → ℕ
unfolding held
held_option a none = 0
held_option a (some p) = held a p

-- Whatever the system calls answer, `create` leaves open exactly the descriptors that the pool it
-- returns holds: each other one that it opened it closed once, and none twice; if it returns null, all.
pub create-Balanced :
    (a pg : ℕ) (cfg : TensorPoolConfig) (s : Os)
    → Balanced a s 0 (create pg cfg s).1 (held_option a (create pg cfg s).0)
unfolding create held_option
create-Balanced a pg cfg s = ground (
  arith,
  allocate-Balanced a (new_pool pg cfg) s (shut-new_pool pg cfg),
  allocate-failed a (new_pool pg cfg) s,
  held-new_pool a pg cfg,
)

free_all-shut : (p : TensorPool) (s : Os) → (free_all p s).0.v4l2_fd ≡ none
unfolding free_all
free_all-shut p s = refl

held-regenerate : (a pg n : ℕ) (p : TensorPool) → held a (regenerate pg n p) ≡ held a p
unfolding held regenerate
held-regenerate a pg n p = refl

shut-regenerate : (pg n : ℕ) (p : TensorPool) → (regenerate pg n p).v4l2_fd ≡ p.v4l2_fd
unfolding regenerate
shut-regenerate pg n p = refl

-- `retire_and_reallocate` closes each descriptor of the old buffers once and leaves open exactly those
-- of the new ones, whatever the system calls answer; where the allocation fails, none.
pub retire_and_reallocate-Balanced :
    (a pg n : ℕ) (p : TensorPool) (s : Os)
    → Balanced a s
        (held a p)
        (retire_and_reallocate pg n p s).1
        (held a (retire_and_reallocate pg n p s).0)
unfolding retire_and_reallocate
retire_and_reallocate-Balanced a pg n p s =
    let f = free_all p s in
    omega (
      arith,
      free_all-Balanced a p s,
      held-regenerate a pg n f.0,
      allocate-Balanced a (regenerate pg n f.0) f.1 (shut-regenerate pg n f.0 ∙ free_all-shut p s),
    )

pub destroy-Balanced : (a : ℕ) (p : TensorPool) (s : Os) → Balanced a s (held a p) (destroy p s).1 0
unfolding destroy
destroy-Balanced a p s = (free_all-Balanced a p s).0

-- A pool that was created and is destroyed has closed each descriptor that it opened, once.
pub destroy-create :
    (a pg : ℕ) (cfg : TensorPoolConfig) (s : Os) (p : TensorPool)
    → (create pg cfg s).0 ≡ some p
    → Balanced a s 0 (destroy p (create pg cfg s).1).1 0
unfolding destroy held_option
destroy-create a pg cfg s p e =
    ground (arith, create-Balanced a pg cfg s, free_all-Balanced a p (create pg cfg s).1)
