-- ===== src/Bridge/Producers.antt =====
-- The descriptors of a producer over its life.
use axon_sdk_for_physical_ai.Common.{
  ℕ, ◌+◌, ◌≡◌, subst, List, [], ◌∷◌, ◌++◌, Option, none, some, arith, Option-cases, Bool-cases, inl,
  inr,
}
use axon_sdk_for_physical_ai.Os.{Os, call}
use axon_sdk_for_physical_ai.Os.Ledger.{Balanced, call-Balanced}
use axon_sdk_for_physical_ai.Types.{PoolBackend}
use axon_sdk_for_physical_ai.Pool.{TensorPool}
use axon_sdk_for_physical_ai.Pool.Alloc as Alloc
use axon_sdk_for_physical_ai.Pool.Ledger.{held}
use axon_sdk_for_physical_ai.Pool.Lifecycle.{held_option, create-Balanced, destroy-Balanced}
use axon_sdk_for_physical_ai.Sidecar as Sidecar
use axon_sdk_for_physical_ai.Sidecar.{SidecarServer, set_pool}
use axon_sdk_for_physical_ai.Subscriber.Ledger.{unmap_each-Balanced}
use axon_sdk_for_physical_ai.Publisher.{unmap_each}
use axon_sdk_for_physical_ai.Publisher.Ledger.{
  server_held, server_create-Balanced, server_destroy-Balanced,
}
use axon_sdk_for_physical_ai.Bridge.{
  Producer, map_loop, producer_config, announced, give_up_producer, serve, map_and_serve,
  create_producer, destroy_producer,
}

map_loop-Balanced :
    (a : ℕ) (fds : List ℕ) (views : List (Option ℕ)) (s : Os) (h : ℕ)
    → Balanced a s h (map_loop fds views s).1 h
unfolding map_loop
map_loop-Balanced a [] views s h = omega arith
map_loop-Balanced a (fd ∷ fds) views s h =
    let mapped = call-Balanced a s h in
    elim (Option-cases (call s).0) [
      | inl out ↦ ground (arith, out, mapped)
      | inr (v, e) ↦
          ground (arith, e, mapped, map_loop-Balanced a fds (views ++ some v ∷ []) (call s).1 h)
    ]

-- What a producer holds: its pool's descriptors and its server's.
unfoldable pub producer_held : ℕ → Option Producer → ℕ
producer_held a none = 0
producer_held a (some p) = held a p.pool + server_held a (some p.server)

give_up_producer-Balanced :
    (a : ℕ) (pool : TensorPool) (views : List (Option ℕ)) (s : Os)
    → Balanced a s (held a pool) (give_up_producer pool views s).1 0
unfolding give_up_producer
give_up_producer-Balanced a pool views s = omega (
  arith,
  unmap_each-Balanced a views s (held a pool),
  destroy-Balanced a pool (unmap_each views s).1,
)

serve-Balanced :
    (a : ℕ) (backend : PoolBackend) (size : ℕ) (pool : TensorPool) (views : List (Option ℕ))
    (s : Os)
    → Balanced a s
        (held a pool)
        (serve backend size pool views s).1
        (producer_held a (serve backend size pool views s).0)
unfolding serve give_up_producer producer_held announced server_held set_pool
serve-Balanced a backend size pool views s =
    let r = Sidecar.create s in
    let opened = server_create-Balanced a s (held a pool) in
    elim (Option-cases r.0) [
      | inl out ↦ ground (arith, out, opened, give_up_producer-Balanced a pool views r.1)
      | inr (v, e) ↦ ground (arith, e, opened)
    ]

map_and_serve-Balanced :
    (a : ℕ) (backend : PoolBackend) (size : ℕ) (pool : TensorPool) (s : Os)
    → Balanced a s
        (held a pool)
        (map_and_serve backend size pool s).1
        (producer_held a (map_and_serve backend size pool s).0)
unfolding map_and_serve producer_held give_up_producer
map_and_serve-Balanced a backend size pool s =
    let r = map_loop pool.share_fds [] s in
    let mapped = map_loop-Balanced a pool.share_fds [] s (held a pool) in
    elim (Bool-cases (r.0.0)) [
      | inr part ↦ ground (arith, part, mapped, give_up_producer-Balanced a pool (r.0.1) r.1)
      | inl all ↦
          let step : serve backend size pool (r.0.1) r.1 ≡ map_and_serve backend size pool s =
            ground (arith, all) in
          subst (λ x. Balanced a s (held a pool) x.1 (producer_held a x.0)) step
            (omega (arith, mapped, serve-Balanced a backend size pool (r.0.1) r.1))
    ]

create_producer-Balanced :
    (a pg n size : ℕ) (backend : PoolBackend) (s : Os)
    → Balanced a s 0
        (create_producer pg n size backend s).1
        (producer_held a (create_producer pg n size backend s).0)
unfolding create_producer producer_held held_option
create_producer-Balanced a pg n size backend s =
    let r = Alloc.create pg (producer_config n size backend) s in
    let made = create-Balanced a pg (producer_config n size backend) s in
    elim (Option-cases r.0) [
      | inl out ↦ ground (arith, out, made)
      | inr (p, e) ↦
          let step : map_and_serve backend size p r.1 ≡ create_producer pg n size backend s =
            ground (arith, e) in
          subst (λ x. Balanced a s 0 x.1 (producer_held a x.0)) step
            (ground (arith, e, made, map_and_serve-Balanced a backend size p r.1))
    ]

destroy_producer-Balanced :
    (a : ℕ) (p : Producer) (s : Os)
    → Balanced a s (producer_held a (some p)) (destroy_producer p s).1 0
unfolding destroy_producer producer_held
destroy_producer-Balanced a p s =
    let s1 = (unmap_each p.views s).1 in
    let s2 = (Sidecar.destroy p.server s1).1 in
    omega (
      arith,
      unmap_each-Balanced a p.views s (held a p.pool + server_held a (some p.server)),
      server_destroy-Balanced a p.server s1 (held a p.pool),
      destroy-Balanced a p.pool s2,
    )

-- A producer that is created, and destroyed if it could be.
unfoldable pub producer_life : ℕ → ℕ → ℕ → PoolBackend → Os → Os
producer_life pg n size backend s =
    let r = create_producer pg n size backend s in
    elim (r.0) [ none ↦ r.1 | some p ↦ (destroy_producer p r.1).1 ]

-- Whatever the backend and whichever calls fail, after a producer has been created, or not, and destroyed,
-- each file descriptor has been closed as often as it has been opened: those of the buffers, of the device
-- and of the listening socket.
pub producer_life-Balanced :
    (a pg n size : ℕ) (backend : PoolBackend) (s : Os)
    → Balanced a s 0 (producer_life pg n size backend s) 0
unfolding producer_life producer_held
producer_life-Balanced a pg n size backend s =
    let r = create_producer pg n size backend s in
    let made = create_producer-Balanced a pg n size backend s in
    elim (Option-cases r.0) [
      | inl out ↦ ground (arith, out, made)
      | inr (p, e) ↦ ground (arith, e, made, destroy_producer-Balanced a p r.1)
    ]
