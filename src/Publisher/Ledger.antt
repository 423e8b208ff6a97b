-- ===== src/Publisher/Ledger.antt =====
-- The descriptors of a publisher over its life.
use axon_sdk_for_physical_ai.Common.{
  ℕ, ◌+◌, ◌≡◌, refl, Option, none, some, arith, Option-cases, inl, inr,
}
use axon_sdk_for_physical_ai.Os.{Os, call, call_open, close, close_option}
use axon_sdk_for_physical_ai.Os.Ledger.{
  Balanced, count, count_option, one_if, call-Balanced, call_open-Balanced, close-Balanced,
  close_option-Balanced,
}
use axon_sdk_for_physical_ai.Pool.{TensorPool}
use axon_sdk_for_physical_ai.Sidecar.{SidecarServer, close_each, max_handshake_ext}
use axon_sdk_for_physical_ai.Sidecar as Sidecar
use axon_sdk_for_physical_ai.Sidecar.Client.Ledger.{close_each-Balanced}
use axon_sdk_for_physical_ai.Publisher.{
  TensorPublisher, unmap_each, map_views, pool_size, open_planes, new_publisher, create, destroy,
}
use axon_sdk_for_physical_ai.Publisher.Channel.{create_channel, destroy_channel}
use axon_sdk_for_physical_ai.Subscriber.Ledger.{unmap_each-Balanced, map_each-Balanced}

-- The copies of `a` that a server holds.
unfoldable pub server_held : ℕ → Option SidecarServer → ℕ
server_held a none = 0
server_held a (some v) = count_option a v.listen_fd + count a v.clients

server_held-none : (a : ℕ) → server_held a none ≡ 0
unfolding server_held
server_held-none a = refl

pub server_create-Balanced :
    (a : ℕ) (s : Os) (h : ℕ)
    → Balanced a s h (Sidecar.create s).1 (h + server_held a (Sidecar.create s).0)
unfolding Sidecar.create server_held count count_option
server_create-Balanced a s h =
    let s1 = (call s).1 in
    let s2 = (call_open s1).1 in
    let s3 = (call s2).1 in
    let s4 = (call s3).1 in
    elim (Option-cases (call_open s1).0) [
      | inl out ↦
          ground (arith, call-Balanced a s h, call_open-Balanced a s1 h, call-Balanced a s2 h)
      | inr (fd, e) ↦ ground (
        arith,
        call-Balanced a s h,
        call_open-Balanced a s1 h,
        call-Balanced a s2 (h + one_if a fd),
        call-Balanced a s3 (h + one_if a fd),
        close-Balanced a fd s3 h,
        close-Balanced a fd s4 h,
        call-Balanced a (close fd s3).1 h,
        call-Balanced a (close fd s4).1 h,
      )
    ]

create_channel-Balanced : (a : ℕ) (s : Os) (h : ℕ) → Balanced a s h (create_channel s).1 h
unfolding create_channel count_option
create_channel-Balanced a s h =
    let s1 = (call s).1 in
    let s2 = (call_open s1).1 in
    let s3 = (call s2).1 in
    let s4 = (call s3).1 in
    elim (Option-cases (call_open s1).0) [
      | inl out ↦
          ground (arith, call-Balanced a s h, call_open-Balanced a s1 h, call-Balanced a s2 h)
      | inr (fd, e) ↦
          let early = (close fd s3).1 in
          let late = (close fd s4).1 in
          ground (
            arith,
            call-Balanced a s h,
            call_open-Balanced a s1 h,
            call-Balanced a s2 (h + one_if a fd),
            call-Balanced a s3 (h + one_if a fd),
            close-Balanced a fd s3 h,
            close-Balanced a fd s4 h,
            call-Balanced a early h,
            call-Balanced a (call early).1 h,
            call-Balanced a late h,
            call-Balanced a (call late).1 h,
          )
    ]

destroy_channel-Balanced : (a : ℕ) (s : Os) (h : ℕ) → Balanced a s h (destroy_channel s).1 h
unfolding destroy_channel
destroy_channel-Balanced a s h = omega (arith, call-Balanced a s h, call-Balanced a (call s).1 h)

pub server_destroy-Balanced :
    (a : ℕ) (v : SidecarServer) (s : Os) (h : ℕ)
    → Balanced a s (h + server_held a (some v)) (Sidecar.destroy v s).1 h
unfolding Sidecar.destroy server_held
server_destroy-Balanced a v s h =
    let s1 = (close_each v.clients s).1 in
    let s2 = (close_option v.listen_fd s1).1 in
    omega (
      arith,
      close_each-Balanced a v.clients s (h + count_option a v.listen_fd),
      close_option-Balanced a v.listen_fd s1 h,
      call-Balanced a s2 h,
    )

open_planes-Balanced :
    (a : ℕ) (s : Os) → Balanced a s 0 (open_planes s).1 (server_held a (open_planes s).0)
unfolding open_planes server_held
open_planes-Balanced a s =
    let server = Sidecar.create s in
    let channel = create_channel server.1 in
    elim (Option-cases server.0) [
      | inl out ↦ ground (
        arith,
        out,
        server_create-Balanced a s 0,
        create_channel-Balanced a server.1 0,
        destroy_channel-Balanced a channel.1 0,
      )
      | inr (v, e) ↦ ground (
        arith,
        e,
        server_create-Balanced a s 0,
        create_channel-Balanced a server.1 (server_held a (some v)),
        server_destroy-Balanced a v channel.1 0,
      )
    ]

unfoldable pub publisher_held : ℕ → Option TensorPublisher → ℕ
publisher_held a none = 0
publisher_held a (some p) = server_held a (some p.server)

pool_size-Balanced : (a : ℕ) (pool : TensorPool) (s : Os) → Balanced a s 0 (pool_size pool s).1 0
unfolding pool_size
pool_size-Balanced a pool s = ground (arith, call-Balanced a s 0)

map_views-Balanced :
    (a : ℕ) (pool : TensorPool) (p : TensorPublisher) (s : Os) (h : ℕ)
    → Balanced a s h (map_views pool p s).1 h × ((map_views pool p s).0.server ≡ p.server)
unfolding map_views
map_views-Balanced a pool p s h = (
  omega (
    arith,
    unmap_each-Balanced a p.host_views s h,
    map_each-Balanced a pool.share_fds (unmap_each p.host_views s).1 h,
  ),
  refl,
)

-- Whichever calls fail, `create` keeps open what the publisher that it returns holds, and nothing if it
-- returns none.
pub create-publisher_held :
    (a : ℕ) (pool : TensorPool) (s : Os)
    → Balanced a s 0 (create pool s).1 (publisher_held a (create pool s).0)
unfolding create publisher_held new_publisher
create-publisher_held a pool s =
    let size = pool_size pool s in
    let planes = open_planes size.1 in
    elim (Option-cases planes.0) [
      | inl out ↦ ground (
        arith,
        out,
        pool_size-Balanced a pool s,
        open_planes-Balanced a size.1,
        server_held-none a,
      )
      | inr (v, e) ↦
          let p = new_publisher size.0 v in
          ground (
            arith,
            e,
            pool_size-Balanced a pool s,
            open_planes-Balanced a size.1,
            map_views-Balanced a pool p planes.1 (server_held a (some v)),
          )
    ]

-- A publisher that is destroyed leaves none of the descriptors that it holds open.
pub destroy-publisher_held :
    (a : ℕ) (p : TensorPublisher) (s : Os)
    → Balanced a s (publisher_held a (some p)) (destroy p s).1 0
unfolding destroy publisher_held
destroy-publisher_held a p s =
    let held = publisher_held a (some p) in
    let s1 = (unmap_each p.host_views s).1 in
    let s2 = (Sidecar.destroy p.server s1).1 in
    omega (
      arith,
      unmap_each-Balanced a p.host_views s held,
      server_destroy-Balanced a p.server s1 0,
      destroy_channel-Balanced a s2 0,
    )

-- A publisher that is created for a pool, and destroyed if it could be.
unfoldable pub publisher_life : TensorPool → Os → Os
publisher_life pool s =
    let r = create pool s in elim (r.0) [ none ↦ r.1 | some p ↦ (destroy p r.1).1 ]

-- Whichever calls fail, after a publisher has been created, or not, and destroyed, each file descriptor has
-- been closed as often as it has been opened.
pub publisher_life-Balanced :
    (a : ℕ) (pool : TensorPool) (s : Os) → Balanced a s 0 (publisher_life pool s) 0
unfolding publisher_life publisher_held
publisher_life-Balanced a pool s =
    let r = create pool s in
    let made = create-publisher_held a pool s in
    elim (Option-cases r.0) [
      | inl out ↦ ground (arith, out, made)
      | inr (p, e) ↦ ground (arith, e, made, destroy-publisher_held a p r.1)
    ]
