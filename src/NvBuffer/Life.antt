-- ===== src/NvBuffer/Life.antt =====
-- What the loops over surfaces take.
use axon_sdk_for_physical_ai.Common.{
  ℕ, zero, suc, ◌+◌, ◌≡◌, refl, subst, List, [], ◌∷◌, ◌++◌, false, Option, none, some,
  if◌then◌else◌, ltb, arith, Option-cases, inl, inr,
}
use axon_sdk_for_physical_ai.Os.{Os, Object, surface, device_take, device_return}
use axon_sdk_for_physical_ai.Os.Ledger.{Balanced, count, one_if}
use axon_sdk_for_physical_ai.Os.Objects.{Settled, tally, one_if_same}
use axon_sdk_for_physical_ai.Accel.Neutral.{accel_init-Neutral}
use axon_sdk_for_physical_ai.NvBuffer.{
  NvBuf, NvBufCuda, SurfaceInfo, PixelFormats, destroy_surface, nvbuf_alloc, nvbuf_free,
  nvbuf_cuda_unmap,
}
use axon_sdk_for_physical_ai.NvBuffer.Ring.{Frame, surface_loop}

-- What a buffer holds: its surface, and the descriptor that belongs to it.
unfoldable pub surface_held : Object → NvBuf → ℕ
surface_held o b = elim b.surf [ none ↦ 0 | some x ↦ one_if_same o (surface x) ]

unfoldable pub desc_held : ℕ → NvBuf → ℕ
desc_held a b = elim b.surf [ none ↦ 0 | some x ↦ one_if a b.fd ]

unfoldable pub surface_option : Object → Option NvBuf → ℕ
surface_option o none = 0
surface_option o (some b) = surface_held o b

unfoldable pub desc_option : ℕ → Option NvBuf → ℕ
desc_option a none = 0
desc_option a (some b) = desc_held a b

-- The accounts of a step from `s` to `t` that held `x` of an object and `y` of a descriptor before.
pub record Moves (o : Object) (a : ℕ) (s : Os) (x y : ℕ) (t : Os) (x' y' : ℕ) : Type 0 where
  pub settled : (h : ℕ) → Settled o s (h + x) t (h + x')
  pub balanced : (h : ℕ) → Balanced a s (h + y) t (h + y')

nvbuf_alloc-Moves :
    (o : Object) (a : ℕ) (formats : PixelFormats) (info : ℕ → SurfaceInfo) (w h f : ℕ) (s : Os)
    → let r = nvbuf_alloc formats info w h f s in
      Moves o a s 0 0 r.1 (surface_option o r.0) (desc_option a r.0)
unfolding nvbuf_alloc surface_option desc_option surface_held desc_held device_take tally count
nvbuf_alloc-Moves o a formats info w h f s = record {
  settled = λ k. ground arith;
  balanced = λ k. ground arith;
}

pub nvbuf_free-Moves :
    (o : Object) (a : ℕ) (b : NvBuf) (s : Os)
    → Moves o a s (surface_held o b) (desc_held a b) (nvbuf_free b s).1 0 0
unfolding nvbuf_free surface_held desc_held destroy_surface device_return tally count
nvbuf_free-Moves o a b s = record { settled = λ k. ground arith; balanced = λ k. ground arith }

pub nvbuf_cuda_unmap-Balanced :
    (a : ℕ) (b : NvBuf) (c : NvBufCuda) (s : Os) (h : ℕ)
    → Balanced a s h (nvbuf_cuda_unmap b c s).1 h
unfolding nvbuf_cuda_unmap device_return
nvbuf_cuda_unmap-Balanced a b c s h =
    let start = (accel_init-Neutral (surface 0) a s).balanced h in
    elim (Option-cases c.resource) [
      | inl e ↦ ground (arith, e)
      | inr (res, e) ↦ elim (Option-cases b.surf) [
        | inl f ↦ ground (arith, e, f, start)
        | inr (x, f) ↦ ground (arith, e, f, start)
      ]
    ]

unfoldable pub surfaces_held : Object → List NvBuf → ℕ
surfaces_held o [] = 0
surfaces_held o (b ∷ bs) = surface_held o b + surfaces_held o bs

unfoldable pub descs_held : ℕ → List NvBuf → ℕ
descs_held a [] = 0
descs_held a (b ∷ bs) = desc_held a b + descs_held a bs

surfaces_held-append :
    (o : Object) (bs : List NvBuf) (b : NvBuf)
    → surfaces_held o (bs ++ b ∷ []) ≡ surfaces_held o bs + surface_held o b
unfolding surfaces_held
surfaces_held-append o [] b = omega arith
surfaces_held-append o (x ∷ bs) b = omega (arith, surfaces_held-append o bs b)

descs_held-append :
    (a : ℕ) (bs : List NvBuf) (b : NvBuf)
    → descs_held a (bs ++ b ∷ []) ≡ descs_held a bs + desc_held a b
unfolding descs_held
descs_held-append a [] b = omega arith
descs_held-append a (x ∷ bs) b = omega (arith, descs_held-append a bs b)

pub surface_loop-Moves :
    (o : Object) (a : ℕ) (formats : PixelFormats) (info : ℕ → SurfaceInfo) (f : Frame)
    (left max_size : ℕ) (bs : List NvBuf) (s : Os)
    → let r = surface_loop formats info f left max_size bs s in
      Moves o a s
        (surfaces_held o bs)
        (descs_held a bs)
        r.1
        (surfaces_held o r.0.1.1)
        (descs_held a r.0.1.1)
unfolding surface_loop surface_option desc_option
surface_loop-Moves o a formats info f zero max_size bs s = record {
  settled = λ h. refl;
  balanced = λ h. refl;
}
surface_loop-Moves o a formats info f (suc left) max_size bs s =
    let r = nvbuf_alloc formats info f.width f.height f.fourcc s in
    let m = nvbuf_alloc-Moves o a formats info f.width f.height f.fourcc s in
    elim (Option-cases r.0) [
      | inl e ↦
          let step : ((false, (max_size, bs)), r.1)
              ≡ surface_loop formats info f (suc left) max_size bs s =
            ground (arith, e) in
          subst
            (λ x.
              Moves o a s (surfaces_held o bs) (descs_held a bs) x.1 (surfaces_held o x.0.1.1)
                (descs_held a x.0.1.1))
            step
            (record {
              settled = λ h. ground (arith, e, m.settled (h + surfaces_held o bs));
              balanced = λ h. ground (arith, e, m.balanced (h + descs_held a bs));
            })
      | inr (b, e) ↦
          let top = if ltb max_size b.size then b.size else max_size in
          let step : surface_loop formats info f left top (bs ++ b ∷ []) r.1
              ≡ surface_loop formats info f (suc left) max_size bs s =
            ground (arith, e) in
          let rest = surface_loop-Moves o a formats info f left top (bs ++ b ∷ []) r.1 in
          subst
            (λ x.
              Moves o a s (surfaces_held o bs) (descs_held a bs) x.1 (surfaces_held o x.0.1.1)
                (descs_held a x.0.1.1))
            step
            (record {
              settled = λ h. ground (
                arith,
                e,
                m.settled (h + surfaces_held o bs),
                surfaces_held-append o bs b,
                rest.settled h,
              );
              balanced = λ h. ground (
                arith,
                e,
                m.balanced (h + descs_held a bs),
                descs_held-append a bs b,
                rest.balanced h,
              );
            })
    ]
