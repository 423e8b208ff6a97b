-- ===== src/NvBuffer/Pools.antt =====
-- A pool of surfaces is given back whole.
use axon_sdk_for_physical_ai.Pool.Alloc.{page_round_up}
use axon_sdk_for_physical_ai.NvBuffer.Views.{
  views_owned, IsTight, IsRing, ask_each, ask_each-IsUsed,
}
use axon_sdk_for_physical_ai.Common.{
  ℕ, ◌+◌, ◌≡◌, refl, List, [], ◌∷◌, length, replicate, arith, Bool-cases, inl, inr, Bool, true,
  false, subst, sym, ap, ◌∙◌, length-replicate, get_or-replicate, if◌then◌else◌,
}
use axon_sdk_for_physical_ai.Os.{Os, Object, device_call}
use axon_sdk_for_physical_ai.Os.Ledger.{Balanced}
use axon_sdk_for_physical_ai.Os.Objects.{Settled}
use axon_sdk_for_physical_ai.NvBuffer.{
  NvBuf, NvBufCuda, SurfaceInfo, PixelFormats, no_cuda, nvbuf_free, nvbuf_get_import_params,
  nvbuf_cuda_unmap,
}
use axon_sdk_for_physical_ai.NvBuffer.Owned.{view_owned, nvbuf_cuda_unmap-Settled}
use axon_sdk_for_physical_ai.NvBuffer.Ring.{
  Frame, surface_loop, params_loop, allocate_nvbufsurface, free_surfaces, NvRing,
}
use axon_sdk_for_physical_ai.NvBuffer.Life.{
  Moves, surface_held, desc_held, surfaces_held, descs_held, surface_loop-Moves, nvbuf_free-Moves,
  nvbuf_cuda_unmap-Balanced,
}

params-Moves :
    (o : Object) (a : ℕ) (b : NvBuf) (s : Os) → Moves o a s 0 0 (nvbuf_get_import_params b s).1 0 0
unfolding nvbuf_get_import_params device_call
params-Moves o a b s = record { settled = λ h. ground arith; balanced = λ h. ground arith }

params_loop-Moves :
    (o : Object) (a : ℕ) (bs : List NvBuf) (s : Os) → Moves o a s 0 0 (params_loop bs s).1 0 0
unfolding params_loop
params_loop-Moves o a [] s = record { settled = λ h. refl; balanced = λ h. refl }
params_loop-Moves o a (b ∷ bs) s =
    let r = nvbuf_get_import_params b s in
    let one = params-Moves o a b s in
    let rest = params_loop-Moves o a bs r.1 in
    record {
      settled = λ h. ground (arith, one.settled h, rest.settled h);
      balanced = λ h. ground (arith, one.balanced h, rest.balanced h);
    }

views_owned-nil : (o : Object) (bs : List NvBuf) → views_owned o bs [] ≡ 0
unfolding views_owned
views_owned-nil o [] = refl
views_owned-nil o (b ∷ bs) = refl

views_owned-fresh :
    (o : Object) (bs : List NvBuf) → views_owned o bs (replicate (length bs) no_cuda) ≡ 0
unfolding views_owned view_owned
views_owned-fresh o [] = refl
views_owned-fresh o (b ∷ bs) = omega (arith, views_owned-fresh o bs)

pub free_surfaces-Moves :
    (o : Object) (a : ℕ) (bs : List NvBuf) (cs : List NvBufCuda) (s : Os)
    → Moves o a s
        (surfaces_held o bs + views_owned o bs cs)
        (descs_held a bs)
        (free_surfaces bs cs s).1
        0
        0
unfolding free_surfaces surfaces_held descs_held views_owned
free_surfaces-Moves o a [] cs s = record { settled = λ h. omega arith; balanced = λ h. omega arith }
free_surfaces-Moves o a (b ∷ bs) [] s =
    let freed = nvbuf_free-Moves o a b s in
    let rest = free_surfaces-Moves o a bs [] (nvbuf_free b s).1 in
    record {
      settled = λ h.
          omega
            (arith, views_owned-nil o bs, freed.settled (h + surfaces_held o bs), rest.settled h);
      balanced = λ h. omega (arith, freed.balanced (h + descs_held a bs), rest.balanced h);
    }
free_surfaces-Moves o a (b ∷ bs) (c ∷ cs) s =
    let s1 = (nvbuf_cuda_unmap b c s).1 in
    let freed = nvbuf_free-Moves o a b s1 in
    let rest = free_surfaces-Moves o a bs cs (nvbuf_free b s1).1 in
    record {
      settled = λ h.
          let left = h + surfaces_held o bs + views_owned o bs cs in
          omega (
            arith,
            nvbuf_cuda_unmap-Settled o b c s (left + surface_held o b),
            freed.settled left,
            rest.settled h,
          );
      balanced = λ h.
          let left = h + descs_held a bs in
          omega (
            arith,
            nvbuf_cuda_unmap-Balanced a b c s (left + desc_held a b),
            freed.balanced left,
            rest.balanced h,
          );
    }

-- What an allocation has taken, whether or not it succeeds.
record IsMade (o : Object) (a : ℕ) (s : Os) (r : NvRing) (t : Os) : Type 0 where
  settled : Settled o s 0 t (surfaces_held o r.buffers)
  balanced : Balanced a s 0 t (descs_held a r.buffers)
  unmapped : views_owned o r.buffers r.views ≡ 0

allocate-IsMade :
    (o : Object) (a pg : ℕ) (formats : PixelFormats) (info : ℕ → SurfaceInfo) (f : Frame)
    (n size : ℕ) (s : Os)
    → let r = allocate_nvbufsurface pg formats info f n size s in IsMade o a s r.0.1 r.1
unfolding allocate_nvbufsurface surfaces_held descs_held
allocate-IsMade o a pg formats info f n size s =
    let r = surface_loop formats info f n 0 [] s in
    let bs = r.0.1.1 in
    let made = surface_loop-Moves o a formats info f n 0 [] s in
    let p = params_loop bs r.1 in
    let written = params_loop-Moves o a bs r.1 in
    elim (Bool-cases (r.0.0)) [
      | inr part ↦ record {
        settled = ground (arith, part, made.settled 0);
        balanced = ground (arith, part, made.balanced 0);
        unmapped = ground (arith, part, views_owned-nil o bs);
      }
      | inl all ↦ record {
        settled = ground (arith, all, made.settled 0, written.settled (surfaces_held o bs));
        balanced = ground (arith, all, made.balanced 0, written.balanced (descs_held a bs));
        unmapped = ground (arith, all, views_owned-fresh o bs);
      }
    ]

fresh-IsRing :
    (bs : List NvBuf) (size : ℕ) (blobs : Bool)
    → IsRing (record {
      buffers = bs;
      views = replicate (length bs) no_cuda;
      buffer_size = size;
      blobs = blobs;
    })
unfolding IsTight
fresh-IsRing bs size blobs = record {
  each = length-replicate (length bs) no_cuda;
  tight = λ i z. ap (λ c. c.resource) (get_or-replicate (length bs) i no_cuda);
}

allocate-IsRing :
    (pg : ℕ) (formats : PixelFormats) (info : ℕ → SurfaceInfo) (f : Frame) (n size : ℕ) (s : Os)
    → (allocate_nvbufsurface pg formats info f n size s).0.0 ≡ true
    → IsRing (allocate_nvbufsurface pg formats info f n size s).0.1
unfolding allocate_nvbufsurface
allocate-IsRing pg formats info f n size s e =
    let r = surface_loop formats info f n 0 [] s in
    let bs = r.0.1.1 in
    elim (Bool-cases (r.0.0)) [
      | inr part ↦ absurd (ground (arith, part, e))
      | inl all ↦
          let ring = fresh-IsRing bs (page_round_up pg r.0.1.0) (params_loop bs r.1).0 in
          subst IsRing (ground (arith, all)) ring
    ]

-- A pool of surfaces that is allocated, and asked for the device pointers of some indices, or is not; and
-- then freed.
unfoldable pub nv_life :
    ℕ → PixelFormats → (ℕ → SurfaceInfo) → Frame → ℕ → ℕ → (ℕ → Bool) → List ℕ → Os → Os
nv_life pg formats info f n size pitched indices s =
    let r = allocate_nvbufsurface pg formats info f n size s in
    let u : NvRing × Os = if r.0.0 then ask_each pitched indices r.0.1 r.1 else (r.0.1, r.1) in
    (free_surfaces u.0.buffers u.0.views u.1).1

-- If no frame at the null pointer is pitch-linear, then whichever calls of the library fail, after a pool
-- of surfaces has been allocated and asked for device pointers any number of times, in range or not, or
-- could not be allocated, and has been freed, each surface, image and graphics resource has been returned
-- as often as it has been taken, and each file descriptor closed as often as opened.
pub nv_life-Settled :
    (o : Object) (a pg : ℕ) (formats : PixelFormats) (info : ℕ → SurfaceInfo) (f : Frame)
    (n size : ℕ) (pitched : ℕ → Bool) (indices : List ℕ) (s : Os)
    → pitched 0 ≡ false
    → let t = nv_life pg formats info f n size pitched indices s in
      Settled o s 0 t 0 × Balanced a s 0 t 0
unfolding nv_life
nv_life-Settled o a pg formats info f n size pitched indices s null =
    let r = allocate_nvbufsurface pg formats info f n size s in
    let ring = r.0.1 in
    let made = allocate-IsMade o a pg formats info f n size s in
    elim (Bool-cases (r.0.0)) [
      | inr part ↦
          let freed = free_surfaces-Moves o a ring.buffers ring.views r.1 in
          (
            ground (arith, part, made.settled, made.unmapped, freed.settled 0),
            ground (arith, part, made.balanced, freed.balanced 0),
          )
      | inl all ↦
          let ok = allocate-IsRing pg formats info f n size s all in
          let u = ask_each pitched indices ring r.1 in
          let used = ask_each-IsUsed o pitched indices ring r.1 null ok in
          let freed = free_surfaces-Moves o a ring.buffers u.0.views u.1 in
          let step : (free_surfaces ring.buffers u.0.views u.1).1
              ≡ nv_life pg formats info f n size pitched indices s =
            ap (λ bs. (free_surfaces bs u.0.views u.1).1) (sym used.buffers)
            ∙ ground (arith, all) in
          subst (λ t. Settled o s 0 t 0 × Balanced a s 0 t 0) step
            (
              omega (
                arith,
                made.settled,
                made.unmapped,
                used.settled (surfaces_held o ring.buffers),
                freed.settled 0,
              ),
              omega (
                arith,
                made.balanced,
                used.balanced a (descs_held a ring.buffers),
                freed.balanced 0,
              ),
            )
    ]
