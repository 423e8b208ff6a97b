-- ===== src/NvBuffer/Imports.antt =====
-- An imported surface, its CUDA view included, is given back whole.
use axon_sdk_for_physical_ai.Common.{
  ℕ, ◌≡◌, refl, subst, Bool, Option, none, some, arith, Option-cases, inl, inr,
}
use axon_sdk_for_physical_ai.Os.{
  Os, Object, surface, device_query, device_take, device_return, call_open, close,
}
use axon_sdk_for_physical_ai.Os.Ledger.{
  Reply-cases, Balanced, count, count_option, one_if, call_open-Balanced,
}
use axon_sdk_for_physical_ai.Os.Objects.{Settled, tally}
use axon_sdk_for_physical_ai.Accel.Neutral.{accel_init-Neutral}
use axon_sdk_for_physical_ai.NvBuffer.{
  NvBuf, SurfaceInfo, import_own, nvbuf_import, mapped_frame, register_image, nvbuf_cuda_map,
  nvbuf_cuda_unmap, nvbuf_free,
}
use axon_sdk_for_physical_ai.NvBuffer.Owned.{
  view_option, nvbuf_cuda_map-Settled, nvbuf_cuda_unmap-Settled,
}
use axon_sdk_for_physical_ai.NvBuffer.Life.{
  Moves, surface_held, desc_held, surface_option, desc_option, nvbuf_free-Moves,
  nvbuf_cuda_unmap-Balanced,
}

import_own-Moves :
    (o : Object) (a : ℕ) (imported : ℕ → ℕ → SurfaceInfo) (own : ℕ) (s : Os)
    → ((x : ℕ) → (imported x own).desc ≡ own)
    → let r = import_own imported own s in
      Moves o a s 0 (one_if a own) r.1 (surface_option o r.0) (desc_option a r.0)
unfolding import_own surface_option desc_option surface_held desc_held device_take close tally count
import_own-Moves o a imported own s owns = elim (Reply-cases (s.reply s.calls)) [
  | inl (n, e) ↦ record {
    settled = λ h. ground (arith, e);
    balanced = λ h. ground (arith, e, owns n);
  }
  | inr (x, e) ↦ record { settled = λ h. ground (arith, e); balanced = λ h. ground (arith, e) }
]

call_open-Settled : (o : Object) (s : Os) (h : ℕ) → Settled o s h (call_open s).1 h
unfolding call_open
call_open-Settled o s h = ground arith

pub nvbuf_import-Moves :
    (o : Object) (a : ℕ) (imported : ℕ → ℕ → SurfaceInfo) (fd : Option ℕ) (s : Os)
    → ((x n : ℕ) → (imported x n).desc ≡ n)
    → let r = nvbuf_import imported fd s in
      Moves o a s 0 0 r.1 (surface_option o r.0) (desc_option a r.0)
unfolding nvbuf_import surface_option desc_option count_option
nvbuf_import-Moves o a imported none s owns = record { settled = λ h. refl; balanced = λ h. refl }
nvbuf_import-Moves o a imported (some fd) s owns =
    let r = call_open s in
    let opened = call_open-Balanced a s in
    let same = call_open-Settled o s in
    elim (Option-cases r.0) [
      | inl e ↦ record {
        settled = λ h. ground (arith, e, same h);
        balanced = λ h. ground (arith, e, opened h);
      }
      | inr (own, e) ↦
          let m = import_own-Moves o a imported own r.1 (λ x. owns x own) in
          let step : import_own imported own r.1 ≡ nvbuf_import imported (some fd) s =
            ground (arith, e) in
          subst (λ r. Moves o a s 0 0 r.1 (surface_option o r.0) (desc_option a r.0)) step
            (record {
              settled = λ h. omega (arith, same h, m.settled h);
              balanced = λ h. ground (arith, e, opened h, m.balanced h);
            })
    ]

pub nvbuf_cuda_map-Balanced :
    (a : ℕ) (pitched : ℕ → Bool) (b : NvBuf) (s : Os) (h : ℕ)
    → Balanced a s h (nvbuf_cuda_map pitched b s).1 h
unfolding nvbuf_cuda_map register_image mapped_frame device_take device_query device_return
nvbuf_cuda_map-Balanced a pitched b s h =
    let start = (accel_init-Neutral (surface 0) a s).balanced h in ground (arith, start)

-- The use of an imported surface: its view is mapped, and unmapped if it could be.
unfoldable pub use_surface : (ℕ → Bool) → NvBuf → Os → Os
use_surface pitched b s =
    let r = nvbuf_cuda_map pitched b s in
    elim (r.0) [ none ↦ r.1 | some c ↦ (nvbuf_cuda_unmap b c r.1).1 ]

use_surface-Moves :
    (o : Object) (a : ℕ) (pitched : ℕ → Bool) (b : NvBuf) (s : Os)
    → Moves o a s 0 0 (use_surface pitched b s) 0 0
unfolding use_surface view_option
use_surface-Moves o a pitched b s =
    let r = nvbuf_cuda_map pitched b s in
    let mapped = nvbuf_cuda_map-Settled o pitched b s in
    let mapped_fd = nvbuf_cuda_map-Balanced a pitched b s in
    elim (Option-cases r.0) [
      | inl e ↦ record {
        settled = λ h. ground (arith, e, mapped h);
        balanced = λ h. ground (arith, e, mapped_fd h);
      }
      | inr (c, e) ↦ record {
        settled = λ h. ground (arith, e, mapped h, nvbuf_cuda_unmap-Settled o b c r.1 h);
        balanced = λ h. ground (arith, e, mapped_fd h, nvbuf_cuda_unmap-Balanced a b c r.1 h);
      }
    ]

-- A surface that is imported, or not, used and freed.
unfoldable pub import_life : (ℕ → ℕ → SurfaceInfo) → (ℕ → Bool) → Option ℕ → Os → Os
import_life imported pitched fd s =
    let r = nvbuf_import imported fd s in
    elim (r.0) [ none ↦ r.1 | some b ↦ (nvbuf_free b (use_surface pitched b r.1)).1 ]

-- If the library keeps the descriptor that a surface is imported from as the surface's own, then whichever
-- calls fail, after a surface has been imported, or not, mapped for CUDA, unmapped and freed, each surface,
-- image and graphics resource has been returned as often as it has been taken, and each file descriptor
-- closed as often as opened: the duplicate is, and the received one is left to its owner.
pub import_life-Settled :
    (o : Object) (a : ℕ) (imported : ℕ → ℕ → SurfaceInfo) (pitched : ℕ → Bool) (fd : Option ℕ)
    (s : Os)
    → ((x n : ℕ) → (imported x n).desc ≡ n)
    → let t = import_life imported pitched fd s in Settled o s 0 t 0 × Balanced a s 0 t 0
unfolding import_life surface_option desc_option
import_life-Settled o a imported pitched fd s owns =
    let r = nvbuf_import imported fd s in
    let made = nvbuf_import-Moves o a imported fd s owns in
    elim (Option-cases r.0) [
      | inl e ↦ (ground (arith, e, made.settled 0), ground (arith, e, made.balanced 0))
      | inr (b, e) ↦
          let used = use_surface-Moves o a pitched b r.1 in
          let freed = nvbuf_free-Moves o a b (use_surface pitched b r.1) in
          (
            ground (arith, e, made.settled 0, used.settled (surface_held o b), freed.settled 0),
            ground (arith, e, made.balanced 0, used.balanced (desc_held a b), freed.balanced 0),
          )
    ]
