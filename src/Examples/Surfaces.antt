-- ===== src/Examples/Surfaces.antt =====
-- A pool of two surfaces that is asked for device pointers, and the tenth call of which fails.
use axon_sdk_for_physical_ai.Common.{ℕ, ◌+◌, [], if◌then◌else◌, ◌==◌, e_perm, not, refl, ◌∷◌}
use axon_sdk_for_physical_ai.Os.{Os, done, fails, surface, new_device}
use axon_sdk_for_physical_ai.Os.Ledger.{Balanced}
use axon_sdk_for_physical_ai.Os.Objects.{Settled}
use axon_sdk_for_physical_ai.NvBuffer.{SurfaceInfo, PixelFormats}
use axon_sdk_for_physical_ai.NvBuffer.Ring.{Frame}
use axon_sdk_for_physical_ai.NvBuffer.Pools.{nv_life, nv_life-Settled}

abbrev jetson : Os
jetson = record {
  reply = λ i. if i == 9 then fails e_perm else done (i + 20);
  calls = 0;
  errno = e_perm;
  opened = [];
  closed = [];
  attr = λ a cpu. [];
  pid = 1;
  device = new_device;
}

abbrev formats : PixelFormats
formats = record { yuyv = 1448695129; grey = 1497715271; rgba32 = 875713089 }

abbrev grey_frame : Frame
grey_frame = record { width = 640; height = 480; fourcc = 1497715271 }

abbrev surface_info : ℕ → SurfaceInfo
surface_info x = record { desc = x + 100; data_size = 327680; pitch = 640 }

nv_life-Settled_example :
    let t =
      nv_life 4096 formats surface_info grey_frame 2 0
        (λ p. not (p == 0))
        (1 ∷ 5 ∷ 1 ∷ [])
        jetson in
    Settled (surface 20) jetson 0 t 0 × Balanced 120 jetson 0 t 0
nv_life-Settled_example =
    nv_life-Settled (surface 20) 120 4096 formats surface_info grey_frame 2 0 (λ p. not (p == 0))
      (1 ∷ 5 ∷ 1 ∷ []) jetson refl
