-- ===== src/Rt.antt =====
-- include/axon/rt.h and src/rt.cpp: which bytes are touched to wire a region, and the order of
-- `rt_setup_memory_and_sched`. Builds modelled define MCL_ONFAULT.
pub mod Touch
pub mod Latency
pub mod Setup
pub mod Clock
pub mod Siblings
use axon_sdk_for_physical_ai.Common.{
  ℕ, zero, suc, ◌+◌, ◌-◌, List, [], ◌∷◌, ◌++◌, Bool, true, false, Option, none, some, if◌then◌else◌,
  ltb, ◌==◌, ◌&&◌, not, Errno, e_inval,
}
use axon_sdk_for_physical_ai.Os.{M, ◌>>=◌, ◌>>◌, pure, set_errno, get_errno, call}

-- The loop of `touch_pages`: the offsets that are written. A round takes at least a byte, so the size of
-- the region is fuel enough.
unfoldable pub touch_loop : ℕ → ℕ → ℕ → ℕ → List ℕ
touch_loop zero page i n = []
touch_loop (suc fuel) page i n =
    let rest = touch_loop fuel page (i + page) n in if ltb i n then i ∷ rest else []

unfoldable pub touch_pages : ℕ → ℕ → List ℕ
touch_pages page n = touch_loop n page 0 n ++ (if ltb 0 n then (n - 1) ∷ [] else [])

-- `rt_prefault_dma_buf_view` of a view at an address: what is read, or EINVAL for no view.
unfoldable pub rt_prefault_dma_buf_view : ℕ → Option ℕ → ℕ → M (Option (List ℕ))
rt_prefault_dma_buf_view page none size = do set_errno e_inval; pure none
rt_prefault_dma_buf_view page (some view) size =
    if size == 0 then (do set_errno e_inval; pure none) else pure (some (touch_pages page size))
