-- ===== src/Accel/Owned.antt =====
-- What a device buffer holds, and what the parts of an allocation take.
use axon_sdk_for_physical_ai.Common.{
  ℕ, ◌+◌, ◌≡◌, false, Option, none, some, if◌then◌else◌, ◌==◌, arith,
}
use axon_sdk_for_physical_ai.Os.{
  Os, Object, handle, range, mapping, device_call, device_take, device_return, device_fd,
}
use axon_sdk_for_physical_ai.Os.Ledger.{Balanced, count, count_option}
use axon_sdk_for_physical_ai.Os.Objects.{Settled, tally, one_if_same}
use axon_sdk_for_physical_ai.Accel.{AccelBuffer, grant, map_rw, undo_alloc, export_buffer}

-- The objects of a buffer at `ptr` made from `h`.
abbrev pub owned_at : Object → ℕ → ℕ → ℕ
owned_at o ptr h =
    one_if_same o (mapping ptr) + one_if_same o (range ptr) + one_if_same o (handle h)

unfoldable pub owned : Object → AccelBuffer → ℕ
owned o b = if b.device_ptr == 0 then 0 else owned_at o b.device_ptr b.handle

unfoldable pub owned_option : Object → Option AccelBuffer → ℕ
owned_option o none = 0
owned_option o (some b) = owned o b

unfoldable pub fd_held : ℕ → AccelBuffer → ℕ
fd_held a b = if b.device_ptr == 0 then 0 else count_option a b.export_fd

unfoldable pub fd_option : ℕ → Option AccelBuffer → ℕ
fd_option a none = 0
fd_option a (some b) = fd_held a b

-- The two objects of a mapped range.
unfoldable pub mapped_at : Object → Option ℕ → ℕ
mapped_at o none = 0
mapped_at o (some ptr) = one_if_same o (mapping ptr) + one_if_same o (range ptr)

pub map_rw-Settled :
    (o : Object) (s : Os) (h : ℕ) → Settled o s h (map_rw s).1 (h + mapped_at o (map_rw s).0)
unfolding map_rw grant mapped_at device_take device_return device_call tally
map_rw-Settled o s h = ground arith

pub map_rw-Balanced : (a : ℕ) (s : Os) (h : ℕ) → Balanced a s h (map_rw s).1 h
unfolding map_rw grant device_take device_return device_call
map_rw-Balanced a s h = ground arith

pub map_rw-ne-zero : (s : Os) (ptr : ℕ) → (map_rw s).0 ≡ some ptr → (ptr == 0) ≡ false
unfolding map_rw grant device_take device_return device_call
map_rw-ne-zero s ptr e = ground (arith, e)

pub undo_alloc-Settled :
    (o : Object) (ptr h : ℕ) (s : Os) (k : ℕ)
    → Settled o s (k + owned_at o ptr h) (undo_alloc ptr h s).1 k
unfolding undo_alloc device_return tally
undo_alloc-Settled o ptr h s k = ground arith

pub undo_alloc-Balanced : (a ptr h : ℕ) (s : Os) (k : ℕ) → Balanced a s k (undo_alloc ptr h s).1 k
unfolding undo_alloc device_return
undo_alloc-Balanced a ptr h s k = ground arith

pub export_buffer-Settled :
    (o : Object) (ptr sz h : ℕ) (s : Os) (k : ℕ)
    → (ptr == 0) ≡ false
    → Settled o s
        (k + owned_at o ptr h)
        (export_buffer ptr sz h s).1
        (k + owned_option o (export_buffer ptr sz h s).0)
unfolding export_buffer owned_option owned device_fd undo_alloc device_return tally
export_buffer-Settled o ptr sz h s k ne = ground (arith, ne)

pub export_buffer-Balanced :
    (a ptr sz h : ℕ) (s : Os) (k : ℕ)
    → (ptr == 0) ≡ false
    → Balanced a s k (export_buffer ptr sz h s).1 (k + fd_option a (export_buffer ptr sz h s).0)
unfolding export_buffer fd_option fd_held device_fd undo_alloc device_return count count_option
export_buffer-Balanced a ptr sz h s k ne = ground (arith, ne)

-- The accounts of a function that gives a buffer out.
pub record Gives (o : Object) (a : ℕ) (s : Os) (r : Option AccelBuffer) (t : Os) : Type 0 where
  pub settled : (h : ℕ) → Settled o s h t (h + owned_option o r)
  pub balanced : (h : ℕ) → Balanced a s h t (h + fd_option a r)
