-- ===== src/Examples/Pools.antt =====
-- A pool of three buffers with the second slot in use, and systems on which pools are made.
use axon_sdk_for_physical_ai.Common.{
  ◌≡◌, ◌+◌, ◌==◌, if◌then◌else◌, refl, [], ◌∷◌, true, false, none, some, arith, replicate, e_inval,
  e_nomem,
}
use axon_sdk_for_physical_ai.Types.{custom}
use axon_sdk_for_physical_ai.Os.{new_device, Os, done, fails, call, call_open}
use axon_sdk_for_physical_ai.Os.Ledger.{Balanced}
use axon_sdk_for_physical_ai.Pool.{TensorPool, TensorPoolConfig}
use axon_sdk_for_physical_ai.Pool.Ring.{IsValid}
use axon_sdk_for_physical_ai.Pool.Alloc.{
  create, is_nv, allocate, allocate_backend, allocate_custom, make_sealed_memfd, size_and_seal,
  ready_pool, new_pool, page_round_up, destroy,
}
use axon_sdk_for_physical_ai.Pool.Lifecycle.{destroy-create}
use axon_sdk_for_physical_ai.Pool.Shared.{IsCreated, create-IsCreated}

abbrev pub pool : TensorPool
pool = record {
  cfg = record { n_buffers = 3; buffer_size = 4096; backend = custom; v4l2_device = false };
  buffer_size = 4096;
  gen = 1;
  buffers = replicate 3 (record { share_fd = 5; backing_fd = none; device_ptr = 0; pitch = 0 });
  share_fds = 5 ∷ 5 ∷ 5 ∷ [];
  in_use = false ∷ true ∷ false ∷ [];
  ring_head = 1;
  import_blob = [];
  v4l2_fd = none;
}

pool-IsValid : IsValid pool
pool-IsValid = record { slots = refl; head_lt = omega arith }

-- A system whose every call succeeds, with descriptors from 3 on.
abbrev pub willing : Os
willing = record {
  reply = λ n. done (n + 3);
  calls = 0;
  errno = e_inval;
  opened = [];
  closed = [];
  attr = λ a cpu. [];
  pid = 1;
  device = new_device;
}

-- A system on which the fifth call, the second `ftruncate`, fails.
abbrev short_of_memory : Os
short_of_memory = record willing { reply = λ n. if n == 4 then fails e_nomem else done (n + 3) }

abbrev two_buffers : TensorPoolConfig
two_buffers = record { n_buffers = 2; buffer_size = 5000; backend = custom; v4l2_device = false }

abbrev made : TensorPool
made = record {
  cfg = two_buffers;
  buffer_size = 8192;
  gen = 1;
  buffers =
      record { share_fd = 3; backing_fd = none; device_ptr = 0; pitch = 0 }
      ∷ record { share_fd = 6; backing_fd = none; device_ptr = 0; pitch = 0 }
      ∷ [];
  share_fds = 3 ∷ 6 ∷ [];
  in_use = false ∷ false ∷ [];
  ring_head = 0;
  import_blob = [];
  v4l2_fd = none;
}

create-made : (create 4096 two_buffers willing).0 ≡ some made
unfolding create is_nv allocate allocate_backend allocate_custom make_sealed_memfd size_and_seal
    call call_open ready_pool new_pool page_round_up
create-made = refl

destroy-create_example : Balanced 3 willing 0 (destroy made (create 4096 two_buffers willing).1).1 0
destroy-create_example = destroy-create 3 4096 two_buffers willing made create-made

create-IsCreated_example :
    IsCreated 4096 two_buffers willing made (create 4096 two_buffers willing).1
create-IsCreated_example = create-IsCreated 4096 two_buffers willing made (omega arith) create-made
