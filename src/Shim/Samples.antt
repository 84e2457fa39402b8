-- ===== src/Shim/Samples.antt =====
-- A process of the sandbox, and the memory that it shares with a controller, for the tests.
use linbox.Prelude.{true, some, [], ◌∷◌}
use linbox.Prelude.Int.{pos}
use linbox.Shm.{Timespec, Layout, empty_slot}
use linbox.Shm.Handle.{Handle, Kernel}
use linbox.Controller.TimeManager.{TimeManager}
use linbox.Shim.{State, Boot}

abbrev pub morning : Timespec
morning = record { tv_sec = pos 100; tv_nsec = pos 5000 }

abbrev pub memory : Layout
memory = record {
  header = record {
    magic = 0x4C494E42;
    version = 1;
    header_size = 72;
    global_seq = 0;
    heartbeat_ns = 9;
    network_policy_offset = 2160;
    filesystem_policy_offset = 3184;
    dns_policy_offset = 4208;
    policy_size = 4096;
  };
  time_seq = 2;
  virtual_time = morning;
  prng_seed = 42;
  flags = 0;
  process_slots = empty_slot ∷ empty_slot ∷ [];
}

abbrev pub handle : Handle
handle = record { fd = pos 3; size = 7280; layout = some memory }

abbrev pub manager : TimeManager
manager = record { shm = handle; current = morning; seed = 42 }

abbrev pub kernel : Kernel
kernel = record {
  shm_open_fd = pos 3;
  ftruncate_rc = pos 0;
  mmap_mem = some memory;
  errno = 0;
  now = 9;
}

-- The controller answers the first message by an acknowledgement.
abbrev pub boot : Boot
boot = record {
  socket_fd = pos 5;
  connects = true;
  writes = true;
  received = some (1 ∷ 2 ∷ 0 ∷ 0 ∷ 0 ∷ 0 ∷ 0 ∷ 0 ∷ []);
  kernel = kernel;
  pid = 77;
}

abbrev pub running : State
running = record {
  initialized = true;
  controller_connected = true;
  controller_fd = pos 5;
  resolution = record { tv_sec = pos 0; tv_nsec = pos 1000 };
  shared_seed = 1;
  effective_seed = 2;
  prng = record { state = 12345 };
  shm = handle;
}
