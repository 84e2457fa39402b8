-- ===== src/Controller/Tests.antt =====
-- src/controller/time-manager.c and the process table of src/controller/main.c at concrete inputs.
use linbox.Prelude.{
  ℕ, suc, ◌+◌, ◌*◌, ◌^◌, ◌≤◌, ◌<◌, arith, ◌≡◌, ◌↔◌, refl, some, none, List, [], ◌∷◌, ◌==◌,
  if◌then◌else◌,
}
use linbox.Prelude.Int.{pos, negsuc, ◌+ℤ◌, ◌*ℤ◌}
use linbox.Shm.{Timespec, Layout, ProcessSlot, empty_slot, init_layout}
use linbox.Shm.Handle.{Kernel}
use linbox.Controller.TimeManager.{TimeManager, ns_add, tick}
use linbox.Controller.TimeManager.NsAdd.{total_ns, IsNormal, ns_add-exact, ns_add-defined_iff}
use linbox.Controller.Slots.{Signal}

abbrev moment : Timespec
moment = record { tv_sec = pos 5; tv_nsec = pos 999999999 }

abbrev before : Timespec
before = record { tv_sec = pos 4; tv_nsec = pos 999999997 }

two_back : ns_add moment (negsuc 1000000001) ≡ some before
unfolding ns_add ◌*ℤ◌ ◌+ℤ◌
two_back = refl

ns_add-exact_example : (total_ns before ≡ total_ns moment +ℤ negsuc 1000000001) × IsNormal before
ns_add-exact_example = ns_add-exact moment before (negsuc 1000000001) two_back

ns_add-defined_iff_example :
    (((u : Timespec) × (ns_add (record { tv_sec = pos 9223372037; tv_nsec = pos 1 }) (pos 2)
          ≡ some u))
      ↔ (9223372037 * 1000000000 + 1 + 2 < 2 ^ 63))
    × (((u : Timespec) × (ns_add (record { tv_sec = negsuc 9223372037; tv_nsec = pos 1 }) (pos 2)
            ≡ some u))
        ↔ ((suc 9223372037 * 1000000000 ≤ 2 ^ 63) × (1 + 2 < 2 ^ 63 + suc 9223372037 * 1000000000)))
ns_add-defined_iff_example = ns_add-defined_iff 9223372037 1 2 (omega arith)

abbrev slots : List ProcessSlot
slots =
    record { pid = 7; flags = 0; heartbeat_ns = 1 }
    ∷ empty_slot
    ∷ record { pid = 9; flags = 0; heartbeat_ns = 1 }
    ∷ empty_slot
    ∷ []

abbrev only_seven : ℕ → Signal
only_seven pid = if pid == 7 then Signal.delivered else Signal.no_process

abbrev memory : Layout
memory = record {
  header = record {
    magic = 0x4C494E42;
    version = 1;
    header_size = 72;
    global_seq = 0;
    heartbeat_ns = 9;
    network_policy_offset = 2160;
    filesystem_policy_offset = 3184;
    dns_policy_offset = 4208;
    policy_size = 4096;
  };
  time_seq = 2;
  virtual_time = moment;
  prng_seed = 0;
  flags = 0;
  process_slots = slots;
}

abbrev manager : TimeManager
manager = record {
  shm = record { fd = pos 3; size = 7280; layout = some memory };
  current = moment;
  seed = 0;
}

abbrev ticked : TimeManager
ticked =
    let header = memory.header in
    record manager {
      shm = record {
        fd = pos 3;
        size = 7280;
        layout = some (record memory {
          header = record header { heartbeat_ns = 40 };
          time_seq = 4;
          virtual_time = before;
        });
      };
      current = before;
    }

a_tick : tick manager (negsuc 1000000001) 40 ≡ some ticked
unfolding tick ns_add ◌*ℤ◌ ◌+ℤ◌ linbox.Shm.write_time
a_tick = refl

-- The memory is there already.
abbrev taken : Kernel
taken = record {
  shm_open_fd = negsuc 0;
  ftruncate_rc = pos 0;
  mmap_mem = none;
  errno = 17;
  now = 3;
}

abbrev joins : Kernel
joins = record {
  shm_open_fd = pos 4;
  ftruncate_rc = pos 0;
  mmap_mem = some memory;
  errno = 0;
  now = 3;
}
