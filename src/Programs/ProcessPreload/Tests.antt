-- ===== src/Programs/ProcessPreload/Tests.antt =====
-- A run of src/shim/process.preload.c.
use linbox.Prelude.{
  ℕ, ◌≡◌, ◌≢◌, ◌↔◌, refl, sym, ap, ◌∙◌, arith, true, Option, none, some, List, [], ◌∷◌, ◌++◌, map,
  take, drop, get_elem?, All,
}
use linbox.Prelude.Int.{pos, ◌≤ℤ◌}
use linbox.Prng.{next_u64}
use linbox.Prng.State.{IsLive}
use linbox.Shim.Seeds.Running.{IsRunning}
use linbox.Controller.TimeManager.Publish.{IsPublished}
use linbox.Shm.{Timespec, Layout, ProcessSlot, empty_slot}
use linbox.Shm.Handle.{attach}
use linbox.Controller.TimeManager.{TimeManager, fake_epoch_sec}
use linbox.Shim.{State}
use linbox.Shim.Samples.{memory, handle, manager, running, kernel, boot}
use linbox.Programs.ProcessPreload.{World, Action, process_main, bytes_of}
use linbox.Programs.ProcessPreload.Pipe.{joined, IsFull}
use linbox.Programs.ProcessPreload.Ends.{
  IsStarted, report_of, child_main-sends, process_main-passes,
}

abbrev dawn : Timespec
dawn = record { tv_sec = pos 1735689600; tv_nsec = pos 0 }

abbrev dawn_memory : Layout
dawn_memory = record memory { virtual_time = dawn }

abbrev at_dawn : TimeManager
at_dawn = record manager { shm = record handle { layout = some dawn_memory }; current = dawn }

abbrev parent : State
parent = record running { shm = record handle { layout = some dawn_memory } }

abbrev child : State
child = record parent { prng = record { state = 54321 } }

-- What the child sends, cut behind the fifth byte.
abbrev pieces : List (List ℕ)
pieces = let bytes = bytes_of (report_of at_dawn child 77) in take 5 bytes ∷ drop 5 bytes ∷ []

abbrev world : World
world = record {
  ctrl = pos 76;
  kernel = kernel;
  pipe_rc = pos 0;
  child = pos 77;
  boot = boot;
  real = none;
  state = parent;
  pipe = map some pieces ++ (some [] ∷ []);
  slots = empty_slot ∷ record { pid = 77; flags = 1; heartbeat_ns = 0 } ∷ [];
  waited = record { rc = pos 77; exited = true; code = 0 };
}

started : IsStarted world
unfolding attach
started = record { controller = omega arith; attached = refl; piped = refl; forked = omega arith }

full : All IsFull pieces
unfolding bytes_of
full = (λ e. omega (arith, e), (λ e. omega (arith, e), tt))

sent : joined pieces ≡ bytes_of (report_of at_dawn child 77)
unfolding bytes_of
sent = refl

live : IsLive parent.prng
live = (omega arith, omega arith)

child_runs : IsRunning at_dawn child
child_runs = record {
  initialized = refl;
  connected = refl;
  shared = refl;
  live = (omega arith, omega arith);
}

published : IsPublished at_dawn
published = (refl, refl, refl)

-- What the child's end is, by what it wrote.
abbrev whole : List ℕ → Option (ℕ × Option (List ℕ))
whole bytes = some (0, some bytes)

process_main-passes_example :
    (status : ℕ) × (actions : List Action) × (process_main world ≡ some (status, actions))
    × ((status ≡ 0)
        ↔ (pos fake_epoch_sec ≤ℤ at_dawn.current.tv_sec)
          × (pos fake_epoch_sec ≤ℤ at_dawn.current.tv_sec)
          × ((next_u64 world.state.prng).0 ≢ (next_u64 child.prng).0)
          × ((i : ℕ) × (slot : ProcessSlot) × (get_elem? world.slots i ≡ some slot)
              × (slot.pid ≡ 77))
          × (pos 0 ≤ℤ world.waited.rc)
          × (world.waited.exited ≡ true)
          × (world.waited.code ≡ 0))
process_main-passes_example =
    process_main-passes world boot none 77 child at_dawn at_dawn pieces [] started
      (record { initialized = refl; connected = refl; shared = refl; live = live }) published
      child_runs published (omega arith) (omega arith) full
      (child_main-sends boot none 77 child at_dawn child_runs published ∙ ap whole (sym sent)) refl
