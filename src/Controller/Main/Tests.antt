-- ===== src/Controller/Main/Tests.antt =====
-- A run of the controller at concrete inputs.
use linbox.Prelude.{true, ℕ, ◌^◌, ◌<◌, inl, inr, ◌≡◌, refl, arith, some, List, [], ◌∷◌}
use linbox.Prelude.Int.{pos}
use linbox.Shm.{Timespec, init_layout, write_time, sizeof_layout}
use linbox.Shm.Handle.{
  Kernel, held, nothing_held, create, open_map, destroy, detach, opened, mapped, unmapped, closed,
  unlinked,
}
use linbox.Controller.Slots.{Signal}
use linbox.Controller.TimeManager
use linbox.Controller.TimeManager.{open_manager, close_manager}
use linbox.Controller.Server.Samples.{
  start, no_time, first_turn, quiet, server, manager-IsReady, after_turn, a_turn, memory,
}
use linbox.Controller.Server.Clients.{count}
use native.Mathlib.Decide.{ℕ_discrete}
use linbox.Controller.Slots.Table.{no_pids}
use linbox.Controller.Contract.Ranges.{InRange, run_loop-InRange}
use linbox.Controller.Contract.{view, view_of}
use linbox.Controller.Contract.Trace.{Evolves, run_loop-Evolves}
use linbox.Controller.Main.{
  setup_server_socket, start_server, finish_run, close_clients, Event, interrupted, polled, Run,
  Ended, run_loop, main_run,
}
use linbox.Controller.Main.Accounts.{accepted_in, main_run-accounts}
use linbox.Controller.Main.Held.{main_run-held}

abbrev end : Timespec
end = record { tv_sec = pos 51; tv_nsec = pos 0 }

abbrev events : List Event
events = interrupted ∷ polled quiet (some 7) (λ pid. Signal.no_process) end ∷ []

looped : run_loop events (server, start) ≡ some (after_turn, end)
unfolding run_loop
looped = rw a_turn refl

run_loop-Evolves_example :
    Evolves events (view_of (some memory)) (view_of after_turn.manager.shm.layout)
run_loop-Evolves_example =
    run_loop-Evolves events server after_turn start end (omega arith, manager-IsReady) looped

-- The table of the memory is empty.
memory_pids : (r : ℕ) → (view memory).members r ≡ true → r < 2 ^ 32
unfolding view
memory_pids r e = elim (ℕ_discrete r 0) [
  | yes z ↦ omega (arith, z)
  | no nz ↦ absurd (let none_there = no_pids 64 r nz in ground (arith, e, none_there))
]

memory-InRange : InRange (view memory)
unfolding view
memory-InRange = record {
  seconds = omega arith;
  nanoseconds = omega arith;
  seed = omega arith;
  pids = memory_pids;
}

run_loop-InRange_example : InRange (view_of after_turn.manager.shm.layout)
run_loop-InRange_example =
    run_loop-InRange events server after_turn start end
      (λ w probe fd o. elim o [ inl (same, p) ↦ rw same tt | inr x ↦ absurd x ])
      (omega arith, manager-IsReady) memory-InRange looped

abbrev gives_three : Kernel
gives_three = record {
  shm_open_fd = pos 3;
  ftruncate_rc = pos 0;
  mmap_mem = some memory;
  errno = 0;
  now = 9;
}

abbrev a_run : Run
a_run = record {
  create_kernel = gives_three;
  attach_kernel = gives_three;
  opened_at = 10;
  listening = record { socket_fd = pos 4; bind_rc = pos 0; listen_rc = pos 0 };
  first_tick = start;
  unlink_rc = pos 0;
}

abbrev first_events : List Event
first_events = polled quiet (some 7) (λ pid. Signal.no_process) start ∷ interrupted ∷ []

abbrev ended : Ended
ended = record {
  status = 0;
  closed_clients = 7 ∷ [];
  calls =
      opened (pos 3)
      ∷ mapped
      ∷ opened (pos 4)
      ∷ unlinked
      ∷ closed (pos 4)
      ∷ unlinked
      ∷ unmapped sizeof_layout
      ∷ closed (pos 3)
      ∷ unlinked
      ∷ [];
}

ran : main_run a_run first_events ≡ some ended
unfolding main_run setup_server_socket run_loop start_server finish_run close_clients open_manager
    close_manager create open_map destroy detach init_layout write_time TimeManager.set_seed
ran = rw (first_turn _ start no_time) refl

main_run-accounts_example : count 7 (7 ∷ []) ≡ count 7 (accepted_in first_events)
main_run-accounts_example = main_run-accounts a_run first_events ended 7 ran refl

main_run-held_example : held (pos 4) ended.calls nothing_held ≡ nothing_held
main_run-held_example = main_run-held (pos 4) a_run first_events ended ran
