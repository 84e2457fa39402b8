-- ===== src/Controller/Main.antt =====
-- src/controller/main.c: `setup_server_socket` and `main`, from the start to the exit. A run is
-- given by what the system answers: `[]` at the end of the events is `g_stop`, set by a signal.
pub mod Cases
mod Tests
pub mod Accounts
pub mod Held
use linbox.Prelude.{
  ℕ, ◌+◌, ◌*◌, ◌≡◌, Bool, true, false, not, ◌||◌, Option, none, some, List, [], ◌∷◌, ◌++◌,
  if◌then◌else◌,
}
use linbox.Prelude.Int.{ℤ, pos, negsuc, ltb_ℤ}
use linbox.Shm.{Timespec}
use linbox.Shm.Handle.{Kernel, Call, opened, closed, unlinked, is_zero}
use linbox.Controller.TimeManager.{TimeManager, open_manager, close_manager, ◌>>=◌}
use linbox.Controller.Slots.{Signal}
use linbox.Controller.Server.{World, Server, turn}

-- LINBOX_SOCK or LINBOX_SHM, as `getenv` gives it, or its default where it is not set or empty.
pub path_or : List ℕ → Option (List ℕ) → List ℕ
path_or default none = default
path_or default (some []) = default
path_or default (some (c ∷ path)) = c ∷ path

-- The answers during `setup_server_socket`.
pub record Listening : Type 0 where
  pub socket_fd : ℤ
  pub bind_rc : ℤ
  pub listen_rc : ℤ

-- `setup_server_socket`: the descriptor or -1, and the calls made.
pub setup_server_socket : Listening → ℤ × List Call
setup_server_socket l =
    if ltb_ℤ l.socket_fd (pos 0)
    then (negsuc 0, [])
    else if not (is_zero l.bind_rc) || not (is_zero l.listen_rc)
    then (negsuc 0, opened l.socket_fd ∷ unlinked ∷ closed l.socket_fd ∷ [])
    else (l.socket_fd, opened l.socket_fd ∷ unlinked ∷ [])

-- What a turn of the loop meets: `poll` fails with EINTR, or otherwise, or it returns; then the
-- rest of the turn is as in Server.
pub data Event : Type 0 where
  interrupted : Event
  poll_failed : Event
  polled : World → Option ℕ → (ℕ → Signal) → Timespec → Event

-- The loop; `none` is the overflow of a tick.
pub run_loop : List Event → Server × Timespec → Option (Server × Timespec)
run_loop [] s = some s
run_loop (interrupted ∷ events) s = run_loop events s
run_loop (poll_failed ∷ events) s = some s
run_loop (polled w accepted probe now ∷ events) s =
    turn w accepted probe now s >>= λ next. run_loop events next

-- The loop behind `while`, which closes the clients that are left.
pub close_clients : Server → Server
close_clients s = record s { clients = []; closed = s.closed ++ s.clients }

-- The exit status, the clients closed, and the calls for what the controller itself holds.
pub record Ended : Type 0 where
  pub status : ℕ
  pub closed_clients : List ℕ
  pub calls : List Call

-- What a run of `main` depends on: the answers when the memory is mapped and when the socket is set
-- up, the time when the loop starts, and what `shm_unlink` gives at the end.
pub record Run : Type 0 where
  pub create_kernel : Kernel
  pub attach_kernel : Kernel
  pub opened_at : ℕ
  pub listening : Listening
  pub first_tick : Timespec
  pub unlink_rc : ℤ

abbrev failed_run : List Call → Ended
failed_run calls = record { status = 1; closed_clients = []; calls = calls }

-- The end of `main`, after the loop.
pub finish_run : Run → List Call → ℤ → Server → Ended
finish_run run calls listen_fd s =
    let s' = close_clients s in
    record {
      status = 0;
      closed_clients = s'.closed;
      calls =
          calls ++ (closed listen_fd ∷ unlinked ∷ (close_manager s'.manager true run.unlink_rc).1);
    }

pub start_server : TimeManager → Server
start_server tm = record { clients = []; manager = tm; closed = [] }

abbrev pub opening : Run → ℤ × TimeManager × List Call
opening run = open_manager run.create_kernel run.attach_kernel true run.opened_at

pub main_run : Run → List Event → Option Ended
main_run run events =
    let (rc, tm, calls) = opening run in
    let (listen_fd, more) = setup_server_socket run.listening in
    if not (is_zero rc)
    then some (failed_run calls)
    else if ltb_ℤ listen_fd (pos 0)
    then some (failed_run (calls ++ (more ++ (close_manager tm true run.unlink_rc).1)))
    else (run_loop events (start_server tm, run.first_tick) >>= λ last.
        some (finish_run run (calls ++ more) listen_fd last.0))
