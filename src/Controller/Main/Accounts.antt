-- ===== src/Controller/Main/Accounts.antt =====
-- The clients of a run: each is closed once, and the server is sound all the time.
use linbox.Prelude.{ℕ, ◌+◌, ◌≡◌, refl, ap, arith, Option, some, List, [], ◌∷◌, ◌++◌}
use mathlib.Core.Option.{some-injective}
use linbox.Shm.{Timespec}
use linbox.Controller.TimeManager.{both_defined, TimeManager}
use linbox.Controller.Server.{Server, turn}
use linbox.Controller.Server.Clients.{count, count-append}
use linbox.Controller.Server.Rounds.{total}
use linbox.Controller.Server.Turn.{accepted_one, turn-total}
use linbox.Controller.Main.Cases.{Ending, no_memory, no_socket, finished, main_run-Ending}
use linbox.Controller.Main.{
  Event, interrupted, poll_failed, polled, run_loop, close_clients, Ended, Run, finish_run,
  main_run, start_server, opening,
}

-- The connections that the loop accepts before it ends.
pub accepted_in : List Event → List ℕ
accepted_in [] = []
accepted_in (interrupted ∷ events) = accepted_in events
accepted_in (poll_failed ∷ events) = []
accepted_in (polled w accepted probe now ∷ events) = accepted_one accepted ++ accepted_in events

same_last :
    (q : ℕ) (s t : Server) (k l : Timespec)
    → ◌≡◌ {A = Option (Server × Timespec)} (some (s, k)) (some (t, l))
    → total q t ≡ total q s + count q []
unfolding count
same_last q s t k l e =
    let same = ap (λ (p : Server × Timespec). total q p.0) (some-injective (s, k) (t, l) e) in
    omega (arith, same)

run_loop-total :
    (q : ℕ) (events : List Event) (s t : Server) (k l : Timespec)
    → run_loop events (s, k) ≡ some (t, l)
    → total q t ≡ total q s + count q (accepted_in events)
unfolding run_loop accepted_in
run_loop-total q [] s t k l e = same_last q s t k l e
run_loop-total q (interrupted ∷ events) s t k l e = run_loop-total q events s t k l e
run_loop-total q (poll_failed ∷ events) s t k l e = same_last q s t k l e
run_loop-total q (polled w accepted probe now ∷ events) s t k l e =
    let (mid, first, rest) = both_defined (turn w accepted probe now (s, k)) _ e in
    omega (
      arith,
      turn-total q w accepted probe now k s mid.0 mid.1 first,
      run_loop-total q events mid.0 t mid.1 l rest,
      count-append q (accepted_one accepted) (accepted_in events),
    )

total-start : (q : ℕ) (tm : TimeManager) → total q (start_server tm) ≡ 0
unfolding total count start_server
total-start q tm = refl

count-close_clients : (q : ℕ) (s : Server) → count q (close_clients s).closed ≡ total q s
unfolding total close_clients
count-close_clients q s = omega (arith, count-append q s.closed s.clients)

accounts :
    (run : Run) (events : List Event) (e : Ended) (q : ℕ)
    → Ending run events e
    → e.status ≡ 0
    → count q e.closed_clients ≡ count q (accepted_in events)
unfolding finish_run
accounts run events _ q (no_memory f) ok = absurd (omega (arith, ok))
accounts run events _ q (no_socket z n) ok = absurd (omega (arith, ok))
accounts run events _ q (finished s l z n looped) ok =
    let tm = (opening run).1 in
    let sum = run_loop-total q events (start_server tm) s run.first_tick l looped in
    omega (arith, count-close_clients q s, sum, total-start q tm)

-- A run of the controller that ends, so without an overflow of the time, and with status 0 has closed
-- each connection just as often as it accepted it.
pub main_run-accounts :
    (run : Run) (events : List Event) (e : Ended) (q : ℕ)
    → main_run run events ≡ some e
    → e.status ≡ 0
    → count q e.closed_clients ≡ count q (accepted_in events)
main_run-accounts run events e q ran ok =
    accounts run events e q (main_run-Ending run events e ran) ok
