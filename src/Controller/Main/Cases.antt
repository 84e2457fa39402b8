-- ===== src/Controller/Main/Cases.antt =====
-- The three ways in which a run of `main` ends, and what its loop keeps.
use linbox.Prelude.{
  ℕ, ◌≡◌, ◌⊎◌, refl, ap, true, false, Option, some, List, [], ◌∷◌, ◌++◌, Bool-cases, inl, inr,
}
use mathlib.Core.Path.{subst}
use mathlib.Core.Option.{some-injective}
use linbox.Prelude.Int.{pos, ltb_ℤ}
use linbox.Shm.{Timespec}
use linbox.Shm.Handle.{is_zero}
use linbox.Controller.TimeManager.{both_defined, close_manager}
use linbox.Controller.Slots.{Signal}
use linbox.Controller.Server.{World, Server, turn}
use linbox.Controller.Server.Invariant.{IsSound, turn-IsSound}
use linbox.Controller.Main.{
  Event, interrupted, poll_failed, polled, run_loop, Run, Ended, failed_run, finish_run,
  start_server, setup_server_socket, main_run, opening,
}

-- A turn of the loop is among the events.
abbrev pub Occurs : World → (ℕ → Signal) → List Event → Type 0
Occurs w probe [] = ⊥
Occurs w probe (interrupted ∷ events) = Occurs w probe events
Occurs w probe (poll_failed ∷ events) = Occurs w probe events
Occurs w probe (polled w' accepted probe' now ∷ events) =
    ((w ≡ w') × (probe ≡ probe')) ⊎ Occurs w probe events

module _ {ℓ} (P : Server → Type ℓ) (all : List Event)
    (keep : (w : World) (accepted : Option ℕ) (probe : ℕ → Signal) (now k : Timespec) (s t : Server)
        (l : Timespec)
      → Occurs w probe all
      → turn w accepted probe now (s, k) ≡ some (t, l)
      → P s
      → P t) where
  run_loop-steps :
      (events : List Event)
      → ((w : World) (probe : ℕ → Signal) → Occurs w probe events → Occurs w probe all)
      → (s t : Server) (k l : Timespec) → run_loop events (s, k) ≡ some (t, l)
      → P s
      → P t
  unfolding run_loop
  run_loop-steps [] sub s t k l e h =
      subst P (ap (λ (p : Server × Timespec). p.0) (some-injective (s, k) (t, l) e)) h
  run_loop-steps (interrupted ∷ events) sub s t k l e h = run_loop-steps events sub s t k l e h
  run_loop-steps (poll_failed ∷ events) sub s t k l e h =
      subst P (ap (λ (p : Server × Timespec). p.0) (some-injective (s, k) (t, l) e)) h
  run_loop-steps (polled w accepted probe now ∷ events) sub s t k l e h =
      let (mid, first, rest) = both_defined (turn w accepted probe now (s, k)) _ e in
      run_loop-steps events (λ w' probe' o. sub w' probe' (inr o)) mid.0 t mid.1 l rest
        (keep w accepted probe now k s mid.0 mid.1 (sub w probe (inl (refl, refl))) first h)

  -- What every turn of the events keeps, the loop keeps.
  pub run_loop-keeps :
      (s t : Server) (k l : Timespec) → run_loop all (s, k) ≡ some (t, l) → P s → P t
  run_loop-keeps s t k l e h = run_loop-steps all (λ w probe o. o) s t k l e h

-- However long the loop runs, and whatever it meets, the server that it leaves is sound.
pub run_loop-IsSound :
    (events : List Event) (s t : Server) (k l : Timespec)
    → IsSound s
    → run_loop events (s, k) ≡ some (t, l)
    → IsSound t
run_loop-IsSound events s t k l h e =
    run_loop-keeps IsSound events
      (λ w accepted probe now k s t l o step good.
        turn-IsSound w accepted probe now k s t l good step)
      s t k l e h

-- The memory cannot be had; the socket cannot be set up; the loop ends.
pub data Ending (run : Run) (events : List Event) : Ended → Type 0 where
  no_memory : is_zero (opening run).0 ≡ false → Ending run events (failed_run (opening run).2)
  no_socket :
      is_zero (opening run).0 ≡ true
      → ltb_ℤ (setup_server_socket run.listening).0 (pos 0) ≡ true
      → Ending run events (
          failed_run (
            (opening run).2
            ++ ((setup_server_socket run.listening).1
                ++ (close_manager (opening run).1 true run.unlink_rc).1)))
  finished :
      (s : Server) (l : Timespec)
      → is_zero (opening run).0 ≡ true
      → ltb_ℤ (setup_server_socket run.listening).0 (pos 0) ≡ false
      → run_loop events (start_server (opening run).1, run.first_tick) ≡ some (s, l)
      → Ending run events (
          finish_run run
            ((opening run).2 ++ (setup_server_socket run.listening).1)
            (setup_server_socket run.listening).0
            s)

pub main_run-Ending :
    (run : Run) (events : List Event) (e : Ended)
    → main_run run events ≡ some e
    → Ending run events e
unfolding main_run
main_run-Ending run events e ran =
    let (rc, tm, calls) = opening run in
    let (listen_fd, more) = setup_server_socket run.listening in
    elim (Bool-cases (is_zero rc)) [
      | inr f ↦ subst (Ending run events) (some-injective _ e (rw f at ran)) (no_memory f)
      | inl z ↦ elim (Bool-cases (ltb_ℤ listen_fd (pos 0))) [
        | inl n ↦ subst (Ending run events) (some-injective _ e (rw (z, n) at ran)) (no_socket z n)
        | inr n ↦
            let (last, looped, rest) =
              both_defined (run_loop events (start_server tm, run.first_tick)) _
                (rw (z, n) at ran) in
            subst (Ending run events) (some-injective _ e rest) (finished last.0 last.1 z n looped)
      ]
    ]
