-- ===== src/Controller/Main/Held.antt =====
-- What a run of the controller holds of the system: the memory and the socket.
use linbox.Prelude.{
  ◌+◌, ◌≡◌, ◌⊎◌, ap, ◌∙◌, arith, if◌then◌else◌, true, false, some, List, ◌∷◌, ◌++◌, inl, inr,
}
use linbox.Prelude.Int.{ℤ, pos, negsuc, ltb_ℤ, ◌≤ℤ◌}
use linbox.Shm.Handle.{
  Call, Balance, closed, unlinked, is_fd, give_fd, held, held-append, nothing_held, one_held,
  is_zero,
}
use linbox.Controller.TimeManager.{close_manager}
use linbox.Controller.TimeManager.Held.{Holds, open_manager-Holds, close_manager-held}
use linbox.Controller.Server.{Server}
use linbox.Controller.Server.Held.{turn-Holds}
use linbox.Controller.Main.{
  Event, Listening, Run, Ended, setup_server_socket, opening, start_server, finish_run, main_run,
  close_clients,
}
use linbox.Controller.Main.Cases.{
  Ending, no_memory, no_socket, finished, main_run-Ending, run_loop-keeps,
}

-- One descriptor more.
abbrev with_fd : ℤ → ℤ → Balance → Balance
with_fd q fd b = if is_fd q fd then record b { fds = b.fds + 1 } else b

-- Setting up the socket holds one descriptor more, the one returned, or fails and holds none more.
pub setup_server_socket-held :
    (q : ℤ) (l : Listening) (b : Balance)
    → let (fd, calls) = setup_server_socket l in
      ((pos 0 ≤ℤ fd) × (held q calls b ≡ with_fd q fd b)) ⊎ ((fd ≡ negsuc 0) × (held q calls b ≡ b))
unfolding setup_server_socket held give_fd
setup_server_socket-held q l b = ground arith

-- What is held once the memory is mapped, and then the socket is set up.
opening-held :
    (q : ℤ) (run : Run)
    → is_zero (opening run).0 ≡ true
    → (fd : ℤ) × Holds fd (opening run).1 × (held q (opening run).2 nothing_held ≡ one_held q fd)
opening-held q run z =
    elim (open_manager-Holds q run.create_kernel run.attach_kernel run.opened_at) [
      | inl h ↦ h.1
      | inr h ↦ absurd (let z' = rw h.0 at z in cc)
    ]

not_negative : (x : ℤ) → pos 0 ≤ℤ x → ltb_ℤ x (pos 0) ≡ true → ⊥
not_negative x h e = ground arith

socket-held :
    (q fd : ℤ) (l : Listening)
    → ltb_ℤ (setup_server_socket l).0 (pos 0) ≡ false
    → held q (setup_server_socket l).1 (one_held q fd)
      ≡ with_fd q (setup_server_socket l).0 (one_held q fd)
socket-held q fd l n = elim (setup_server_socket-held q l (one_held q fd)) [
  | inl h ↦ h.1
  | inr h ↦ absurd (let n' = rw h.0 at n in cc)
]

no_socket-held :
    (q fd : ℤ) (l : Listening)
    → ltb_ℤ (setup_server_socket l).0 (pos 0) ≡ true
    → held q (setup_server_socket l).1 (one_held q fd) ≡ one_held q fd
no_socket-held q fd l n = elim (setup_server_socket-held q l (one_held q fd)) [
  | inl h ↦ absurd (not_negative (setup_server_socket l).0 h.0 n)
  | inr h ↦ h.1
]

given_fd :
    (q fd listen_fd : ℤ)
    → (if is_fd q listen_fd
        then give_fd (with_fd q listen_fd (one_held q fd))
        else with_fd q listen_fd (one_held q fd))
      ≡ one_held q fd
unfolding give_fd
given_fd q fd listen_fd = ground arith

finish-held :
    (q fd listen_fd : ℤ) (run : Run) (calls : List Call) (s : Server)
    → Holds fd s.manager
    → held q calls nothing_held ≡ with_fd q listen_fd (one_held q fd)
    → held q (finish_run run calls listen_fd s).calls nothing_held ≡ nothing_held
unfolding finish_run close_clients held
finish-held q fd listen_fd run calls s h two =
    held-append q calls
      (closed listen_fd ∷ unlinked ∷ (close_manager s.manager true run.unlink_rc).1) nothing_held
    ∙ rw two (
        ap (held q (close_manager s.manager true run.unlink_rc).1) (given_fd q fd listen_fd)
        ∙ close_manager-held q fd s.manager run.unlink_rc h)

given_back :
    (q : ℤ) (run : Run) (events : List Event) (e : Ended)
    → Ending run events e
    → held q e.calls nothing_held ≡ nothing_held
given_back q run events _ (no_memory f) =
    elim (open_manager-Holds q run.create_kernel run.attach_kernel run.opened_at) [
      | inl h ↦ absurd (let f' = rw h.0 at f in cc)
      | inr h ↦ h.1
    ]
given_back q run events _ (no_socket z n) =
    let (fd, h, one) = opening-held q run z in
    let (_, more) = setup_server_socket run.listening in
    let close = (close_manager (opening run).1 true run.unlink_rc).1 in
    held-append q (opening run).2 (more ++ close) nothing_held
    ∙ rw one (
        held-append q more close (one_held q fd)
        ∙ rw (no_socket-held q fd run.listening n)
            (close_manager-held q fd (opening run).1 run.unlink_rc h))
given_back q run events _ (finished s l z n looped) =
    let (fd, h, one) = opening-held q run z in
    let (listen_fd, more) = setup_server_socket run.listening in
    let kept : Holds fd s.manager =
      run_loop-keeps (λ t. Holds fd t.manager) events
        (λ w accepted probe now k s t l o step good.
          turn-Holds fd w accepted probe now k s t l step good)
        (start_server (opening run).1) s run.first_tick l looped (unfold start_server in h) in
    finish-held q fd listen_fd run ((opening run).2 ++ more) s kept
      (held-append q (opening run).2 more nothing_held ∙ rw one (socket-held q fd run.listening n))

-- However a run of the controller ends, with the loop or before it, as long as no sum of the time
-- overflows, all that it holds of the system for itself is given back: each descriptor, those of the
-- memory and of the socket, is closed as often as it was opened and never without being open, and the
-- mapping is undone once.
pub main_run-held :
    (q : ℤ) (run : Run) (events : List Event) (e : Ended)
    → main_run run events ≡ some e
    → held q e.calls nothing_held ≡ nothing_held
main_run-held q run events e ran = given_back q run events e (main_run-Ending run events e ran)
