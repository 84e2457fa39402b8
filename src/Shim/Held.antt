-- ===== src/Shim/Held.antt =====
-- src/shim/linbox.c: the descriptors and the mapping that a process holds for its connection to the
-- controller, from its start over its forks.
use linbox.Prelude.{
  ◌+◌, ◌≡◌, ◌⊎◌, refl, sym, ap, ◌∙◌, arith, true, false, not, ◌&&◌, none, some, List, [], ◌∷◌, ◌++◌,
  if◌then◌else◌, inl, inr,
}
use mathlib.Core.Path.{subst}
use linbox.Prelude.Int.{ℤ, pos, negsuc, ltb_ℤ, ◌≤ℤ◌}
use linbox.Sbp.{hello}
use linbox.Shm.Handle.{
  Kernel, Call, Balance, opened, closed, is_fd, give_fd, give_map, nothing_held, one_held, held,
  held-append, attach, detach, is_zero, open_map, check_magic,
}
use linbox.Controller.TimeManager.Held.{IsMapped}
use linbox.Shim.{
  State, Boot, connect_controller, frame_to_send, is_ack, init_state, reinit_state, seed_state,
  no_handle, initial_state,
}

-- The descriptors that `linbox_connect_controller` opens and closes.
pub connect_calls : Boot → List Call
connect_calls boot =
    let fd = boot.socket_fd in
    let both = opened fd ∷ closed fd ∷ [] in
    if ltb_ℤ fd (pos 0)
    then []
    else if not boot.connects
    then both
    else elim (frame_to_send hello) [
      | none ↦ both
      | some frame ↦ if boot.writes && is_ack boot.received then opened fd ∷ [] else both
    ]

-- The calls of `linbox_init_state` that hold or give back something.
pub init_calls : Boot → State → List Call
init_calls boot st =
    let fd = (connect_controller boot).0 in
    let mapping = attach boot.kernel true st.shm in
    if st.initialized
    then []
    else if ltb_ℤ fd (pos 0)
    then connect_calls boot
    else if is_zero mapping.rc
    then connect_calls boot ++ mapping.calls
    else connect_calls boot ++ (mapping.calls ++ (closed fd ∷ []))

-- The same of `linbox_reinit_state`, up to its call of `linbox_init_state`.
pub leave_calls : State → List Call
leave_calls st =
    let first : List Call =
      if ltb_ℤ st.controller_fd (pos 0) then [] else closed st.controller_fd ∷ [] in
    let second : List Call = if ltb_ℤ st.shm.fd (pos 0) then [] else (detach st.shm).0 in
    first ++ second

abbrev left : State → State
left st = record st {
  controller_fd = negsuc 0;
  controller_connected = false;
  initialized = false;
  prng = record { state = 0 };
  effective_seed = 0;
  shm = no_handle;
}

pub reinit_calls : Boot → State → List Call
reinit_calls boot st = leave_calls st ++ init_calls boot (left st)

-- A process and its forks, the last of them first: the state, and what is held for it of the
-- descriptor `q` and of mappings.
pub after_forks : ℤ → Boot → List Boot → State × Balance
after_forks q boot [] =
    (init_state boot initial_state, held q (init_calls boot initial_state) nothing_held)
after_forks q boot (again ∷ boots) =
    let (st, b) = after_forks q boot boots in
    (reinit_state again st, held q (reinit_calls again st) b)

-- One descriptor more.
abbrev pub with_fd : ℤ → ℤ → Balance → Balance
with_fd q fd b = if is_fd q fd then record b { fds = b.fds + 1 } else b

-- A process that is connected holds the descriptors of the socket and of the memory, and a mapping;
-- one that is not holds nothing.
abbrev pub IsHolding : ℤ → State → Balance → Type 0
IsHolding q st b =
    ((st.controller_connected ≡ true)
      × (pos 0 ≤ℤ st.controller_fd)
      × (pos 0 ≤ℤ st.shm.fd)
      × IsMapped st.shm.layout
      × (b ≡ with_fd q st.controller_fd (one_held q st.shm.fd)))
    ⊎ ((st.controller_connected ≡ false)
        × (ltb_ℤ st.controller_fd (pos 0) ≡ true)
        × (st.shm ≡ no_handle)
        × (b ≡ nothing_held))

leave-held :
    (q : ℤ) (st : State) (b : Balance) → IsHolding q st b → held q (leave_calls st) b ≡ nothing_held
unfolding leave_calls held detach give_fd give_map
leave-held q st b h = ground arith

connect-held :
    (q : ℤ) (boot : Boot)
    → ((pos 0 ≤ℤ (connect_controller boot).0)
        × (held q (connect_calls boot) nothing_held
            ≡ with_fd q (connect_controller boot).0 nothing_held))
      ⊎ (((connect_controller boot).0 ≡ negsuc 0)
          × (held q (connect_calls boot) nothing_held ≡ nothing_held))
unfolding connect_controller connect_calls held give_fd
connect-held q boot = ground arith

attach-fails :
    (k : Kernel)
    → is_zero (attach k true no_handle).rc ≡ false
    → (attach k true no_handle).handle ≡ no_handle
unfolding attach open_map check_magic detach
attach-fails k e = ground arith

attach-balance :
    (q : ℤ) (k : Kernel) (b : Balance)
    → let d = attach k true no_handle in
      ((is_zero d.rc ≡ true)
        × (held q d.calls b ≡ record (with_fd q d.handle.fd b) { maps = b.maps + 1 })
        × (pos 0 ≤ℤ d.handle.fd)
        × IsMapped d.handle.layout)
      ⊎ ((is_zero d.rc ≡ false) × (held q d.calls b ≡ b) × (d.handle ≡ no_handle))
unfolding attach open_map check_magic detach held give_fd give_map
attach-balance q k b = ground arith

not_negative : (x : ℤ) → pos 0 ≤ℤ x → ltb_ℤ x (pos 0) ≡ false
not_negative x h = ground arith

-- The socket is opened first.
both_orders :
    (q fd mem_fd : ℤ)
    → record (with_fd q mem_fd (with_fd q fd nothing_held)) {
      maps = (with_fd q fd nothing_held).maps + 1;
    }
      ≡ with_fd q fd (one_held q mem_fd)
both_orders q fd mem_fd = ground arith

given_fd :
    (q fd : ℤ)
    → (if is_fd q fd then give_fd (with_fd q fd nothing_held) else with_fd q fd nothing_held)
      ≡ nothing_held
unfolding give_fd
given_fd q fd = ground arith

-- The state and the calls where the connection stands.
joined-held :
    (q : ℤ) (boot : Boot) (st : State)
    → st.initialized ≡ false
    → st.shm ≡ no_handle
    → pos 0 ≤ℤ (connect_controller boot).0
    → held q (connect_calls boot) nothing_held ≡ with_fd q (connect_controller boot).0 nothing_held
    → IsHolding q (init_state boot st) (held q (init_calls boot st) nothing_held)
unfolding init_state init_calls seed_state
joined-held q boot st i m good_fd one =
    let fd = (connect_controller boot).0 in
    let n = not_negative fd good_fd in
    let mapping = attach boot.kernel true no_handle in
    elim (attach-balance q boot.kernel (with_fd q fd nothing_held)) [
      | inl (z, two, good, layout) ↦
          rw (i, m, n, z)
            (inl (
              refl,
              good_fd,
              good,
              layout,
              held-append q (connect_calls boot) mapping.calls nothing_held
                  ∙ ap (held q mapping.calls) one
                  ∙ two
                  ∙ both_orders q fd mapping.handle.fd,
            ))
      | inr (z, kept, handle) ↦
          rw (i, m, n, z)
            (inr (
              refl,
              refl,
              handle,
              held-append q (connect_calls boot) (mapping.calls ++ (closed fd ∷ [])) nothing_held
                  ∙ ap (held q (mapping.calls ++ (closed fd ∷ []))) one
                  ∙ held-append q mapping.calls (closed fd ∷ []) _
                  ∙ ap (held q (closed fd ∷ [])) kept
                  ∙ unfold held in given_fd q fd,
            ))
    ]

-- Setting the state up either makes a connection and holds two descriptors and a mapping for it, or
-- makes none and holds nothing, on every path through it.
init-held :
    (q : ℤ) (boot : Boot) (st : State)
    → st.initialized ≡ false
    → st.shm ≡ no_handle
    → IsHolding q (init_state boot st) (held q (init_calls boot st) nothing_held)
unfolding init_state init_calls seed_state
init-held q boot st i m = elim (connect-held q boot) [
  | inl (fd, one) ↦ joined-held q boot st i m fd one
  | inr (fd, none_held) ↦ rw (i, fd) (inr (refl, refl, m, none_held))
]

forked-held :
    (q : ℤ) (again : Boot) (st : State) (b : Balance)
    → IsHolding q st b
    → IsHolding q (reinit_state again st) (held q (reinit_calls again st) b)
unfolding reinit_state reinit_calls
forked-held q again st b h =
    subst (IsHolding q (init_state again (left st)))
      (sym (
        held-append q (leave_calls st) (init_calls again (left st)) b
        ∙ ap (held q (init_calls again (left st))) (leave-held q st b h)))
      (init-held q again (left st) refl refl)

-- From the start of a process on, and over any number of forks, it holds just what its connection
-- needs: the descriptors of its socket and of its memory and a mapping if it is connected, and nothing
-- if it is not; no other descriptor stays open, and none is closed that is not open. The child of a
-- fork gives back what it inherits before it connects again.
pub after_forks-held :
    (q : ℤ) (boots : List Boot) (boot : Boot)
    → let (st, b) = after_forks q boot boots in IsHolding q st b
unfolding after_forks
after_forks-held q [] boot = init-held q boot initial_state refl refl
after_forks-held q (again ∷ boots) boot =
    let (st, b) = after_forks q boot boots in
    forked-held q again st b (after_forks-held q boots boot)
