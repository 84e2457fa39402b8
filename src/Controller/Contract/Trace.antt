-- ===== src/Controller/Contract/Trace.antt =====
-- A run of the loop, as the processes see it, is a sequence of requests and of moves of the time.
use linbox.Prelude.{ℕ, ◌≡◌, refl, sym, Bool, true, Option, some, List, inl, inr, length}
use mathlib.Core.Path.{subst}
use linbox.Prelude.Int.{ℤ, pos, ltb_ℤ}
use linbox.Sbp.{Message, Body}
use linbox.Shm.{Timespec}
use linbox.Controller.TimeManager.{TimeManager, ns_add}
use linbox.Controller.Slots.{Signal}
use linbox.Controller.Server.{World, Server, turn, elapsed, handle_client_message, accept_client}
use linbox.Controller.Server.Effects.{
  IsReady, Reads, handle-Reads, effect-GoodTable, effect-IsPublished,
}
use linbox.Controller.Server.Invariant.{IsSound, turn-IsSound}
use linbox.Controller.Server.Rounds.{Round, hung_up, broken, served, idle, serve-keeps}
use linbox.Controller.Server.Turn.{accept_client-manager, turn-Ticked, served_turn}
use linbox.Controller.Main.{Event, run_loop}
use linbox.Controller.Main.Cases.{Occurs, run_loop-keeps}
use linbox.Controller.Contract.{Sandbox, ask, view_of, Advanced}
use linbox.Controller.Contract.Refinement.{
  effect-refines, advance_clock-refines, Published-IsMapped,
}

abbrev seen : TimeManager → Sandbox
seen tm = view_of tm.shm.layout

-- A request that some client sent in a turn of the events.
abbrev pub Sent : List Event → Body → Type 0
Sent events b =
    (w : World) × (probe : ℕ → Signal) × (fd : ℕ) × (m : Message) × Occurs w probe events
    × Reads (w.received fd) m
    × (m.body ≡ b)

-- What the events may do to the sandbox, one thing after the other: a request that was sent in one
-- of their turns, or that some time passes in one of them, when the dead are found out.
pub data Evolves (events : List Event) (s : Sandbox) : Sandbox → Type 0 where
  still : Evolves events s s
  asked : (t : Sandbox) (b : Body) → Evolves events s t → Sent events b → Evolves events s (ask b t)
  advanced :
      (t u : Sandbox) (w : World) (probe : ℕ → Signal) (delta : ℤ)
      → Evolves events s t
      → Occurs w probe events
      → ltb_ℤ (pos 0) delta ≡ true
      → ns_add t.time delta ≡ some u.time
      → Advanced probe u.time t u
      → Evolves events s u

-- What is kept of the start.
abbrev Follows : List Event → Sandbox → TimeManager → Type 0
Follows es s tm = IsReady tm × Evolves es s (seen tm)

handle-Follows :
    (es : List Event) (s : Sandbox) (w : World) (probe : ℕ → Signal) (fd : ℕ) (now : ℕ)
    (write_ok : Bool) (tm : TimeManager)
    → Occurs w probe es
    → Follows es s tm
    → Follows es s (handle_client_message (w.received fd) now write_ok tm).manager
handle-Follows es s w probe fd now write_ok tm o (ready, h) =
    elim (handle-Reads (w.received fd) now write_ok tm) [
      | inl e ↦ rw e (ready, h)
      | inr (m, reads, e) ↦
          let mapped = Published-IsMapped tm tm.shm.layout ready.0 in
          rw e (
            (effect-IsPublished m.body now tm ready.0, effect-GoodTable m.body now tm ready.1),
            rw (effect-refines m.body now tm mapped)
                (asked (seen tm) m.body h (w, probe, fd, m, o, reads, refl)),
          )
    ]

Round-Follows :
    (es : List Event) (s : Sandbox) (w : World) (probe : ℕ → Signal) (i : ℕ) (a : Server) (j : ℕ)
    (b : Server)
    → Occurs w probe es
    → Round w i a j b
    → Follows es s a.manager
    → Follows es s b.manager
Round-Follows es s w probe i a _ _ o (hung_up fd e f) h = h
Round-Follows es s w probe i a _ _ o (broken fd e f r k) h =
    handle-Follows es s w probe fd w.now (w.write_ok fd) a.manager o h
Round-Follows es s w probe i a _ _ o (served fd e f r k) h =
    handle-Follows es s w probe fd w.now (w.write_ok fd) a.manager o h
Round-Follows es s w probe i a _ _ o (idle fd e f r) h = h

served_turn-Follows :
    (es : List Event) (s : Sandbox) (w : World) (accepted : Option ℕ) (probe : ℕ → Signal)
    (a b : Server)
    → Occurs w probe es
    → served_turn w accepted a ≡ some b
    → Follows es s a.manager
    → Follows es s b.manager
unfolding served_turn
served_turn-Follows es s w accepted probe a b o ends h =
    let a1 = accept_client accepted a in
    serve-keeps w (λ t. Follows es s t.manager)
      (λ i a j b round p. Round-Follows es s w probe i a j b o round p) (length a1.clients) 0 a1 b
      ends (subst (Follows es s) (sym (accept_client-manager accepted a)) h)

turn-Evolves :
    (es : List Event) (s : Sandbox) (w : World) (accepted : Option ℕ) (probe : ℕ → Signal)
    (now last_tick : Timespec) (a b : Server) (l : Timespec)
    → Occurs w probe es
    → turn w accepted probe now (a, last_tick) ≡ some (b, l)
    → Follows es s a.manager
    → Evolves es s (seen b.manager)
turn-Evolves es s w accepted probe now last_tick a b l o e h =
    let (a2, ends, (clients, closed, manager)) =
      turn-Ticked w accepted probe now last_tick a b l e in
    let mid = a2.manager in
    let (ready, soon) = served_turn-Follows es s w accepted probe a a2 o ends h in
    elim manager [
      | inl same ↦ rw same soon
      | inr (later, ticked) ↦
          let (time, moved) =
            advance_clock-refines probe (elapsed now last_tick) w.now mid b.manager ready.0
              ticked in
          advanced (seen mid) (seen b.manager) w probe (elapsed now last_tick) soon o later time
            moved
    ]

-- A run of the loop that comes through its events without an overflow of the time refines the
-- contract: from a sound server on, whatever the clients send and in
-- whatever order, what processes see of the memory comes about by the requests that clients sent,
-- carried out as they ask, and by the passing of time, which takes the dead away.
pub run_loop-Evolves :
    (events : List Event) (a b : Server) (k l : Timespec)
    → IsSound a
    → run_loop events (a, k) ≡ some (b, l)
    → Evolves events (view_of a.manager.shm.layout) (view_of b.manager.shm.layout)
run_loop-Evolves events a b k l h e =
    (run_loop-keeps (λ t. IsSound t × Evolves events (seen a.manager) (seen t.manager)) events
      (λ w accepted probe now j s t m o step good. (
        turn-IsSound w accepted probe now j s t m good.0 step,
        turn-Evolves events (seen a.manager) w accepted probe now j s t m o step (good.0.1, good.1),
      ))
      a b k l e (h, still)).1
