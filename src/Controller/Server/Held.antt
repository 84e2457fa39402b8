-- ===== src/Controller/Server/Held.antt =====
-- The manager keeps its hold of the memory through every turn.
use linbox.Prelude.{ℕ, ◌≡◌, sym, arith, Bool, Option, none, some, List, inl, inr, length}
use mathlib.Core.Path.{subst}
use mathlib.Core.Option.{some-injective}
use linbox.Prelude.Int.{ℤ}
use linbox.Sbp.{Body, set_time, set_seed, register_process, hello, ack, other}
use linbox.Shm.{Timespec, Layout}
use linbox.Controller.Slots.{Signal, reap_dead_processes}
use linbox.Controller.TimeManager.{TimeManager, tick, both_defined}
use linbox.Controller.TimeManager.Held.{Holds, IsMapped, tick-Holds, set_time-Holds, set_seed-Holds}
use linbox.Controller.Server.{
  World, Server, turn, elapsed, effect, register_client, advance_clock, handle_client_message,
  accept_client,
}
use linbox.Controller.Server.Effects.{handle-manager}
use linbox.Controller.Server.Rounds.{Round, hung_up, broken, served, idle, serve-keeps}
use linbox.Controller.Server.Turn.{accept_client-manager, turn-Ticked, served_turn}

effect-Holds :
    (fd : ℤ) (b : Body) (now : ℕ) (tm : TimeManager) → Holds fd tm → Holds fd (effect b now tm)
unfolding effect register_client
effect-Holds fd (set_time s n) now tm h =
    set_time-Holds fd tm (record { tv_sec = s; tv_nsec = n }) now h
effect-Holds fd (set_seed seed) now tm h = set_seed-Holds fd tm seed h
effect-Holds fd (register_process pid slot) now tm h = ground arith
effect-Holds fd hello now tm h = h
effect-Holds fd ack now tm h = h
effect-Holds fd (other kind) now tm h = h

handle-Holds :
    (fd : ℤ) (received : Option (List ℕ)) (now : ℕ) (write_ok : Bool) (tm : TimeManager)
    → Holds fd tm
    → Holds fd (handle_client_message received now write_ok tm).manager
handle-Holds fd received now write_ok tm h = elim (handle-manager received now write_ok tm) [
  | inl e ↦ rw e h
  | inr (b, e) ↦ rw e (effect-Holds fd b now tm h)
]

Round-Holds :
    (fd : ℤ) (w : World) (i : ℕ) (s : Server) (j : ℕ) (t : Server)
    → Round w i s j t
    → Holds fd s.manager
    → Holds fd t.manager
Round-Holds fd w i s _ _ (hung_up client e f) h = h
Round-Holds fd w i s _ _ (broken client e f r k) h =
    handle-Holds fd (w.received client) w.now (w.write_ok client) s.manager h
Round-Holds fd w i s _ _ (served client e f r k) h =
    handle-Holds fd (w.received client) w.now (w.write_ok client) s.manager h
Round-Holds fd w i s _ _ (idle client e f r) h = h

served_turn-Holds :
    (fd : ℤ) (w : World) (accepted : Option ℕ) (s t : Server)
    → served_turn w accepted s ≡ some t
    → Holds fd s.manager
    → Holds fd t.manager
unfolding served_turn
served_turn-Holds fd w accepted s t ends h =
    let s1 = accept_client accepted s in
    serve-keeps w (λ t. Holds fd t.manager) (λ i a j b round p. Round-Holds fd w i a j b round p)
      (length s1.clients) 0 s1 t ends (subst (Holds fd) (sym (accept_client-manager accepted s)) h)

reaped-Holds :
    (fd : ℤ) (probe : ℕ → Signal) (tm : TimeManager) (o : Option Layout)
    → IsMapped o
    → Holds fd tm
    → let shm = tm.shm in
      let next : TimeManager = elim o [
        | none ↦ tm
        | some mem ↦ record tm {
          shm = record shm { layout = some (reap_dead_processes probe mem) };
        }
      ] in
      Holds fd next
reaped-Holds fd probe tm none m h = absurd m
reaped-Holds fd probe tm (some mem) m h = (h.0, tt, h.2)

advance_clock-Holds :
    (fd : ℤ) (probe : ℕ → Signal) (delta : ℤ) (now : ℕ) (tm tm' : TimeManager)
    → Holds fd tm
    → advance_clock probe delta now tm ≡ some tm'
    → Holds fd tm'
unfolding advance_clock
advance_clock-Holds fd probe delta now tm tm' h e =
    let (next, ticked, rest) = both_defined (tick tm delta now) _ e in
    let good = tick-Holds fd tm next delta now h ticked in
    subst (Holds fd) (some-injective _ tm' rest)
      (reaped-Holds fd probe next next.shm.layout good.1 good)

pub turn-Holds :
    (fd : ℤ) (w : World) (accepted : Option ℕ) (probe : ℕ → Signal) (now last_tick : Timespec)
    (s t : Server) (l : Timespec)
    → turn w accepted probe now (s, last_tick) ≡ some (t, l)
    → Holds fd s.manager
    → Holds fd t.manager
turn-Holds fd w accepted probe now last_tick s t l e h =
    let (s2, ends, (clients, closed, manager)) =
      turn-Ticked w accepted probe now last_tick s t l e in
    let good = served_turn-Holds fd w accepted s s2 ends h in
    elim manager [
      | inl same ↦ rw same good
      | inr (later, ticked) ↦
          advance_clock-Holds fd probe (elapsed now last_tick) w.now s2.manager t.manager good
            ticked
    ]
