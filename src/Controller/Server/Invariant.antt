-- ===== src/Controller/Server/Invariant.antt =====
-- What every turn of the loop of `main` keeps.
use linbox.Prelude.{
  ℕ, ◌≤◌, ◌≡◌, ap, ◌∙◌, arith, Bool, Option, none, some, List, [], ◌∷◌, ltb, ltb→lt, length, inl,
  inr, length-append, Bool-cases,
}
use mathlib.Core.Path.{subst}
use mathlib.Core.Option.{some-injective}
use linbox.Prelude.Int.{ℤ, pos, ltb_ℤ}
use linbox.Shm.{Timespec, Layout, process_slot_count, write_time}
use linbox.Controller.TimeManager
use linbox.Controller.TimeManager.{TimeManager, tick, ◌>>=◌, both_defined}
use linbox.Controller.TimeManager.Publish.{Published, tick-IsPublished}
use linbox.Controller.Slots
use linbox.Controller.Slots.{Signal, register_slots, reap_slots, reap_dead_processes}
use linbox.Controller.Slots.Table.{IsTable-kept, reap_slots-count}
use linbox.Controller.Server.{
  World, Server, handle_client_message, serve, accept_client, measured, advance_clock, turn,
}
use linbox.Controller.Server.Clients.{length-remove_client}
use linbox.Controller.Server.Rounds.{Round, hung_up, broken, served, idle, serve-keeps}
use linbox.Controller.Server.Effects.{
  GoodTable, IsReady, handle-manager, under_guard, effect-GoodTable, effect-IsPublished,
}

-- Whatever a client sends, and however the reply to it ends, the manager stays in order.
pub handle_client_message-IsReady :
    (received : Option (List ℕ)) (now : ℕ) (write_ok : Bool) (tm : TimeManager)
    → IsReady tm
    → IsReady (handle_client_message received now write_ok tm).manager
handle_client_message-IsReady received now write_ok tm (p, h) =
    elim (handle-manager received now write_ok tm) [
      | inl e ↦ rw e (p, h)
      | inr (b, e) ↦ rw e (effect-IsPublished b now tm p, effect-GoodTable b now tm h)
    ]

Round-IsReady :
    (w : World) (i : ℕ) (s : Server) (j : ℕ) (t : Server)
    → Round w i s j t
    → IsReady s.manager
    → IsReady t.manager
Round-IsReady w i s _ _ (hung_up fd e f) h = h
Round-IsReady w i s _ _ (broken fd e f r k) h =
    handle_client_message-IsReady (w.received fd) w.now (w.write_ok fd) s.manager h
Round-IsReady w i s _ _ (served fd e f r k) h =
    handle_client_message-IsReady (w.received fd) w.now (w.write_ok fd) s.manager h
Round-IsReady w i s _ _ (idle fd e f r) h = h

Round-bound :
    (w : World) (n i : ℕ) (s : Server) (j : ℕ) (t : Server)
    → Round w i s j t
    → length s.clients ≤ n
    → length t.clients ≤ n
Round-bound w n i s _ _ (hung_up fd e f) h = omega (arith, length-remove_client i fd s.clients e)
Round-bound w n i s _ _ (broken fd e f r k) h = omega (arith, length-remove_client i fd s.clients e)
Round-bound w n i s _ _ (served fd e f r k) h = h
Round-bound w n i s _ _ (idle fd e f r) h = h

-- The clients fit their array, and the manager is in order.
abbrev pub IsSound : Server → Type 0
IsSound s = (length s.clients ≤ process_slot_count) × IsReady s.manager

serve-IsSound :
    (w : World) (fuel i : ℕ) (s t : Server) → serve w fuel i s ≡ some t → IsSound s → IsSound t
serve-IsSound w fuel i s t ends h =
    serve-keeps w IsSound
      (λ i a j b round p.
        (Round-bound w process_slot_count i a j b round p.0, Round-IsReady w i a j b round p.1))
      fuel i s t ends h

accept_client-IsSound : (fd : Option ℕ) (s : Server) → IsSound s → IsSound (accept_client fd s)
unfolding accept_client
accept_client-IsSound none s h = h
accept_client-IsSound (some fd) s h =
    elim (Bool-cases (ltb (length s.clients) process_slot_count)) [
      | inl room ↦ rw room (
        omega (
          arith,
          length-append s.clients (fd ∷ []),
          ltb→lt (length s.clients) process_slot_count room,
        ),
        h.1,
      )
      | inr full ↦ rw full h
    ]

ticked_table :
    (tm tm' : TimeManager) (o : Option Layout) (r : Option Timespec)
    (f : Layout → Timespec → TimeManager)
    → GoodTable o
    → ((mem : Layout) (ts : Timespec) → GoodTable (some mem) → GoodTable (f mem ts).shm.layout)
    → (elim o [ none ↦ some tm | some mem ↦ r >>= λ next. some (f mem next) ]) ≡ some tm'
    → GoodTable tm'.shm.layout
ticked_table tm tm' none r f h k e = absurd h
ticked_table tm tm' (some mem) none f h k e = cc
ticked_table tm tm' (some mem) (some ts) f h k e =
    subst (λ t. GoodTable t.shm.layout) (some-injective (f mem ts) tm' e) (k mem ts h)

tick-GoodTable :
    (tm tm' : TimeManager) (delta : ℤ) (now : ℕ)
    → GoodTable tm.shm.layout
    → tick tm delta now ≡ some tm'
    → GoodTable tm'.shm.layout
unfolding tick write_time TimeManager.set_time
tick-GoodTable tm tm' delta now h e =
    ticked_table tm tm' tm.shm.layout (TimeManager.ns_add tm.current delta)
      (λ mem ts. TimeManager.set_time tm (some ts) now) h
      (λ mem ts good. under_guard tm tm.shm.layout _ h (λ m g. g)) e

reaped-IsReady :
    (probe : ℕ → Signal) (tm : TimeManager) (o : Option Layout)
    → Published tm o
    → GoodTable o
    → let shm = tm.shm in
      let next : TimeManager = elim o [
        | none ↦ tm
        | some mem ↦ record tm {
          shm = record shm { layout = some (reap_dead_processes probe mem) };
        }
      ] in
      IsReady next
unfolding Slots.reap_dead_processes
reaped-IsReady probe tm none p h = absurd h
reaped-IsReady probe tm (some mem) p h = (
  p,
  (
    (reap_slots-count probe mem.process_slots).0 ∙ h.0,
    (IsTable-kept 0 0 probe mem.process_slots h.1).1,
  ),
)

advance_clock-IsReady :
    (probe : ℕ → Signal) (delta : ℤ) (now : ℕ) (tm tm' : TimeManager)
    → IsReady tm
    → advance_clock probe delta now tm ≡ some tm'
    → IsReady tm'
unfolding advance_clock
advance_clock-IsReady probe delta now tm tm' (p, h) e =
    let (next, ticked, rest) = both_defined (tick tm delta now) _ e in
    let published = (tick-IsPublished tm next delta now p ticked).0 in
    let table = tick-GoodTable tm next delta now h ticked in
    subst IsReady (some-injective _ tm' rest)
      (reaped-IsReady probe next next.shm.layout published table)

same_server :
    (s t : Server) (k l : Timespec)
    → ◌≡◌ {A = Option (Server × Timespec)} (some (s, k)) (some (t, l))
    → IsSound s
    → IsSound t
same_server s t k l e h =
    subst IsSound (ap (λ (p : Server × Timespec). p.0) (some-injective (s, k) (t, l) e)) h

-- A turn of the loop of a sound server, whatever the clients send and whoever connects, hangs up or dies, keeps at
-- most 64 clients and the manager in order, unless the time overflows.
pub turn-IsSound :
    (w : World) (accepted : Option ℕ) (probe : ℕ → Signal) (now last_tick : Timespec) (s t : Server)
    (l : Timespec)
    → IsSound s
    → turn w accepted probe now (s, last_tick) ≡ some (t, l)
    → IsSound t
unfolding turn
turn-IsSound w accepted probe now last_tick s t l h e =
    let s1 = accept_client accepted s in
    let (s2, ends, e1) = both_defined (serve w (length s1.clients) 0 s1) _ e in
    let (delta, got, e2) = both_defined (measured now last_tick) _ e1 in
    let good =
      serve-IsSound w (length s1.clients) 0 s1 s2 ends (accept_client-IsSound accepted s h) in
    elim (Bool-cases (ltb_ℤ (pos 0) delta)) [
      | inr still ↦ same_server s2 t last_tick l (rw still at e2) good
      | inl later ↦
          let (tm, advanced, rest) =
            both_defined (advance_clock probe delta w.now s2.manager) _ (rw later at e2) in
          same_server (record s2 { manager = tm }) t now l rest
            (good.0, advance_clock-IsReady probe delta w.now s2.manager tm good.1 advanced)
    ]
