-- ===== src/Controller/Server/Turn.antt =====
-- A turn of the loop of `main` in its three parts: the connection, the clients and the clock.
use linbox.Prelude.{
  ℕ, ◌+◌, ◌≡◌, ◌⊎◌, refl, sym, ap, ap₂, ◌∙◌, arith, true, Option, none, some, List, [], ◌∷◌, length,
  ltb, Bool-cases, inl, inr,
}
use mathlib.Core.Path.{subst}
use mathlib.Core.Option.{some-injective}
use linbox.Prelude.Int.{ℤ, pos, ltb_ℤ, ◌+ℤ◌, ◌-ℤ◌, ◌*ℤ◌}
use linbox.Shm.{Timespec, process_slot_count}
use linbox.Controller.TimeManager.{int64, both_defined}
use linbox.Controller.TimeManager.NsAdd.{int64-eq}
use linbox.Controller.Slots.{Signal}
use linbox.Controller.Server.{
  World, Server, accept_client, serve, turn, elapsed, measured, advance_clock,
}
use linbox.Controller.Server.Clients.{count, count-append}
use linbox.Controller.Server.Rounds.{total, serve-total}

-- The server once the clients of a turn are served.
unfoldable pub served_turn : World → Option ℕ → Server → Option Server
served_turn w accepted s = let s1 = accept_client accepted s in serve w (length s1.clients) 0 s1

-- The clock changes the manager only, by `advance_clock`, and only if time has passed.
abbrev pub Ticked : World → (ℕ → Signal) → ℤ → Server → Server → Type 0
Ticked w probe delta s t =
    (t.clients ≡ s.clients)
    × (t.closed ≡ s.closed)
    × ((t.manager ≡ s.manager)
        ⊎ ((ltb_ℤ (pos 0) delta ≡ true)
            × (advance_clock probe delta w.now s.manager ≡ some t.manager)))

Ticked-end :
    (w : World) (probe : ℕ → Signal) (delta : ℤ) (s u t : Server) (k l : Timespec)
    → ◌≡◌ {A = Option (Server × Timespec)} (some (u, k)) (some (t, l))
    → Ticked w probe delta s u
    → Ticked w probe delta s t
Ticked-end w probe delta s u t k l e h =
    subst (λ x. Ticked w probe delta s x)
      (ap (λ (p : Server × Timespec). p.0) (some-injective (u, k) (t, l) e)) h

measured-elapsed :
    (now last_tick : Timespec) (delta : ℤ)
    → measured now last_tick ≡ some delta
    → delta ≡ elapsed now last_tick
unfolding measured elapsed
measured-elapsed now last_tick delta e =
    let (a, ea, e1) = both_defined (int64 (now.tv_sec -ℤ last_tick.tv_sec)) _ e in
    let (b, eb, e2) = both_defined (int64 (a *ℤ pos 1000000000)) _ e1 in
    let (c, ec, e3) = both_defined (int64 (now.tv_nsec -ℤ last_tick.tv_nsec)) _ e2 in
    sym (
      ap (λ (x : ℤ). x *ℤ pos 1000000000 +ℤ (now.tv_nsec -ℤ last_tick.tv_nsec))
        (int64-eq (now.tv_sec -ℤ last_tick.tv_sec) a ea).0
      ∙ ap₂ ◌+ℤ◌ (int64-eq (a *ℤ pos 1000000000) b eb).0
          (int64-eq (now.tv_nsec -ℤ last_tick.tv_nsec) c ec).0
      ∙ (int64-eq (b +ℤ c) delta e3).0)

pub turn-Ticked :
    (w : World) (accepted : Option ℕ) (probe : ℕ → Signal) (now last_tick : Timespec) (s t : Server)
    (l : Timespec)
    → turn w accepted probe now (s, last_tick) ≡ some (t, l)
    → (s2 : Server) × (served_turn w accepted s ≡ some s2)
      × Ticked w probe (elapsed now last_tick) s2 t
unfolding turn served_turn
turn-Ticked w accepted probe now last_tick s t l e =
    let (s2, ends, e1) = both_defined (served_turn w accepted s) _ e in
    let (delta, got, e2) = both_defined (measured now last_tick) _ e1 in
    let ticked : Ticked w probe delta s2 t → Ticked w probe (elapsed now last_tick) s2 t =
      subst (λ d. Ticked w probe d s2 t) (measured-elapsed now last_tick delta got) in
    elim (Bool-cases (ltb_ℤ (pos 0) delta)) [
      | inr still ↦ (
        s2,
        ends,
        ticked
            (Ticked-end w probe delta s2 s2 t last_tick l (rw still at e2) (refl, refl, inl refl)),
      )
      | inl later ↦
          let (tm, advanced, rest) =
            both_defined (advance_clock probe delta w.now s2.manager) _ (rw later at e2) in
          (
            s2,
            ends,
            ticked (
                Ticked-end w probe delta s2 (record s2 { manager = tm }) t now l rest
                  (refl, refl, inr (later, advanced))),
          )
    ]

-- The descriptor of a new connection, if there is one.
abbrev pub accepted_one : Option ℕ → List ℕ
accepted_one none = []
accepted_one (some fd) = fd ∷ []

pub accept_client-manager :
    (accepted : Option ℕ) (s : Server) → (accept_client accepted s).manager ≡ s.manager
unfolding accept_client
accept_client-manager none s = refl
accept_client-manager (some fd) s = ground arith

accept-total :
    (q : ℕ) (accepted : Option ℕ) (s : Server)
    → total q (accept_client accepted s) ≡ total q s + count q (accepted_one accepted)
unfolding accept_client total count
accept-total q none s = omega arith
accept-total q (some fd) s = elim (Bool-cases (ltb (length s.clients) process_slot_count)) [
  | inl room ↦ rw room (omega (arith, count-append q s.clients (fd ∷ [])))
  | inr full ↦ rw full (omega (arith, count-append q s.closed (fd ∷ [])))
]

served_turn-total :
    (q : ℕ) (w : World) (accepted : Option ℕ) (s t : Server)
    → served_turn w accepted s ≡ some t
    → total q t ≡ total q s + count q (accepted_one accepted)
unfolding served_turn
served_turn-total q w accepted s t ends =
    let s1 = accept_client accepted s in
    serve-total w q (length s1.clients) 0 s1 t ends ∙ accept-total q accepted s

same_total :
    (q : ℕ) (s t : Server) → t.clients ≡ s.clients → t.closed ≡ s.closed → total q t ≡ total q s
unfolding total
same_total q s t clients closed = ap₂ (λ (a b : List ℕ). count q a + count q b) clients closed

-- In a turn the descriptors that are kept or closed grow by the one that is accepted.
pub turn-total :
    (q : ℕ) (w : World) (accepted : Option ℕ) (probe : ℕ → Signal) (now last_tick : Timespec)
    (s t : Server) (l : Timespec)
    → turn w accepted probe now (s, last_tick) ≡ some (t, l)
    → total q t ≡ total q s + count q (accepted_one accepted)
turn-total q w accepted probe now last_tick s t l e =
    let (s2, ends, (clients, closed, manager)) =
      turn-Ticked w accepted probe now last_tick s t l e in
    same_total q s2 t clients closed ∙ served_turn-total q w accepted s s2 ends
