-- ===== src/Programs/ProcessPreload/Reaps.antt =====
-- What src/shim/process.preload.c does about the controller that it starts, on every path.
use linbox.Prelude.{
  ℕ, ◌≡◌, ◌≢◌, refl, sym, ap, ◌∙◌, Bool, true, false, Option, none, some, List, [], ◌∷◌, ◌++◌,
  if◌then◌else◌, All, Bool-cases, inl, inr, ◌⊎◌,
}
use mathlib.Core.Path.{subst}
use mathlib.Core.Option
use mathlib.Core.Option.{some-injective}
use linbox.Prelude.Int.{pos, ltb_ℤ}
use linbox.Shm.{Timespec}
use linbox.Shim.{State, random_fill}
use linbox.Shim.Clock.{Answer, told, failed, spins}
use linbox.Shim.Random.{from_bytes}
use linbox.Programs.ProcessPreload.{
  Report, report_from, report_size, read_all, Action, close_pipe, before, reap_child, detach_memory,
  give_up, kill_controller, reap_controller, World, verify, receive, receive_at, process_main,
}

abbrev IsOther : Action → Type 0
IsOther action = (action ≢ kill_controller) × (action ≢ reap_controller)

-- The last two steps of a run stop the controller and wait for it, and no earlier one does.
Reaps : ℕ × List Action → Type 0
Reaps (status, actions) =
    (earlier : List Action) × (actions ≡ earlier ++ (kill_controller ∷ reap_controller ∷ []))
    × All IsOther earlier

give_up-Reaps : (status : ℕ) → Reaps (give_up status)
unfolding Reaps
give_up-Reaps status = ([], refl, tt)

before-Reaps : (a : Action) (r : ℕ × List Action) → IsOther a → Reaps r → Reaps (before a r)
unfolding Reaps
before-Reaps a (status, actions) other (earlier, e, others) =
    (a ∷ earlier, ap (λ l. a ∷ l) e, (other, others))

if-Reaps : (b : Bool) (x y : ℕ × List Action) → Reaps x → Reaps y → Reaps (if b then x else y)
if-Reaps true x y rx ry = rx
if-Reaps false x y rx ry = ry

closes : IsOther close_pipe
closes = (λ e. cc, λ e. cc)

verify-Reaps : (w : World) (ts : Timespec) (word : ℕ) (r : Report) → Reaps (verify w ts word r)
unfolding verify
verify-Reaps w ts word r = if-Reaps _ _ _ (give_up-Reaps 18) (
    if-Reaps _ _ _ (give_up-Reaps 19) (
      if-Reaps _ _ _ (give_up-Reaps 20) (
        before-Reaps reap_child _ (λ e. cc, λ e. cc)
          (if-Reaps _ _ _ (give_up-Reaps 17)
            (before-Reaps detach_memory _ (λ e. cc, λ e. cc) (give_up-Reaps 0))))))

receive-Reaps : (w : World) (ts : Timespec) (st : State) → Reaps (receive w ts st)
unfolding receive
receive-Reaps w ts st =
    elim (read_all w.pipe report_size)
      as (λ o. Reaps (elim o [
        | none ↦ give_up 16
        | some report ↦
            before close_pipe
              (verify w ts (from_bytes (random_fill w.boot st 8).0) (report_from report))
      ])) [
        | none ↦ give_up-Reaps 16
        | some report ↦ before-Reaps close_pipe _ closes (verify-Reaps w ts _ _)
      ]

AllReap : Option (ℕ × List Action) → Type 0
AllReap o = (r : ℕ × List Action) → o ≡ some r → Reaps r

some-AllReap : (r : ℕ × List Action) → Reaps r → AllReap (some r)
unfolding AllReap
some-AllReap r reaps r' e = subst Reaps (some-injective _ _ e) reaps

if-AllReap :
    (b : Bool) (x y : Option (ℕ × List Action))
    → AllReap x
    → AllReap y
    → AllReap (if b then x else y)
if-AllReap true x y rx ry = rx
if-AllReap false x y rx ry = ry

receive_at-AllReap :
    (w : World) (a : Answer × State) → AllReap (Option.map (before close_pipe) (receive_at w a))
unfolding receive_at AllReap
receive_at-AllReap w (told ts, st) =
    some-AllReap _ (before-Reaps close_pipe _ closes (receive-Reaps w ts st))
receive_at-AllReap w (failed, st) =
    some-AllReap _ (before-Reaps close_pipe _ closes (give_up-Reaps 14))
receive_at-AllReap w (spins, st) = λ r e. absurd (cc)

runs :
    (w : World)
    → (ltb_ℤ w.ctrl (pos 0) ≡ false → AllReap (process_main w))
      × (ltb_ℤ w.ctrl (pos 0) ≡ true → process_main w ≡ some (10, []))
unfolding process_main
runs w = (
  λ there. rw there (
      if-AllReap _ _ _ (some-AllReap _ (give_up-Reaps 11)) (
        if-AllReap _ _ _ (some-AllReap _ (give_up-Reaps 12))
          (if-AllReap _ _ _ (some-AllReap _ (give_up-Reaps 13)) (receive_at-AllReap w _)))),
  λ missing. rw missing refl,
)

-- A run of the parent that started no controller does nothing about one. Every other run that ends
-- stops the controller and waits for it, as its last two steps and at no earlier step.
pub process_main-Reaps :
    (w : World) (status : ℕ) (actions : List Action)
    → process_main w ≡ some (status, actions)
    → (ltb_ℤ w.ctrl (pos 0) ≡ true) × (status ≡ 10) × (actions ≡ [])
      ⊎ (ltb_ℤ w.ctrl (pos 0) ≡ false)
        × ((earlier : List Action) × (actions ≡ earlier ++ (kill_controller ∷ reap_controller ∷ []))
            × All IsOther earlier)
process_main-Reaps w status actions e =
    let (started, alone) = runs w in
    elim (Bool-cases (ltb_ℤ w.ctrl (pos 0))) [
      | inl missing ↦
          let e' = some-injective _ _ (sym (alone missing) ∙ e) in
          inl (
            missing,
            sym (ap (λ (r : ℕ × List Action). r.0) e'),
            sym (ap (λ (r : ℕ × List Action). r.1) e'),
          )
      | inr there ↦ inr (there, unfold Reaps in unfold AllReap in started there (status, actions) e)
    ]
