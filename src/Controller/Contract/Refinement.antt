-- ===== src/Controller/Contract/Refinement.antt =====
-- The controller carries out its contract.
use linbox.Prelude.{
  ℕ, ◌≡◌, ◌≢◌, refl, sym, ap, ap₂, ◌∙◌, arith, Bool, false, not, ◌&&◌, ◌||◌, Option, none, some,
  List, ◌==◌, if◌then◌else◌, Bool-cases, inl, inr,
}
use mathlib.Core.Path.{fun_ext, subst}
use mathlib.Core.Option.{some-injective}
use native.Mathlib.Decide.{ℕ_discrete}
use linbox.Prelude.Int.{ℤ}
use linbox.Sbp.{Body, hello, ack, set_time, set_seed, register_process, other}
use linbox.Shm.{Timespec, Layout, ProcessSlot, write_time}
use linbox.Controller.Slots
use linbox.Controller.Slots.{register_slots, Signal, is_dead, reap_slots}
use linbox.Controller.Slots.Table.{
  count_pid, register_slots-Registered, register_slots-room, register_slots-zero, reap_slots-count,
  reap_slots-room,
}
use linbox.Controller.TimeManager
use linbox.Controller.TimeManager.{TimeManager, tick, both_defined, ◌>>=◌}
use linbox.Controller.TimeManager.Publish.{IsPublished, Published, tick-IsPublished}
use linbox.Controller.TimeManager.Held.{IsMapped}
use linbox.Controller.Server.{effect, register_client, advance_clock}
use linbox.Controller.Contract.{Sandbox, join, ask, is_member, view, view_of, Advanced}

-- The two parts of the view that registering changes.
abbrev joined : Timespec → ℕ → List ProcessSlot → Sandbox
joined time seed slots = record {
  time = time;
  seed = seed;
  members = is_member slots;
  room = count_pid 0 slots;
}

-- Equal parts, equal views.
same_parts :
    (t : Timespec) (seed m n : ℕ) (f g : ℕ → Bool)
    → ((r : ℕ) → f r ≡ g r)
    → m ≡ n
    → ◌≡◌ {A = Sandbox}
        (record { time = t; seed = seed; members = f; room = m })
        (record { time = t; seed = seed; members = g; room = n })
same_parts t seed m n f g e h =
    ap₂ (λ (x : ℕ → Bool) (y : ℕ). record { time = t; seed = seed; members = x; room = y })
      (fun_ext e) h

-- Whether a pid is in the table after another one registers.
member_after :
    (pid now : ℕ) (slots : List ProcessSlot) (r : ℕ)
    → pid ≢ 0
    → is_member (register_slots pid now slots) r ≡ (
        if count_pid pid slots == 0 && not (count_pid 0 slots == 0)
        then r == pid || is_member slots r
        else is_member slots r)
member_after pid now slots r h =
    let (size, own, others) = register_slots-Registered pid now slots h in
    elim (ℕ_discrete r pid) [
      | yes e ↦ rw e (ground (arith, own))
      | no ne ↦ elim (ℕ_discrete r 0) [
        | yes z ↦ rw z (ground arith)
        | no nz ↦ rw (others r ne nz) (ground arith)
      ]
    ]

join-registered :
    (pid now : ℕ) (t : Timespec) (seed : ℕ) (slots : List ProcessSlot)
    → pid ≢ 0
    → joined t seed (register_slots pid now slots) ≡ join pid (joined t seed slots)
unfolding join
join-registered pid now t seed slots h =
    let room = register_slots-room pid now slots h in
    let z : (pid == 0) ≡ false = ground arith in
    elim (Bool-cases (count_pid pid slots == 0)) [
      | inr known ↦
          rw (z, known)
            (same_parts t seed _ _ _ _ (λ r. member_after pid now slots r h ∙ rw known refl)
              (room ∙ rw known refl))
      | inl new ↦ elim (Bool-cases (count_pid 0 slots == 0)) [
        | inl full ↦
            rw (z, new, full)
              (same_parts t seed _ _ _ _ (λ r. member_after pid now slots r h ∙ rw (new, full) refl)
                (room ∙ rw new (ground arith)))
        | inr free ↦
            rw (z, new, free)
              (same_parts t seed _ _ _ _ (λ r. member_after pid now slots r h ∙ rw (new, free) refl)
                (room ∙ rw new refl))
      ]
    ]

-- A view of what is done under the guard that memory is mapped.
seen_under :
    (tm : TimeManager) (o : Option Layout) (f : Layout → TimeManager) (s : Sandbox)
    → IsMapped o
    → ((mem : Layout) → o ≡ some mem → view_of (f mem).shm.layout ≡ s)
    → let next : TimeManager = elim o [ none ↦ tm | some mem ↦ f mem ] in
      view_of next.shm.layout ≡ s
seen_under tm none f s m h = absurd m
seen_under tm (some mem) f s m h = h mem refl

register-seen :
    (pid : ℕ) (mem : Layout) → view (Slots.register_process pid mem) ≡ join pid (view mem)
unfolding view Slots.register_process
register-seen pid mem = elim (ℕ_discrete pid 0) [
  | no nz ↦
      join-registered pid mem.header.heartbeat_ns mem.virtual_time mem.prng_seed mem.process_slots
        nz
  | yes z ↦
      rw (z, register_slots-zero 0 mem.header.heartbeat_ns mem.process_slots refl)
        (unfold join in refl)
]

-- What a request does to the manager is, to the processes, what it asks for.
pub effect-refines :
    (b : Body) (now : ℕ) (tm : TimeManager)
    → IsMapped tm.shm.layout
    → view_of (effect b now tm).shm.layout ≡ ask b (view_of tm.shm.layout)
unfolding effect ask view register_client write_time TimeManager.set_time TimeManager.set_seed
effect-refines (set_time s n) now tm m = seen_under tm tm.shm.layout _ _ m (λ mem e. rw e refl)
effect-refines (set_seed seed) now tm m = seen_under tm tm.shm.layout _ _ m (λ mem e. rw e refl)
effect-refines (register_process pid slot) now tm m =
    seen_under tm tm.shm.layout _ _ m (λ mem e. rw e (register-seen pid mem))
effect-refines hello now tm m = refl
effect-refines ack now tm m = refl
effect-refines (other kind) now tm m = refl

ticked_under :
    (P : TimeManager → Type 0) (tm tm' : TimeManager) (o : Option Layout) (r : Option Timespec)
    (f : Layout → Timespec → TimeManager)
    → IsMapped o
    → ((mem : Layout) (ts : Timespec) → o ≡ some mem → P (f mem ts))
    → (elim o [ none ↦ some tm | some mem ↦ r >>= λ next. some (f mem next) ]) ≡ some tm'
    → P tm'
ticked_under P tm tm' none r f m k e = absurd m
ticked_under P tm tm' (some mem) none f m k e = cc
ticked_under P tm tm' (some mem) (some ts) f m k e =
    subst P (some-injective (f mem ts) tm' e) (k mem ts refl)

tick-seen :
    (tm tm' : TimeManager) (delta : ℤ) (now : ℕ)
    → IsMapped tm.shm.layout
    → tick tm delta now ≡ some tm'
    → let before = view_of tm.shm.layout in
      IsMapped tm'.shm.layout × (view_of tm'.shm.layout ≡ record before { time = tm'.current })
unfolding tick view write_time TimeManager.set_time
tick-seen tm tm' delta now m e =
    let before = view_of tm.shm.layout in
    ticked_under
      (λ t. IsMapped t.shm.layout × (view_of t.shm.layout ≡ record before { time = t.current })) tm
      tm' tm.shm.layout (TimeManager.ns_add tm.current delta)
      (λ mem ts. TimeManager.set_time tm (some ts) now) m (λ mem ts q. rw q (tt, refl)) e

reaped_member :
    (probe : ℕ → Signal) (slots : List ProcessSlot) (r : ℕ)
    → is_member (reap_slots probe slots) r ≡ (is_member slots r && not (is_dead (probe r)))
reaped_member probe slots r = elim (ℕ_discrete r 0) [
  | yes z ↦ rw z (ground arith)
  | no nz ↦ rw ((reap_slots-count probe slots).1 r nz) (ground arith)
]

pub Published-IsMapped : (tm : TimeManager) (o : Option Layout) → Published tm o → IsMapped o
Published-IsMapped tm none h = h
Published-IsMapped tm (some mem) h = tt

Published-time :
    (tm : TimeManager) (o : Option Layout) → Published tm o → (view_of o).time ≡ tm.current
unfolding view
Published-time tm none h = absurd h
Published-time tm (some mem) h = h.0

reaped_seen :
    (probe : ℕ → Signal) (tm : TimeManager) (o : Option Layout) (ts : Timespec) (before : Sandbox)
    → IsMapped o
    → view_of o ≡ record before { time = ts }
    → let shm = tm.shm in
      let next : TimeManager = elim o [
        | none ↦ tm
        | some mem ↦ record tm {
          shm = record shm { layout = some (Slots.reap_dead_processes probe mem) };
        }
      ] in
      Advanced probe ts before (view_of next.shm.layout)
unfolding view Slots.reap_dead_processes
reaped_seen probe tm none ts before m e = absurd m
reaped_seen probe tm (some mem) ts before m e = (
  ap (λ (s : Sandbox). s.time) e,
  ap (λ (s : Sandbox). s.seed) e,
  λ r.
      reaped_member probe mem.process_slots r
      ∙ ap (λ (s : Sandbox). s.members r && not (is_dead (probe r))) e,
  omega (arith, reap_slots-room probe mem.process_slots, ap (λ (s : Sandbox). s.room) e),
)

-- The end of a turn moves the time that processes see on by the delta, and keeps the seed; those who
-- are dead leave, and nobody else does, and the room does not shrink.
pub advance_clock-refines :
    (probe : ℕ → Signal) (delta : ℤ) (now : ℕ) (tm tm' : TimeManager)
    → IsPublished tm
    → advance_clock probe delta now tm ≡ some tm'
    → (TimeManager.ns_add (view_of tm.shm.layout).time delta ≡ some (view_of tm'.shm.layout).time)
      × Advanced probe
          (view_of tm'.shm.layout).time
          (view_of tm.shm.layout)
          (view_of tm'.shm.layout)
unfolding advance_clock
advance_clock-refines probe delta now tm tm' h e =
    let (next, ticked, rest) = both_defined (tick tm delta now) _ e in
    let (mapped, seen) =
      tick-seen tm next delta now (Published-IsMapped tm tm.shm.layout h) ticked in
    let before = view_of tm.shm.layout in
    let (time, seed, members, room) =
      reaped_seen probe next next.shm.layout next.current before mapped seen in
    let moved = (tick-IsPublished tm next delta now h ticked).1 in
    let same = Published-time tm tm.shm.layout h in
    subst
      (λ (t : TimeManager).
        let after = view_of t.shm.layout in
        (TimeManager.ns_add before.time delta ≡ some after.time)
        × Advanced probe after.time before after)
      (some-injective _ tm' rest)
      (
        ap (λ t. TimeManager.ns_add t delta) same ∙ moved ∙ ap some (sym time),
        (refl, seed, members, room),
      )
