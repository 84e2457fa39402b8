-- ===== src/Controller/TimeManager/Held.antt =====
-- What the manager holds of the system: a descriptor and a mapping of the shared memory.
use linbox.Prelude.{
  ℕ, ◌≡◌, ◌⊎◌, refl, sym, ap, ◌∙◌, arith, true, false, Option, none, some, ◌==◌, Bool-cases, inl,
  inr,
}
use mathlib.Core.Path.{subst}
use linbox.Prelude.Int.{ℤ, pos, negsuc, ltb_ℤ, ◌≤ℤ◌}
use linbox.Shm.{Timespec, Layout}
use linbox.Shm.Handle.{
  Kernel, Handle, HasMagic, held, held-append, nothing_held, one_held, create-held, attach-held,
  destroy-held, create, attach, eexist,
}
use linbox.Controller.TimeManager.{
  TimeManager, open_manager, close_manager, tick, set_time, set_seed, blank, start_clock,
}

abbrev pub IsMapped : Option Layout → Type 0
IsMapped none = ⊥
IsMapped (some mem) = Unit

-- The manager holds the descriptor `fd` and a mapping.
abbrev pub Holds : ℤ → TimeManager → Type 0
Holds fd tm = (pos 0 ≤ℤ fd) × IsMapped tm.shm.layout × (tm.shm.fd ≡ fd)

pub tick-Holds :
    (fd : ℤ) (tm tm' : TimeManager) (delta : ℤ) (now : ℕ)
    → Holds fd tm
    → tick tm delta now ≡ some tm'
    → Holds fd tm'
unfolding tick
tick-Holds fd tm tm' delta now h e = ground arith

pub set_time-Holds :
    (fd : ℤ) (tm : TimeManager) (ts : Timespec) (now : ℕ)
    → Holds fd tm
    → Holds fd (set_time tm (some ts) now)
unfolding set_time
set_time-Holds fd tm ts now h = ground arith

pub set_seed-Holds :
    (fd : ℤ) (tm : TimeManager) (seed : ℕ) → Holds fd tm → Holds fd (set_seed tm seed)
unfolding set_seed
set_seed-Holds fd tm seed h = ground arith

started-Holds :
    (h : Handle) (now : ℕ) → pos 0 ≤ℤ h.fd → IsMapped h.layout → Holds h.fd (start_clock h now)
unfolding set_seed
started-Holds h now fd m = ground arith

magic-IsMapped : (o l : Option Layout) → HasMagic o → l ≡ o → IsMapped l
magic-IsMapped none l m e = absurd m
magic-IsMapped (some mem) l m e = rw e tt

pub open_manager-Holds :
    (q : ℤ) (k k' : Kernel) (now : ℕ)
    → let (rc, tm, calls) = open_manager k k' true now in
      ((rc ≡ pos 0) × ((fd : ℤ) × Holds fd tm × (held q calls nothing_held ≡ one_held q fd)))
      ⊎ ((rc ≡ negsuc 0) × (held q calls nothing_held ≡ nothing_held))
unfolding open_manager
open_manager-Holds q k k' now =
    let made = create k true blank.shm in
    let joined = attach k' true made.handle in
    let balance = held-append q made.calls joined.calls nothing_held in
    elim (create-held q k true blank.shm) [
      | inl c ↦
          rw c.0 (inl (refl, (made.handle.fd, started-Holds made.handle now c.3 (rw c.4 tt), c.1)))
      | inr c ↦ elim (Bool-cases (made.errno == eexist)) [
        | inr new ↦ rw (c.0, new) (inr (refl, c.1))
        | inl exists ↦ elim (attach-held q k' true made.handle) [
          | inl a ↦
              let m = magic-IsMapped k'.mmap_mem joined.handle.layout a.5 a.4 in
              rw (c.0, exists, a.0)
                (inl (
                  refl,
                  (joined.handle.fd, started-Holds joined.handle now a.3 m, balance ∙ rw c.1 a.1),
                ))
          | inr a ↦ rw (c.0, exists, a.0) (inr (refl, balance ∙ rw c.1 a.1))
        ]
      ]
    ]

close_mapped :
    (q : ℤ) (tm : TimeManager) (o : Option Layout) (unlink_rc : ℤ)
    → tm.shm.layout ≡ o
    → pos 0 ≤ℤ tm.shm.fd
    → IsMapped o
    → held q (close_manager tm true unlink_rc).1 (one_held q tm.shm.fd) ≡ nothing_held
unfolding close_manager
close_mapped q tm none unlink_rc e fd m = absurd m
close_mapped q tm (some mem) unlink_rc e fd m =
    let given = (destroy-held q tm.shm true unlink_rc mem fd e).0 in
    let n : ltb_ℤ tm.shm.fd (pos 0) ≡ false = ground arith in rw n given

pub close_manager-held :
    (q fd : ℤ) (tm : TimeManager) (unlink_rc : ℤ)
    → Holds fd tm
    → held q (close_manager tm true unlink_rc).1 (one_held q fd) ≡ nothing_held
close_manager-held q fd tm unlink_rc (good, layout, same) =
    ap (λ x. held q (close_manager tm true unlink_rc).1 (one_held q x)) (sym same)
    ∙ close_mapped q tm tm.shm.layout unlink_rc refl (subst (λ x. pos 0 ≤ℤ x) (sym same) good)
        layout
