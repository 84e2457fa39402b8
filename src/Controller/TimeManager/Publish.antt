-- ===== src/Controller/TimeManager/Publish.antt =====
-- What readers of the shared memory see of the time manager.
use linbox.Prelude.{
  ℕ, ◌%◌, ◌≡◌, ◌⊎◌, refl, arith, Bool, true, false, Option, none, some, inl, inr, Bool-cases, ◌==◌,
}
use linbox.Prelude.Int.{ℤ, pos, negsuc}
use linbox.Shm.{Timespec, Layout, init_layout, write_time}
use linbox.Shm.Handle.{Handle, Kernel, HasMagic, create, attach, create-held, attach-held, eexist}
use linbox.Controller.TimeManager.{
  TimeManager, ns_add, tick, set_time, set_seed, blank, start_clock, open_manager, fake_epoch_sec,
}

-- Memory is mapped, it holds the manager's time and seed, and no write of the time is under way.
abbrev pub Published : TimeManager → Option Layout → Type 0
Published tm none = ⊥
Published tm (some mem) =
    (mem.virtual_time ≡ tm.current) × (mem.prng_seed ≡ tm.seed) × (mem.time_seq % 2 ≡ 0)

abbrev pub IsPublished : TimeManager → Type 0
IsPublished tm = Published tm tm.shm.layout

-- A tick that is defined publishes the manager's time plus the delta, and nothing else changes in
-- what readers see.
pub tick-IsPublished :
    (tm tm' : TimeManager) (delta : ℤ) (now : ℕ)
    → IsPublished tm
    → tick tm delta now ≡ some tm'
    → IsPublished tm' × (ns_add tm.current delta ≡ some tm'.current)
unfolding tick write_time
tick-IsPublished tm tm' delta now h e = ground arith

-- So does a command that sets the time, or one that sets none.
pub set_time-IsPublished :
    (tm : TimeManager) (ts : Option Timespec) (now : ℕ)
    → IsPublished tm
    → IsPublished (set_time tm ts now)
unfolding set_time write_time
set_time-IsPublished tm none now h = h
set_time-IsPublished tm (some ts) now h = ground arith

-- A command that sets the seed publishes it and keeps the time.
pub set_seed-IsPublished :
    (tm : TimeManager) (seed : ℕ)
    → IsPublished tm
    → IsPublished (set_seed tm seed)
      × ((set_seed tm seed).seed ≡ seed)
      × ((set_seed tm seed).current ≡ tm.current)
unfolding set_seed
set_seed-IsPublished tm seed h = ground arith

abbrev Starts : TimeManager → Type 0
Starts tm = IsPublished tm × (tm.current.tv_sec ≡ pos fake_epoch_sec) × (tm.seed ≡ 0)

started :
    (h : Handle) (now : ℕ) (mem : Layout)
    → h.layout ≡ some mem
    → mem.time_seq % 2 ≡ 0
    → Starts (start_clock h now)
unfolding set_seed write_time
started h now mem e even = ground arith

abbrev EvenMem : Option Layout → Type 0
EvenMem none = Unit
EvenMem (some mem) = mem.time_seq % 2 ≡ 0

joined-Starts :
    (h : Handle) (now : ℕ) (o : Option Layout)
    → HasMagic o
    → EvenMem o
    → h.layout ≡ o
    → Starts (start_clock h now)
joined-Starts h now none m even e = absurd m
joined-Starts h now (some mem) m even e = started h now mem e even

-- Opening the manager either maps the memory, holds one descriptor and one mapping of it, and
-- publishes the epoch 2025-01-01 and the seed 0; or it fails and holds nothing. So it is whether
-- the memory is created or already there; memory that was there must have an even counter.
pub open_manager-IsPublished :
    (k k' : Kernel) (has_path : Bool) (now : ℕ)
    → EvenMem k'.mmap_mem
    → let (rc, tm, calls) = open_manager k k' has_path now in
      ((rc ≡ pos 0) × IsPublished tm × (tm.current.tv_sec ≡ pos fake_epoch_sec) × (tm.seed ≡ 0))
      ⊎ (rc ≡ negsuc 0)
unfolding open_manager
open_manager-IsPublished k k' false now even = inr refl
open_manager-IsPublished k k' true now even =
    let made = create k true blank.shm in
    let joined = attach k' true made.handle in
    elim (create-held (pos 0) k true blank.shm) [
      | inl c ↦
          let st = started made.handle now (init_layout k.now) c.4 (unfold init_layout in refl) in
          rw c.0 (inl (refl, st.0, st.1, st.2))
      | inr c ↦ elim (Bool-cases (made.errno == eexist)) [
        | inr other ↦ rw (c.0, other) (inr refl)
        | inl exists ↦ elim (attach-held (pos 0) k' true made.handle) [
          | inl a ↦
              let st = joined-Starts joined.handle now k'.mmap_mem a.5 even a.4 in
              rw (c.0, exists, a.0) (inl (refl, st.0, st.1, st.2))
          | inr a ↦ rw (c.0, exists, a.0) (inr refl)
        ]
      ]
    ]
