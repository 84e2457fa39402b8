-- ===== src/Shim/Clock/Agreement.antt =====
-- The clocks of a process agree with the controller's, and what `clock` and `times` compute.
use linbox.Prelude.{
  ℕ, ◌+◌, ◌*◌, ◌/◌, ◌%◌, ◌^◌, ◌≤◌, ◌<◌, ◌≡◌, refl, ap, ◌∙◌, arith, true, false, Option, none, some,
  ltb, ltb→lt, Bool-cases, inl, inr, if◌then◌else◌, ◌==◌,
}
use linbox.Prelude.Int.{pos, ◌+ℤ◌, ◌*ℤ◌}
use linbox.Shm.{Timespec, Layout, read_time}
use linbox.Controller.TimeManager.{TimeManager, int64}
use linbox.Controller.TimeManager.Publish.{Published, IsPublished}
use linbox.Shim.{State, Boot}
use linbox.Shim.Seeds.{init_state_once}
use linbox.Shim.Clock.{
  Answer, told, clock_source, told_by, answer_from, got_time, virtual_now, is_known_clock,
  clock_gettime, clock_of, times_of, timespec_get,
}

pos_mul : (a b : ℕ) → pos a *ℤ pos b ≡ pos (a * b)
unfolding ◌*ℤ◌
pos_mul a b = ground arith

pos_add : (a b : ℕ) → pos a +ℤ pos b ≡ pos (a + b)
unfolding ◌+ℤ◌
pos_add a b = ground arith

int64_pos : (a : ℕ) → a < 2 ^ 63 → int64 (pos a) ≡ some (pos a)
int64_pos a h = ground arith

int64_over : (a : ℕ) → 2 ^ 63 ≤ a → int64 (pos a) ≡ none
int64_over a h = ground arith

-- What the memory of the manager tells.
source_told :
    (tm : TimeManager) (o : Option Layout)
    → Published tm o
    → (mem : Layout) × (o ≡ some mem) × (read_time mem ≡ some tm.current)
unfolding read_time
source_told tm none h = absurd h
source_told tm (some mem) h =
    (mem, refl, let e : (mem.time_seq % 2 == 0) ≡ true = ground arith in rw e (ap some h.0))

pub now_published :
    (boot : Boot) (real : Option Timespec) (st : State) (tm : TimeManager)
    → st.initialized ≡ true
    → st.controller_connected ≡ true
    → st.shm.layout ≡ tm.shm.layout
    → IsPublished tm
    → virtual_now boot real st ≡ (told tm.current, st)
unfolding virtual_now clock_source answer_from told_by
now_published boot real st tm i c same h =
    let (mem, e, reads) = source_told tm tm.shm.layout h in
    ap (λ (s : State). (answer_from (clock_source s.controller_connected s.shm.layout) real, s))
      (init_state_once boot st i)
    ∙ rw (c, same, e, reads) refl

-- A process that shares the memory of a controller is told the controller's time, whichever of
-- the known clocks it asks, and by `timespec_get` too.
pub clock_gettime-published :
    (boot : Boot) (real : Option Timespec) (id : ℕ) (st : State) (tm : TimeManager)
    → st.initialized ≡ true
    → st.controller_connected ≡ true
    → st.shm.layout ≡ tm.shm.layout
    → IsPublished tm
    → is_known_clock id ≡ true
    → (clock_gettime boot real id st ≡ (told tm.current, st))
      × (timespec_get boot real 1 st ≡ (1, told tm.current, st))
unfolding clock_gettime timespec_get
clock_gettime-published boot real id st tm i c same h k =
    let now = now_published boot real st tm i c same h in
    (
      rw (k, now) refl,
      ap (λ (p : Answer × State). (got_time 1 p.0, p.0, p.1)) now ∙ unfold got_time in refl,
    )

ltb-le : {a b : ℕ} → ltb a b ≡ false → b ≤ a
ltb-le e = ground arith

overflows :
    (s n : ℕ)
    → 2 ^ 63 ≤ (s * 1000000 + n / 1000) * 1000000
    → clock_of (record { tv_sec = pos s; tv_nsec = pos n }) ≡ none
unfolding clock_of
overflows s n h =
    let usec = s * 1000000 + n / 1000 in
    rw (pos_mul s 1000000) (elim (Bool-cases (ltb (s * 1000000) (2 ^ 63))) [
      | inr over ↦ rw over refl
      | inl fits ↦
          rw (fits, pos_add (s * 1000000) (n / 1000))
            (elim (Bool-cases (ltb usec (2 ^ 63))) [
              | inr over ↦ rw over refl
              | inl small ↦ rw (small, pos_mul usec 1000000, int64_over (usec * 1000000) h) refl
            ])
    ])

-- For a time from 1970 on with nanoseconds from 0 to 999999999, `clock` gives the microseconds of the
-- time as long as a million times that fits `int64_t`, and overflows from then on: after 9223372036854
-- microseconds, about 107 days.
pub clock_of-range :
    (s n : ℕ)
    → n < 1000000000
    → let usec = s * 1000000 + n / 1000 in
      clock_of (record { tv_sec = pos s; tv_nsec = pos n })
      ≡ (if ltb (usec * 1000000) (2 ^ 63) then some (pos usec) else none)
unfolding clock_of
clock_of-range s n h =
    let usec = s * 1000000 + n / 1000 in
    elim (Bool-cases (ltb (usec * 1000000) (2 ^ 63))) [
      | inr over ↦ rw over (overflows s n (ltb-le over))
      | inl fits ↦
          let small = ltb→lt (usec * 1000000) (2 ^ 63) fits in
          rw
            (
              pos_mul s 1000000,
              int64_pos (s * 1000000) (omega arith),
              pos_add (s * 1000000) (n / 1000),
              int64_pos usec (omega arith),
              pos_mul usec 1000000,
              int64_pos (usec * 1000000) small,
              fits,
            )
            (ap (λ x. some (pos x)) (omega arith))
    ]

-- `times` gives the number of whole ticks in the time, when the products fit.
pub times_of-ticks :
    (hz s n : ℕ)
    → n < 1000000000
    → s * hz + n * hz < 2 ^ 63
    → times_of hz (record { tv_sec = pos s; tv_nsec = pos n })
      ≡ some (pos ((s * 1000000000 + n) * hz / 1000000000))
unfolding times_of
times_of-ticks hz s n h fits =
    rw
      (
        pos_mul s hz,
        int64_pos (s * hz) (omega arith),
        pos_mul n hz,
        int64_pos (n * hz) (omega arith),
        pos_add (s * hz) (n * hz / 1000000000),
        int64_pos (s * hz + n * hz / 1000000000) (omega arith),
      )
      (ap (λ x. some (pos x))
        (let d : (s * 1000000000 + n) * hz ≡ s * hz * 1000000000 + n * hz = grind arith in
          omega arith))
