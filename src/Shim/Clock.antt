-- ===== src/Shim/Clock.antt =====
-- src/shim/time.c: what a sandboxed process is told when it asks for the time. Pointers to results
-- are not NULL here, but where a NULL has an effect of its own; the `dlsym` of the C library's
-- functions, which the answers do not depend on, is left out.
pub mod Agreement
pub mod Request
use linbox.Prelude.{
  ℕ, zero, suc, ◌+◌, ◌*◌, ◌/◌, ◌^◌, ◌≤◌, ◌<◌, ◌≡◌, Bool, true, false, ◌||◌, Option, none, some, ltb,
  ◌==◌, if◌then◌else◌,
}
use linbox.Prelude.Int.{ℤ, pos, negsuc, ◌+ℤ◌, ◌*ℤ◌}
use linbox.Shm.{Timespec, Layout, read_time}
use linbox.Controller.TimeManager.{◌>>=◌, int64, quot}
use linbox.Shim.{State, Boot, init_state}

-- How a question for the time ends. `spins` stands for the loop of `linbox_shm_read_time` while
-- the counter in the memory is odd.
pub data Answer : Type 0 where
  told : Timespec → Answer
  failed : Answer
  spins : Answer

-- The memory that the time is read from, if there is any.
unfoldable pub clock_source : Bool → Option Layout → Option Layout
clock_source true layout = layout
clock_source false layout = none

pub told_by : Option Timespec → Answer → Answer
told_by (some ts) other = told ts
told_by none other = other

pub answer_from : Option Layout → Option Timespec → Answer
unfolding told_by
answer_from none real = told_by real failed
answer_from (some mem) real = told_by (read_time mem) spins

-- `linbox_virtual_now`; `real` is what the real clock gives, `none` for an error of it.
pub virtual_now : Boot → Option Timespec → State → Answer × State
virtual_now boot real st0 =
    let st = init_state boot st0 in
    (answer_from (clock_source st.controller_connected st.shm.layout) real, st)

-- CLOCK_REALTIME is 0, CLOCK_MONOTONIC 1, CLOCK_PROCESS_CPUTIME_ID 2, CLOCK_THREAD_CPUTIME_ID 3,
-- CLOCK_MONOTONIC_RAW 4, CLOCK_REALTIME_COARSE 5, CLOCK_MONOTONIC_COARSE 6, CLOCK_BOOTTIME 7.
unfoldable pub is_known_clock : ℕ → Bool
is_known_clock id =
    id == 0 || id == 5 || id == 1 || id == 6 || id == 4 || id == 7 || id == 2 || id == 3

-- `linbox_virtual_clock_gettime`
pub clock_gettime : Boot → Option Timespec → ℕ → State → Answer × State
clock_gettime boot real id st =
    let now = virtual_now boot real st in if is_known_clock id then now else (failed, st)

-- `linbox_virtual_clock_getres`
pub clock_getres : Boot → State → Timespec × State
clock_getres boot st0 = let st = init_state boot st0 in (st.resolution, st)

-- `struct timeval`
pub record Timeval : Type 0 where
  pub tv_sec : ℤ
  pub tv_usec : ℤ

-- What each function makes of the time that it is told: `linbox_virtual_gettimeofday`,
-- `linbox_virtual_time`, `clock` and `times`. `none` is a signed overflow; `hz` is what
-- sysconf(_SC_CLK_TCK) gives, above 0.
abbrev pub timeval_of : Timespec → Timeval
timeval_of ts = record { tv_sec = ts.tv_sec; tv_usec = quot ts.tv_nsec 1000 }

abbrev pub time_of : Timespec → ℤ
time_of ts = ts.tv_sec

pub clock_of : Timespec → Option ℤ
clock_of ts = do
  a ← int64 (ts.tv_sec *ℤ pos 1000000)
  usec ← int64 (a +ℤ quot ts.tv_nsec 1000)
  product ← int64 (usec *ℤ pos 1000000)
  some (quot product 1000000)

pub times_of : ℕ → Timespec → Option ℤ
times_of hz ts = do
  a ← int64 (ts.tv_sec *ℤ pos hz)
  b ← int64 (ts.tv_nsec *ℤ pos hz)
  int64 (a +ℤ quot b 1000000000)

-- `timespec_get`: the base, or 0 for an error; and the time.
pub got_time : ℕ → Answer → ℕ
got_time base (told ts) = base
got_time base _ = 0

pub timespec_get : Boot → Option Timespec → ℕ → State → ℕ × Answer × State
timespec_get boot real base st =
    let (now, st') = virtual_now boot real st in
    if base == 1 then (got_time base now, now, st') else (0, failed, st)
