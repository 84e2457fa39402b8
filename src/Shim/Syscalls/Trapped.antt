-- ===== src/Shim/Syscalls/Trapped.antt =====
-- A system call made by a direct instruction, which the filter traps and the handler carries out.
use linbox.Prelude.{ℕ, ◌≡◌, refl, ap, ◌∙◌, arith, true, false, Option, none, some, if◌then◌else◌}
use linbox.Prelude.Int.{ℤ, pos}
use linbox.Prelude.Words.{unsigned32, signed32}
use linbox.Shim.{State}
use linbox.Shim.Filter.{
  run_filter, filter, ret_trap, nr_clock_gettime, nr_time, is_virtual_call, filter-verdict,
}
use linbox.Shim.Syscalls.{
  Registers, Outcome, Host, sys_seccomp, Handled, ignored, returned, rax_of, store_rax,
  sigsys_handler, dispatch_syscall, syscall_wrapper, raw_syscall6, raw_syscall2, timespec_at,
  call_clock_gettime, raw_syscall1, seconds_at, nothing, call_time, is_error, neg_ℕ,
}
use linbox.Shm.Handle.{is_zero}
use linbox.Shim.Clock.{told, virtual_now, clock_gettime, is_known_clock}
use linbox.Shim.Clock.Agreement.{clock_gettime-published, now_published}
use linbox.Controller.TimeManager.{TimeManager}
use linbox.Controller.TimeManager.Publish.{IsPublished}
use mathlib.Core.Option

-- What a process finds after its instruction: the outcome, if the handler's context was resumed.
abbrev pub resumed : Option Handled → Option Outcome
resumed none = none
resumed (some ignored) = none
resumed (some (returned regs o)) = some (record o { rc = regs.rax })

-- What seccomp(2) says of a thread with the filter and with the handler for SIGSYS in place:
-- `SECCOMP_RET_TRAP` sends the signal with the call's number and continues with the registers that
-- the handler leaves, and `SECCOMP_RET_ERRNO` makes the call fail. The kernel answers a call by the
-- registers, and leaves errno alone.
pub record IsFiltered (h : Host) (kernel : ℕ → State → Registers → Option Outcome) : Type 0 where
  pub traps :
      (errno : ℕ) (st : State) (regs : Registers)
      → run_filter (unsigned32 regs.rax) 0 0 filter ≡ some ret_trap
      → kernel errno st regs
        ≡ resumed (
            sigsys_handler h errno
              (kernel errno st)
              (some (record { si_code = sys_seccomp; si_syscall = signed32 (unsigned32 regs.rax) }))
              (some regs)
              st)

resumed_rax :
    (regs : Registers) (o : Option Outcome)
    → resumed (Option.map (λ x. store_rax regs (rax_of x)) o) ≡ Option.map rax_of o
resumed_rax regs none = refl
resumed_rax regs (some o) = refl

pub virtual_number :
    (nr : ℕ)
    → is_virtual_call nr ≡ true
    → (unsigned32 (pos nr) ≡ nr) × (signed32 (unsigned32 (pos nr)) ≡ pos nr)
virtual_number nr e = ground arith

-- The two switches agree on the four numbers.
same_switch :
    (h : Host) (errno nr : ℕ) (next : ℤ → ℤ → ℤ → ℤ → ℤ → ℤ → ℤ → Option Outcome)
    (a1 a2 a3 a4 a5 a6 : ℤ) (d : Option Outcome) (st : State)
    → is_virtual_call nr ≡ true
    → dispatch_syscall h errno (pos nr) a1 a2 a3 d st
      ≡ syscall_wrapper h errno next (pos nr) a1 a2 a3 a4 a5 a6 st
unfolding dispatch_syscall syscall_wrapper
same_switch h errno nr next a1 a2 a3 a4 a5 a6 d st e = ground arith

trapped : (nr : ℕ) → is_virtual_call nr ≡ true → run_filter nr 0 0 filter ≡ some ret_trap
trapped nr e = filter-verdict nr ∙ rw e refl

-- A direct instruction for one of the four calls does, under the filter, what the wrapper `syscall`
-- does for the same number and arguments; the handler tells a failure by -errno in RAX.
pub raw_syscall6-wrapped :
    (h : Host) (kernel : ℕ → State → Registers → Option Outcome)
    (next : ℤ → ℤ → ℤ → ℤ → ℤ → ℤ → ℤ → Option Outcome) (regs : Registers) (errno nr : ℕ)
    (a1 a2 a3 a4 a5 a6 : ℤ) (st : State)
    → IsFiltered h kernel
    → is_virtual_call nr ≡ true
    → kernel errno st (raw_syscall6 regs (pos nr) a1 a2 a3 a4 a5 a6)
      ≡ Option.map rax_of (syscall_wrapper h errno next (pos nr) a1 a2 a3 a4 a5 a6 st)
unfolding sigsys_handler raw_syscall6
raw_syscall6-wrapped h kernel next regs errno nr a1 a2 a3 a4 a5 a6 st seccomp e =
    let r = raw_syscall6 regs (pos nr) a1 a2 a3 a4 a5 a6 in
    let (small, same) = virtual_number nr e in
    seccomp.traps errno st r (rw small (trapped nr e))
    ∙ resumed_rax r (
        dispatch_syscall h errno (signed32 (unsigned32 (pos nr))) a1 a2 a3
          (kernel errno st (raw_syscall6 r (signed32 (unsigned32 (pos nr))) a1 a2 a3 a4 a5 a6)) st)
    ∙ ap (Option.map rax_of) (
        rw same (
          same_switch h errno nr next a1 a2 a3 a4 a5 a6
            (kernel errno st (raw_syscall6 r (pos nr) a1 a2 a3 a4 a5 a6)) st e))

spread2 :
    (regs : Registers) (nr a1 a2 : ℤ)
    → raw_syscall2 regs nr a1 a2 ≡ raw_syscall6 regs nr a1 a2 regs.rdx regs.r10 regs.r8 regs.r9
unfolding raw_syscall2 raw_syscall6
spread2 regs nr a1 a2 = refl

known_small : (id : ℕ) → is_known_clock id ≡ true → unsigned32 (pos id) ≡ id
unfolding is_known_clock
known_small id k = ground arith

call-published :
    (h : Host) (errno id : ℕ) (tp : ℤ) (st : State) (tm : TimeManager)
    → is_zero tp ≡ false
    → clock_gettime h.boot h.real id st ≡ (told tm.current, st)
    → call_clock_gettime h errno id tp st
      ≡ some (record { rc = pos 0; errno = errno; written = timespec_at tp tm.current; state = st })
unfolding call_clock_gettime
call-published h errno id tp st tm p now = rw (p, now) refl

-- A process with the filter and its handler, whose state is set up, and that is connected and shares
-- the memory of a controller that has published its time, is told that time by a direct instruction
-- too, whichever of the known clocks it asks, if the pointer is not NULL; the call reports no failure.
pub raw_clock_gettime-published :
    (h : Host) (kernel : ℕ → State → Registers → Option Outcome) (regs : Registers) (errno id : ℕ)
    (tp : ℤ) (st : State) (tm : TimeManager)
    → IsFiltered h kernel
    → is_zero tp ≡ false
    → st.initialized ≡ true
    → st.controller_connected ≡ true
    → st.shm.layout ≡ tm.shm.layout
    → IsPublished tm
    → is_known_clock id ≡ true
    → kernel errno st (raw_syscall2 regs (pos nr_clock_gettime) (pos id) tp)
      ≡ some (record { rc = pos 0; errno = errno; written = timespec_at tp tm.current; state = st })
unfolding syscall_wrapper
raw_clock_gettime-published h kernel regs errno id tp st tm seccomp p i c same good k =
    let now = (clock_gettime-published h.boot h.real id st tm i c same good k).0 in
    ap (kernel errno st) (spread2 regs (pos nr_clock_gettime) (pos id) tp)
    ∙ raw_syscall6-wrapped h kernel (λ n a1 a2 a3 a4 a5 a6. none) regs errno nr_clock_gettime
        (pos id) tp regs.rdx regs.r10 regs.r8 regs.r9 st seccomp refl
    ∙ ap (Option.map rax_of) (
        ap (λ n. call_clock_gettime h errno n tp st) (known_small id k)
        ∙ call-published h errno id tp st tm p now)

spread1 :
    (regs : Registers) (nr a1 : ℤ)
    → raw_syscall1 regs nr a1 ≡ raw_syscall6 regs nr a1 regs.rsi regs.rdx regs.r10 regs.r8 regs.r9
unfolding raw_syscall1 raw_syscall6
spread1 regs nr a1 = refl

time-published :
    (h : Host) (errno : ℕ) (tloc : ℤ) (st : State) (tm : TimeManager)
    → virtual_now h.boot h.real st ≡ (told tm.current, st)
    → call_time h errno tloc st
      ≡ some (record {
        rc = tm.current.tv_sec;
        errno = errno;
        written = if is_zero tloc then nothing else seconds_at tloc tm.current.tv_sec;
        state = st;
      })
unfolding call_time
time-published h errno tloc st tm now = rw now refl

-- In such a process `time` by a direct instruction, the pointer NULL or not, gives the seconds of the
-- time that the controller has published too; but for a time of
-- the last 4095 seconds before 1970 it gives -errno instead, with whatever errno there was.
pub raw_time-published :
    (h : Host) (kernel : ℕ → State → Registers → Option Outcome) (regs : Registers) (errno : ℕ)
    (tloc : ℤ) (st : State) (tm : TimeManager)
    → IsFiltered h kernel
    → st.initialized ≡ true
    → st.controller_connected ≡ true
    → st.shm.layout ≡ tm.shm.layout
    → IsPublished tm
    → let seconds = tm.current.tv_sec in
      kernel errno st (raw_syscall1 regs (pos nr_time) tloc)
      ≡ some (record {
        rc = if is_error seconds then neg_ℕ errno else seconds;
        errno = errno;
        written = if is_zero tloc then nothing else seconds_at tloc seconds;
        state = st;
      })
unfolding syscall_wrapper
raw_time-published h kernel regs errno tloc st tm seccomp i c same good =
    ap (kernel errno st) (spread1 regs (pos nr_time) tloc)
    ∙ raw_syscall6-wrapped h kernel (λ n a1 a2 a3 a4 a5 a6. none) regs errno nr_time tloc regs.rsi
        regs.rdx regs.r10 regs.r8 regs.r9 st seccomp refl
    ∙ ap (Option.map rax_of)
        (time-published h errno tloc st tm (now_published h.boot h.real st tm i c same good))
