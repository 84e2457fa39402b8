-- ===== src/Shim/Syscalls.antt =====
-- src/shim/syscall-raw.c, syscall-wrap.c and sigsys.c: system calls past the C library, by a direct
-- `syscall` instruction or by `syscall()`. A `long` is ℤ, and a pointer is the `long` it is passed as.
pub mod Errors
pub mod Trapped
pub mod Endless
pub mod Samples
mod Tests
use linbox.Prelude.{
  ℕ, zero, suc, ◌+◌, ◌-◌, ◌*◌, ◌^◌, ◌<◌, ◌≡◌, Bool, true, false, not, ◌&&◌, ◌||◌, Option, none,
  some, List, [], ◌∷◌, ◌==◌, if◌then◌else◌,
}
use linbox.Prelude.Int.{ℤ, pos, negsuc, ltb_ℤ}
use linbox.Prelude.Words.{unsigned32, unsigned64, signed32, signed64}
use linbox.Shm.{Timespec}
use linbox.Shm.Handle.{is_zero, einval}
use linbox.Shim.{State, Boot, random_fill}
use linbox.Shim.Clock.{
  Answer, told, failed, spins, Timeval, clock_gettime, virtual_now, timeval_of, time_of,
  is_known_clock,
}
use mathlib.Core.Option
use linbox.Shim.Filter.{nr_clock_gettime, nr_gettimeofday, nr_time, nr_getrandom}

-- The registers that a system call reads: its number in `rax`, its arguments in the others.
pub record Registers : Type 0 where
  pub rax : ℤ
  pub rdi : ℤ
  pub rsi : ℤ
  pub rdx : ℤ
  pub r10 : ℤ
  pub r8 : ℤ
  pub r9 : ℤ

-- `linbox_raw_syscall0` to `linbox_raw_syscall6` up to the instruction: the registers that it finds,
-- where `regs` are those before the call.
unfoldable pub raw_syscall0 : Registers → ℤ → Registers
raw_syscall0 regs nr = record regs { rax = nr }

unfoldable pub raw_syscall1 : Registers → ℤ → ℤ → Registers
raw_syscall1 regs nr a1 = record regs { rax = nr; rdi = a1 }

unfoldable pub raw_syscall2 : Registers → ℤ → ℤ → ℤ → Registers
raw_syscall2 regs nr a1 a2 = record regs { rax = nr; rdi = a1; rsi = a2 }

unfoldable pub raw_syscall3 : Registers → ℤ → ℤ → ℤ → ℤ → Registers
raw_syscall3 regs nr a1 a2 a3 = record regs { rax = nr; rdi = a1; rsi = a2; rdx = a3 }

unfoldable pub raw_syscall4 : Registers → ℤ → ℤ → ℤ → ℤ → ℤ → Registers
raw_syscall4 regs nr a1 a2 a3 a4 = record regs { rax = nr; rdi = a1; rsi = a2; rdx = a3; r10 = a4 }

unfoldable pub raw_syscall5 : Registers → ℤ → ℤ → ℤ → ℤ → ℤ → ℤ → Registers
raw_syscall5 regs nr a1 a2 a3 a4 a5 = record regs {
  rax = nr;
  rdi = a1;
  rsi = a2;
  rdx = a3;
  r10 = a4;
  r8 = a5;
}

unfoldable pub raw_syscall6 : Registers → ℤ → ℤ → ℤ → ℤ → ℤ → ℤ → ℤ → Registers
raw_syscall6 regs nr a1 a2 a3 a4 a5 a6 = record regs {
  rax = nr;
  rdi = a1;
  rsi = a2;
  rdx = a3;
  r10 = a4;
  r8 = a5;
  r9 = a6;
}

-- `rc < 0 && rc >= -4095`
abbrev pub is_error : ℤ → Bool
is_error rc = ltb_ℤ rc (pos 0) && not (ltb_ℤ rc (negsuc 4094))

-- -n, for a number
abbrev pub neg_ℕ : ℕ → ℤ
neg_ℕ zero = pos 0
neg_ℕ (suc n) = negsuc n

abbrev pub abs_ℤ : ℤ → ℕ
abs_ℤ (pos n) = n
abs_ℤ (negsuc n) = suc n

-- `linbox_syscall_result`: the return value, and the new errno if it is set.
pub syscall_result : ℤ → ℤ × Option ℕ
syscall_result rc =
    if is_error rc then (negsuc 0, some (abs_ℤ rc)) else (signed32 (unsigned32 rc), none)

-- What a call writes to the caller's memory, with the address.
pub data Written : Type 0 where
  nothing : Written
  timespec_at : ℤ → Timespec → Written
  timeval_at : ℤ → Timeval → Written
  seconds_at : ℤ → ℤ → Written
  bytes_at : ℤ → List ℕ → Written

-- What a call leaves behind: the `long` it returns, errno, what it wrote, and the shim's state.
pub record Outcome : Type 0 where
  pub rc : ℤ
  pub errno : ℕ
  pub written : Written
  pub state : State

-- What the calls depend on: the answers at the start of the shim's state, and the time of the real
-- clock, or the errno that it fails with.
pub record Host : Type 0 where
  pub boot : Boot
  pub real : Option Timespec
  pub real_errno : ℕ

abbrev pub null : ℤ
null = pos 0

-- The end of a call by the answer to the question for the time. `bad` is errno of a failure, and
-- `none` is the loop that never ends.
abbrev answered : ℕ → ℕ → (Timespec → ℤ × Written) → Answer × State → Option Outcome
answered errno bad tell (told ts, st) =
    let (rc, written) = tell ts in
    some (record { rc = rc; errno = errno; written = written; state = st })
answered errno bad tell (failed, st) =
    some (record { rc = negsuc 0; errno = bad; written = nothing; state = st })
answered errno bad tell (spins, st) = none

abbrev pub refused : State → Outcome
refused st = record { rc = negsuc 0; errno = einval; written = nothing; state = st }

-- `linbox_virtual_clock_gettime`; `(clockid_t)a1` is given by its 32 bits.
pub call_clock_gettime : Host → ℕ → ℕ → ℤ → State → Option Outcome
call_clock_gettime h errno clk_id tp st =
    let bad : ℕ = if is_known_clock clk_id then h.real_errno else einval in
    if is_zero tp
    then some (refused st)
    else answered errno bad (λ ts. (pos 0, timespec_at tp ts))
        (clock_gettime h.boot h.real clk_id st)

-- `linbox_virtual_gettimeofday`
unfoldable pub call_gettimeofday : Host → ℕ → ℤ → State → Option Outcome
call_gettimeofday h errno tv st =
    if is_zero tv
    then some (refused st)
    else answered errno h.real_errno (λ ts. (pos 0, timeval_at tv (timeval_of ts)))
        (virtual_now h.boot h.real st)

-- `linbox_virtual_time`
pub call_time : Host → ℕ → ℤ → State → Option Outcome
call_time h errno tloc st =
    answered errno h.real_errno
      (λ ts. (time_of ts, if is_zero tloc then nothing else seconds_at tloc (time_of ts)))
      (virtual_now h.boot h.real st)

-- `linbox_virtual_getrandom`
unfoldable pub call_getrandom : Host → ℕ → ℤ → ℕ → State → Option Outcome
call_getrandom h errno buf buflen st =
    let (bytes, st') = random_fill h.boot st buflen in
    some (record { rc = signed64 buflen; errno = errno; written = bytes_at buf bytes; state = st' })

abbrev pub is_number : ℕ → ℤ → Bool
is_number k (pos n) = n == k
is_number k (negsuc n) = false

-- `linbox_dispatch_syscall` of sigsys.c; `default` is what its call of `linbox_raw_syscall6` comes to,
-- which alone uses the last three arguments.
unfoldable pub dispatch_syscall : Host → ℕ → ℤ → ℤ → ℤ → ℤ → Option Outcome → State → Option Outcome
dispatch_syscall h errno nr a1 a2 a3 default st =
    if is_number nr_clock_gettime nr
    then call_clock_gettime h errno (unsigned32 a1) a2 st
    else if is_number nr_gettimeofday nr
    then call_gettimeofday h errno a1 st
    else if is_number nr_time nr
    then call_time h errno a1 st
    else if is_number nr_getrandom nr
    then call_getrandom h errno a1 (unsigned64 a2) st
    else default

-- `syscall` of syscall-wrap.c, with a switch of its own; `next` is what the C library's function of that name makes of the same arguments.
unfoldable pub syscall_wrapper :
    Host
    → ℕ
    → (ℤ → ℤ → ℤ → ℤ → ℤ → ℤ → ℤ → Option Outcome)
    → ℤ
    → ℤ
    → ℤ
    → ℤ
    → ℤ
    → ℤ
    → ℤ
    → State
    → Option Outcome
syscall_wrapper h errno next number a1 a2 a3 a4 a5 a6 st =
    if is_number nr_clock_gettime number
    then call_clock_gettime h errno (unsigned32 a1) a2 st
    else if is_number nr_gettimeofday number
    then call_gettimeofday h errno a1 st
    else if is_number nr_time number
    then call_time h errno a1 st
    else if is_number nr_getrandom number
    then call_getrandom h errno a1 (unsigned64 a2) st
    else next number a1 a2 a3 a4 a5 a6

-- `siginfo_t`
pub record Siginfo : Type 0 where
  pub si_code : ℕ
  pub si_syscall : ℤ

abbrev pub sys_seccomp : ℕ
sys_seccomp = 1

-- The number that `linbox_sigsys_handler` stores in RAX.
abbrev pub rax_of : Outcome → Outcome
rax_of o = record o { rc = if is_error o.rc then neg_ℕ o.errno else o.rc }

-- `linbox_sigsys_handler` on the context that it is given, `none` for NULL: the context's registers
-- and what the call leaves, or `none` for the loop that never ends. `kernel` answers the calls that
-- the default of the dispatch makes.
pub data Handled : Type 0 where
  ignored : Handled
  returned : Registers → Outcome → Handled

abbrev pub store_rax : Registers → Outcome → Handled
store_rax regs o = returned (record regs { rax = o.rc }) o

pub sigsys_handler :
    Host
    → ℕ
    → (Registers → Option Outcome)
    → Option Siginfo
    → Option Registers
    → State
    → Option Handled
sigsys_handler h errno kernel none context st = some ignored
sigsys_handler h errno kernel (some info) none st = some ignored
sigsys_handler h errno kernel (some info) (some regs) st =
    let rest =
      kernel
        (raw_syscall6 regs info.si_syscall regs.rdi regs.rsi regs.rdx regs.r10 regs.r8 regs.r9) in
    if info.si_code == sys_seccomp
    then Option.map (λ o. store_rax regs (rax_of o))
        (dispatch_syscall h errno info.si_syscall regs.rdi regs.rsi regs.rdx rest st)
    else some ignored

-- `linbox_install_sigsys_handler`, by what `sigaction` gives: the return value, and whether the
-- handler is in place.
unfoldable pub install_sigsys_handler : ℤ → ℤ × Bool
install_sigsys_handler sigaction_rc =
    if is_zero sigaction_rc then (pos 0, true) else (negsuc 0, false)
