-- ===== src/Programs/SeccompHelper.antt =====
-- src/shim/seccomp-helper.c: a program that makes the calls that the filter traps, by `syscall` and
-- by direct instructions, and checks what it gets. `none` is a run that does not end.
pub mod Passes
mod Tests
use linbox.Prelude.{
  ℕ, zero, suc, ◌+◌, ◌≡◌, Bool, true, false, not, ◌&&◌, ◌||◌, Option, none, some, List, [], ◌∷◌,
  ◌==◌, if◌then◌else◌,
}
use linbox.Prelude.Int.{ℤ, pos, negsuc}
use linbox.Prelude.Words.{unsigned64}
use linbox.Shm.Handle.{is_zero}
use linbox.Controller.TimeManager.{◌>>=◌}
use linbox.Shim.{State}
use linbox.Shim.Environment.{same_bytes}
use linbox.Shim.Filter.{
  nr_clock_gettime, nr_gettimeofday, nr_time, nr_getrandom, nr_io_uring_setup, enosys,
}
use linbox.Shim.Syscalls.{
  Registers, Outcome, Host, Written, nothing, timespec_at, timeval_at, seconds_at, bytes_at,
  raw_syscall2, raw_syscall3, syscall_wrapper,
}

-- What the program runs on: the shim, the kernel, the C library's `syscall`, the registers before an
-- instruction; the addresses of its variables; and what `sigaction` and `raise` give, with the
-- signals that the latter delivers.
pub record Platform : Type 0 where
  pub host : Host
  pub kernel : ℕ → State → Registers → Option Outcome
  pub libc : ℕ → State → ℤ → ℤ → ℤ → ℤ → ℤ → ℤ → ℤ → Option Outcome
  pub regs : Registers
  pub ts_inline : ℤ
  pub tv : ℤ
  pub now : ℤ
  pub a : ℤ
  pub b : ℤ
  pub msg : ℤ
  pub loop_ts : ℤ
  pub sigaction_rc : ℤ
  pub raise_rc : ℤ
  pub delivered : List ℕ

abbrev pub sigusr1 : ℕ
sigusr1 = 10

-- `usr1_handler` on `g_usr1_count`
pub usr1_handler : ℕ → ℕ → ℕ
usr1_handler signo count = if signo == sigusr1 then count + 1 else count

-- The count after the signals.
pub usr1_count : List ℕ → ℕ → ℕ
usr1_count [] count = count
usr1_count (signo ∷ signals) count = usr1_count signals (usr1_handler signo count)

pub inline_syscall2 : Platform → ℕ → State → ℤ → ℤ → ℤ → Option Outcome
inline_syscall2 p errno st nr a1 a2 = p.kernel errno st (raw_syscall2 p.regs nr a1 a2)

pub inline_syscall3 : Platform → ℕ → State → ℤ → ℤ → ℤ → ℤ → Option Outcome
inline_syscall3 p errno st nr a1 a2 a3 = p.kernel errno st (raw_syscall3 p.regs nr a1 a2 a3)

-- `syscall`, which the shim has in place of the C library's.
abbrev syscall : Platform → ℕ → State → ℤ → ℤ → ℤ → ℤ → Option Outcome
syscall p errno st nr a1 a2 a3 =
    syscall_wrapper p.host errno (p.libc errno st) nr a1 a2 a3 (pos 0) (pos 0) (pos 0) st

-- The seconds in a variable that was 0 before the call, and the bytes in a buffer.
abbrev pub seconds_in : Written → ℤ
seconds_in (timespec_at _ ts) = ts.tv_sec
seconds_in (timeval_at _ tv) = tv.tv_sec
seconds_in (seconds_at _ s) = s
seconds_in _ = pos 0

abbrev pub bytes_in : Written → List ℕ
bytes_in (bytes_at _ bytes) = bytes
bytes_in _ = []

abbrev pub fake_epoch : ℕ
fake_epoch = 1735689600

-- Whether a number is that one, as `uint64_t` and as `long`.
abbrev pub is_u64 : ℕ → ℤ → Bool
is_u64 n z = unsigned64 z == n

abbrev pub is_long : ℕ → ℤ → Bool
is_long n (pos m) = m == n
is_long n (negsuc m) = false

-- A step of `main` goes on with errno and the state of the shim, or ends the program.
abbrev pub Rest : Type 0
Rest = ℕ → State → Option ℕ

pub check_clock_gettime : Platform → Rest → Rest
check_clock_gettime p rest errno st =
    inline_syscall2 p errno st (pos nr_clock_gettime) (pos 0) p.ts_inline >>= λ o.
    if not (is_zero o.rc)
    then some 2
    else if not (is_u64 fake_epoch (seconds_in o.written))
    then some 3
    else rest o.errno o.state

pub check_gettimeofday : Platform → Rest → Rest
check_gettimeofday p rest errno st =
    syscall p errno st (pos nr_gettimeofday) p.tv (pos 0) (pos 0) >>= λ o.
    if not (is_zero o.rc)
    then some 4
    else if not (is_u64 fake_epoch (seconds_in o.written))
    then some 5
    else rest o.errno o.state

pub check_time : Platform → Rest → Rest
check_time p rest errno st = inline_syscall2 p errno st (pos nr_time) p.now (pos 0) >>= λ o.
    if not (is_long fake_epoch o.rc) || not (is_long fake_epoch (seconds_in o.written))
    then some 6
    else rest o.errno o.state

-- The two draws, which are to differ.
pub check_getrandom : Platform → Rest → Rest
check_getrandom p rest errno st =
    inline_syscall3 p errno st (pos nr_getrandom) p.a (pos 16) (pos 0) >>= λ o.
    let second = syscall p o.errno o.state (pos nr_getrandom) p.b (pos 16) (pos 0) >>= λ o'.
    if not (is_long 16 o'.rc)
    then some 8
    else if same_bytes (bytes_in o.written) (bytes_in o'.written)
    then some 9
    else rest o'.errno o'.state in
    if not (is_long 16 o.rc) then some 7 else second

-- The number of `write`, and STDOUT_FILENO
abbrev pub nr_write : ℕ
nr_write = 1

abbrev pub msg_size : ℕ
msg_size = 21

pub check_write : Platform → Rest → Rest
check_write p rest errno st =
    syscall p errno st (pos nr_write) (pos 1) p.msg (pos msg_size) >>= λ o.
    if not (is_long msg_size o.rc) then some 10 else rest o.errno o.state

pub check_signal : Platform → Rest → Rest
check_signal p rest errno st =
    if not (is_zero p.raise_rc) || not (usr1_count p.delivered 0 == 1)
    then some 11
    else rest errno st

abbrev is_minus_one : ℤ → Bool
is_minus_one (negsuc n) = n == 0
is_minus_one (pos n) = false

pub check_io_uring : Platform → Rest → Rest
check_io_uring p rest errno st =
    syscall p 0 st (pos nr_io_uring_setup) (pos 1) (pos 0) (pos 0) >>= λ o.
    if not (is_minus_one o.rc) || not (o.errno == enosys) then some 14 else rest o.errno o.state

-- The loop at the end of `main`, for so many more rounds.
pub stress : Platform → ℕ → Rest
stress p zero errno st = some 0
stress p (suc rounds) errno st =
    inline_syscall2 p errno st (pos nr_clock_gettime) (pos 0) p.loop_ts >>= λ o.
    let again = stress p rounds o.errno o.state in
    if not (is_zero o.rc) || not (is_long fake_epoch (seconds_in o.written)) then some 15 else again

-- `main`, up to its messages: the exit status.
pub helper_main : Platform → Rest
helper_main p errno st =
    if not (is_zero p.sigaction_rc)
    then some 1
    else check_clock_gettime p
        (check_gettimeofday p (
          check_time p (
            check_getrandom p
              (check_write p (check_signal p (check_io_uring p (stress p 10000)))))))
        errno st
