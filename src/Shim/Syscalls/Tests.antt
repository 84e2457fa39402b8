-- ===== src/Shim/Syscalls/Tests.antt =====
-- The filter and the system calls that it traps at concrete inputs.
use linbox.Prelude.{ℕ, ◌≡◌, refl, true, false, not, ◌||◌, Option, none, some, if◌then◌else◌}
use mathlib.Core.Option
use mathlib.Core.Option.{some-injective}
use linbox.Prelude.Int.{ℤ, pos, negsuc}
use linbox.Shim.{State, reinit_state}
use linbox.Shim.Samples.{boot, running, manager}
use linbox.Shim.Clock.{virtual_now, is_known_clock}
use linbox.Shim.Filter.{
  run_filter, filter, ret_trap, ret_errno, ret_allow, enosys, is_virtual_call, is_io_uring,
  filter-verdict, nr_time,
}
use linbox.Shim.Syscalls.{
  Registers, Outcome, nothing, seconds_at, raw_syscall1, raw_syscall6, syscall_wrapper, rax_of,
}
use linbox.Shim.Syscalls.Samples.{host, filtered, filtered-IsFiltered}
use linbox.Shim.Syscalls.Trapped.{IsFiltered, raw_syscall6-wrapped, raw_time-published}
use linbox.Shim.Syscalls.Endless.{
  reinit_within, now_within, reinit_within-filtered, now_within-alone,
}

filter-verdict_example :
    run_filter 426 0 0 filter
    ≡ some (
        if is_virtual_call 426
        then ret_trap
        else if is_io_uring 426
        then ret_errno enosys
        else ret_allow)
filter-verdict_example = filter-verdict 426

-- A kernel with the filter, which fails every call that the filter does not trap with ENOSYS.
abbrev refuse : ℕ → State → Registers → Option Outcome
refuse errno st regs =
    some (record { rc = negsuc 37; errno = errno; written = nothing; state = st })

abbrev kernel : ℕ → State → Registers → Option Outcome
kernel = filtered refuse

kernel-IsFiltered : IsFiltered host kernel
kernel-IsFiltered = filtered-IsFiltered refuse

abbrev registers : Registers
registers = record {
  rax = pos 1;
  rdi = pos 2;
  rsi = pos 3;
  rdx = pos 4;
  r10 = pos 5;
  r8 = pos 6;
  r9 = pos 7;
}

abbrev no_next : ℤ → ℤ → ℤ → ℤ → ℤ → ℤ → ℤ → Option Outcome
no_next number a1 a2 a3 a4 a5 a6 = none

raw_syscall6-wrapped_example :
    kernel 9 running
      (raw_syscall6 registers (pos 318) (pos 64) (pos 16) (pos 0) (pos 0) (pos 0) (pos 0))
    ≡ Option.map rax_of (
        syscall_wrapper host 9 no_next
          (pos 318)
          (pos 64)
          (pos 16)
          (pos 0)
          (pos 0)
          (pos 0)
          (pos 0)
          running)
raw_syscall6-wrapped_example =
    raw_syscall6-wrapped host kernel no_next registers 9 318 (pos 64) (pos 16) (pos 0) (pos 0)
      (pos 0) (pos 0) running kernel-IsFiltered refl

known : is_known_clock 1 ≡ true
unfolding is_known_clock
known = refl

raw_time-published_example :
    kernel 9 running (raw_syscall1 registers (pos nr_time) (pos 64))
    ≡ some (record {
      rc = pos 100;
      errno = 9;
      written = seconds_at (pos 64) (pos 100);
      state = running;
    })
raw_time-published_example =
    raw_time-published host kernel registers 9 (pos 64) running manager kernel-IsFiltered refl refl
      refl (refl, refl, refl)

reinit_within-filtered_example :
    (reinit_within 3 true boot running ≡ none)
    × (reinit_within 4 false boot running ≡ some (reinit_state boot running))
reinit_within-filtered_example = reinit_within-filtered 3 boot running

abbrev alone : State
alone = record running { controller_connected = false }

now_within-alone_example :
    now_within 5 true false boot none alone
    ≡ (if false || not true then some (virtual_now boot none alone) else none)
now_within-alone_example = now_within-alone 3 true false boot none alone refl refl
