-- ===== src/Programs/SeccompHelper/Tests.antt =====
-- A run of src/shim/seccomp-helper.c on a kernel with the filter.
use linbox.Prelude.{
  ℕ, false, ◌+◌, ◌*◌, ◌^◌, ◌≤◌, ◌≡◌, refl, sym, ap, ◌∙◌, arith, bit_or, Option, some, [], ◌∷◌, ◌==◌,
  if◌then◌else◌,
}
use mathlib.Core.Option
use mathlib.Core.Option.{some-injective}
use linbox.Prelude.Bits.Fields.{bit_or_join, bit_or_comm, bit_and_low}
use linbox.Prelude.Int.{pos, negsuc}
use linbox.Prelude.Words.{unsigned32}
use linbox.Shm.{Timespec, Layout}
use linbox.Controller.TimeManager.{TimeManager}
use linbox.Shim.{State}
use linbox.Shim.Samples.{memory, handle, manager, running}
use linbox.Shim.Filter.{run_filter, filter, ret_errno, is_virtual_call, filter-verdict}
use linbox.Shim.Syscalls.{Registers, Outcome, nothing, raw_syscall6}
use linbox.Shim.Syscalls.Samples.{host, filtered, filtered-IsFiltered}
use linbox.Programs.SeccompHelper.{Platform, helper_main}
use linbox.Programs.SeccompHelper.Passes.{Works, told_errno, helper_main-passes}

-- It writes 21 bytes, and fails every other call with ENOSYS.
abbrev bare : ℕ → State → Registers → Option Outcome
bare errno st regs = some (record {
  rc = if unsigned32 regs.rax == 1 then pos 21 else negsuc 37;
  errno = errno;
  written = nothing;
  state = st;
})

abbrev registers : Registers
registers = record {
  rax = pos 1;
  rdi = pos 2;
  rsi = pos 3;
  rdx = pos 4;
  r10 = pos 5;
  r8 = pos 6;
  r9 = pos 7;
}

abbrev platform : Platform
platform = record {
  host = host;
  kernel = filtered bare;
  libc = λ errno st nr a1 a2 a3 a4 a5 a6.
      Option.map told_errno (filtered bare errno st (raw_syscall6 registers nr a1 a2 a3 a4 a5 a6));
  regs = registers;
  ts_inline = pos 64;
  tv = pos 80;
  now = pos 96;
  a = pos 112;
  b = pos 128;
  msg = pos 144;
  loop_ts = pos 176;
  sigaction_rc = pos 0;
  raise_rc = pos 0;
  delivered = 10 ∷ [];
}

-- The number in the verdict is the errno.
errno_in : (err : ℕ) → err ≤ 4095 → ret_errno err ≡ err + 5 * 2 ^ 16
errno_in err h =
    ap (bit_or 0x50000) (bit_and_low 16 err ∙ omega arith)
    ∙ bit_or_comm 0x50000 err
    ∙ bit_or_join 16 err 5 (omega arith)

refused :
    (nr err : ℕ)
    → err ≤ 4095
    → run_filter nr 0 0 filter ≡ some (ret_errno err)
    → (is_virtual_call nr ≡ false) × ((nr == 1) ≡ false) × (err ≡ 38)
refused nr err h e =
    let verdict = some-injective _ _ (sym (filter-verdict nr) ∙ e) ∙ errno_in err h in
    ground (arith, verdict)

abbrev dawn : Timespec
dawn = record { tv_sec = pos 1735689600; tv_nsec = pos 0 }

abbrev morning_memory : Layout
morning_memory = record memory { virtual_time = dawn }

abbrev at_dawn : TimeManager
at_dawn = record manager { shm = record handle { layout = some morning_memory }; current = dawn }

abbrev working : State
working = record running { shm = record handle { layout = some morning_memory } }

platform-Works : Works platform
unfolding raw_syscall6
platform-Works = record {
  filtered = filtered-IsFiltered bare;
  calls = λ errno st nr a1 a2 a3 a4 a5 a6. refl;
  refuses = λ errno err st regs h e.
      let (apart, other, same) = refused (unsigned32 regs.rax) err h e in
      rw (apart, other, same) refl;
  writes = λ errno st. refl;
  handles = refl;
  raised = (refl, refl);
  ts_there = refl;
  tv_there = refl;
  now_there = refl;
  loop_ts_there = refl;
}

helper_main-passes_example : helper_main platform 0 working ≡ some 0
helper_main-passes_example =
    helper_main-passes platform at_dawn 0 working platform-Works (refl, refl, refl) refl
      (record {
        initialized = refl;
        connected = refl;
        shared = refl;
        live = (omega arith, omega arith);
      })
