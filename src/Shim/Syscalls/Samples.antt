-- ===== src/Shim/Syscalls/Samples.antt =====
-- Kernels with the filter of src/shim/seccomp.c and the handler of sigsys.c, for the tests.
use linbox.Prelude.{
  ℕ, ◌≡◌, refl, sym, ap, ◌∙◌, arith, true, Option, none, some, if◌then◌else◌, ltb, ◌^◌,
}
use mathlib.Core.Option
use mathlib.Core.Option.{some-injective}
use linbox.Prelude.Words.{unsigned32, signed32}
use linbox.Prelude.Int.{ℤ, pos}
use linbox.Shim.{State}
use linbox.Shim.Samples.{boot}
use linbox.Shim.Filter.{run_filter, filter, ret_trap, is_virtual_call, filter-verdict}
use linbox.Shim.Syscalls.{
  Registers, Outcome, Host, Siginfo, dispatch_syscall, sys_seccomp, sigsys_handler, rax_of,
  store_rax,
}
use linbox.Shim.Syscalls.Trapped.{resumed, IsFiltered}

abbrev pub host : Host
host = record { boot = boot; real = none; real_errno = 22 }

abbrev info_of : Registers → Siginfo
info_of regs = record { si_code = sys_seccomp; si_syscall = signed32 (unsigned32 regs.rax) }

-- What a kernel becomes by the filter and the handler.
abbrev pub filtered :
    (ℕ → State → Registers → Option Outcome) → ℕ → State → Registers → Option Outcome
filtered bare errno st regs =
    if is_virtual_call (unsigned32 regs.rax)
    then resumed (sigsys_handler host errno (bare errno st) (some (info_of regs)) (some regs) st)
    else bare errno st regs

trapped_virtual : (nr : ℕ) → run_filter nr 0 0 filter ≡ some ret_trap → is_virtual_call nr ≡ true
trapped_virtual nr e =
    let verdict = some-injective _ ret_trap (sym (filter-verdict nr) ∙ e) in ground (arith, verdict)

default_unused :
    (h : Host) (errno nr : ℕ) (a1 a2 a3 : ℤ) (d d' : Option Outcome) (st : State)
    → is_virtual_call nr ≡ true
    → dispatch_syscall h errno (pos nr) a1 a2 a3 d st
      ≡ dispatch_syscall h errno (pos nr) a1 a2 a3 d' st
unfolding dispatch_syscall
default_unused h errno nr a1 a2 a3 d d' st e = ground arith

-- What else the kernel does makes no difference to a call that is trapped.
same_handled :
    (errno nr : ℕ) (regs : Registers) (st : State) (bare other : Registers → Option Outcome)
    → is_virtual_call nr ≡ true
    → unsigned32 regs.rax ≡ nr
    → sigsys_handler host errno bare (some (info_of regs)) (some regs) st
      ≡ sigsys_handler host errno other (some (info_of regs)) (some regs) st
unfolding sigsys_handler
same_handled errno nr regs st bare other e same =
    let small : ltb nr (2 ^ 31) ≡ true = ground arith in
    rw (same, small)
      (ap (Option.map (λ o. store_rax regs (rax_of o)))
        (default_unused host errno nr regs.rdi regs.rsi regs.rdx _ _ st e))

pub filtered-IsFiltered :
    (bare : ℕ → State → Registers → Option Outcome) → IsFiltered host (filtered bare)
filtered-IsFiltered bare = record {
  traps = λ errno st regs e.
      let v = trapped_virtual (unsigned32 regs.rax) e in
      rw v (
        ap resumed (
          same_handled errno (unsigned32 regs.rax) regs st (bare errno st) (filtered bare errno st)
            v refl));
}
