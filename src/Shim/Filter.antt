-- ===== src/Shim/Filter.antt =====
-- src/shim/seccomp.c: the filter that is handed to the kernel, in the language of classic BPF, and
-- its installation. The numbers are those of Linux on x86-64, where every `#ifdef` holds.
use linbox.Prelude.{
  ℕ, zero, suc, ◌≡◌, arith, Bool, true, false, ◌||◌, Option, none, some, List, [], ◌∷◌, ◌++◌, ◌==◌,
  if◌then◌else◌, bit_or, bit_and,
}
use linbox.Prelude.Int.{ℤ, pos, negsuc}
use linbox.Shm.Handle.{is_zero}

-- The instructions of `struct sock_filter` that the macros of the file write: the load of the
-- call's number, a comparison with a constant that skips `jt` or `jf` instructions, and the end.
pub data Instruction : Type 0 where
  load_nr : Instruction
  jump_eq : ℕ → ℕ → ℕ → Instruction
  ret : ℕ → Instruction

-- A program on the number of a system call, with the accumulator, behind `skip` more instructions;
-- `none` where it runs off its end.
pub run_filter : ℕ → ℕ → ℕ → List Instruction → Option ℕ
run_filter nr acc skip [] = none
run_filter nr acc (suc skip) (i ∷ program) = run_filter nr acc skip program
run_filter nr acc zero (load_nr ∷ program) = run_filter nr nr 0 program
run_filter nr acc zero (jump_eq k jt jf ∷ program) =
    run_filter nr acc (if acc == k then jt else jf) program
run_filter nr acc zero (ret k ∷ program) = some k

-- LINBOX_ALLOW, LINBOX_TRAP and LINBOX_ERRNO
abbrev pub ret_allow : ℕ
ret_allow = 0x7FFF0000

abbrev pub ret_trap : ℕ
ret_trap = 0x00030000

abbrev pub ret_errno : ℕ → ℕ
ret_errno err = bit_or 0x00050000 (bit_and err 0xFFFF)

abbrev pub enosys : ℕ
enosys = 38

-- SC_TRAP and SC_ERRNO
abbrev sc_trap : ℕ → List Instruction
sc_trap nr = jump_eq nr 0 1 ∷ ret ret_trap ∷ []

abbrev sc_errno : ℕ → ℕ → List Instruction
sc_errno nr err = jump_eq nr 0 1 ∷ ret (ret_errno err) ∷ []

abbrev pub nr_clock_gettime : ℕ
nr_clock_gettime = 228

abbrev pub nr_gettimeofday : ℕ
nr_gettimeofday = 96

abbrev pub nr_time : ℕ
nr_time = 201

abbrev pub nr_getrandom : ℕ
nr_getrandom = 318

abbrev pub nr_io_uring_setup : ℕ
nr_io_uring_setup = 425

abbrev pub nr_io_uring_enter : ℕ
nr_io_uring_enter = 426

abbrev pub nr_io_uring_register : ℕ
nr_io_uring_register = 427

-- `filter` of `linbox_install_seccomp`
pub filter : List Instruction
filter =
    load_nr
    ∷ (sc_trap nr_clock_gettime
        ++ sc_trap nr_gettimeofday
        ++ sc_trap nr_time
        ++ sc_trap nr_getrandom
        ++ sc_errno nr_io_uring_setup enosys
        ++ sc_errno nr_io_uring_enter enosys
        ++ sc_errno nr_io_uring_register enosys
        ++ (ret ret_allow ∷ []))

-- The calls that the filter is there to catch, and those that it refuses.
abbrev pub is_virtual_call : ℕ → Bool
is_virtual_call nr =
    nr == nr_clock_gettime || nr == nr_gettimeofday || nr == nr_time || nr == nr_getrandom

abbrev pub is_io_uring : ℕ → Bool
is_io_uring nr = nr == nr_io_uring_setup || nr == nr_io_uring_enter || nr == nr_io_uring_register

-- The filter ends on every number: it traps the four calls that ask for the time or for random
-- bytes, answers the three of io_uring with ENOSYS, and allows all others.
pub filter-verdict :
    (nr : ℕ)
    → run_filter nr 0 0 filter
      ≡ some (
          if is_virtual_call nr
          then ret_trap
          else if is_io_uring nr
          then ret_errno enosys
          else ret_allow)
unfolding filter run_filter
filter-verdict nr = ground arith

-- `linbox_install_seccomp`, with what `prctl` gives for PR_SET_NO_NEW_PRIVS and PR_SET_SECCOMP: the
-- return value, and whether the filter is in place.
unfoldable pub install_seccomp : ℤ → ℤ → ℤ × Bool
install_seccomp no_new_privs set_seccomp =
    if is_zero no_new_privs
    then (if is_zero set_seccomp then (pos 0, true) else (negsuc 0, false))
    else (negsuc 0, false)
