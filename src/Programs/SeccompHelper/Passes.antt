-- ===== src/Programs/SeccompHelper/Passes.antt =====
-- Why src/shim/seccomp-helper.c passes.
use linbox.Prelude.{
  and_split, ap₂, ℕ, zero, suc, ◌≤◌, ◌≡◌, ◌≢◌, refl, sym, ap, ◌∙◌, arith, true, false, Option, none,
  some, List, [], ◌∷◌, ◌==◌, if◌then◌else◌, inl, inr, Bool-cases,
}
use mathlib.Core.Option
use linbox.Prelude.Int.{ℤ, pos, negsuc}
use linbox.Prelude.Words.{unsigned32}
use linbox.Prng.{fill}
use linbox.Prng.Period.{fill-apart}
use linbox.Shim.Environment.{same_bytes}
use linbox.Shm.Handle.{is_zero}
use linbox.Controller.TimeManager.{TimeManager}
use linbox.Controller.TimeManager.Publish.{IsPublished}
use linbox.Shim.{State, random_fill}
use linbox.Shim.Seeds.Running.{IsRunning, random_fill-IsRunning}
use linbox.Shim.Clock.{is_known_clock}
use linbox.Shim.Clock.Agreement.{now_published}
use linbox.Shim.Filter.{
  run_filter, filter, ret_errno, enosys, nr_io_uring_setup, nr_time, nr_getrandom, filter-verdict,
}
use linbox.Shim.Syscalls.{
  Registers, Outcome, nothing, bytes_at, rax_of, is_error, neg_ℕ, abs_ℤ, raw_syscall1, raw_syscall2,
  raw_syscall3, raw_syscall6, syscall_wrapper, call_gettimeofday, call_getrandom,
}
use linbox.Shim.Syscalls.Trapped.{
  raw_syscall6-wrapped, IsFiltered, raw_clock_gettime-published, raw_time-published,
}
use linbox.Programs.SeccompHelper.{
  Platform, Rest, fake_epoch, sigusr1, msg_size, nr_write, inline_syscall2, inline_syscall3,
  usr1_count, usr1_handler, check_clock_gettime, check_gettimeofday, check_time, check_getrandom,
  check_write, check_signal, check_io_uring, stress, helper_main,
}

-- What syscall(2) says of the C library's function: an error goes to errno.
abbrev pub told_errno : Outcome → Outcome
told_errno o = if is_error o.rc then record o { rc = negsuc 0; errno = abs_ℤ o.rc } else o

-- What the program relies on: the filter with its handler; the C library's `syscall`; that the kernel
-- refuses what the filter says it should, and writes the message; the signal, and the addresses.
pub record Works (p : Platform) : Type 0 where
  pub filtered : IsFiltered p.host p.kernel
  pub calls :
      (errno : ℕ) (st : State) (nr a1 a2 a3 a4 a5 a6 : ℤ)
      → p.libc errno st nr a1 a2 a3 a4 a5 a6
        ≡ Option.map told_errno (p.kernel errno st (raw_syscall6 p.regs nr a1 a2 a3 a4 a5 a6))
  pub refuses :
      (errno err : ℕ) (st : State) (regs : Registers)
      → err ≤ 4095
      → run_filter (unsigned32 regs.rax) 0 0 filter ≡ some (ret_errno err)
      → p.kernel errno st regs
        ≡ some (record { rc = neg_ℕ err; errno = errno; written = nothing; state = st })
  pub writes :
      (errno : ℕ) (st : State)
      → p.kernel errno st
          (raw_syscall6 p.regs (pos nr_write) (pos 1) p.msg (pos msg_size) (pos 0) (pos 0) (pos 0))
        ≡ some (record { rc = pos msg_size; errno = errno; written = nothing; state = st })
  pub handles : p.sigaction_rc ≡ pos 0
  pub raised : (p.raise_rc ≡ pos 0) × (p.delivered ≡ sigusr1 ∷ [])
  pub ts_there : is_zero p.ts_inline ≡ false
  pub tv_there : is_zero p.tv ≡ false
  pub now_there : is_zero p.now ≡ false
  pub loop_ts_there : is_zero p.loop_ts ≡ false

same_bytes-eq : (xs ys : List ℕ) → same_bytes xs ys ≡ true → xs ≡ ys
unfolding same_bytes
same_bytes-eq [] [] e = refl
same_bytes-eq [] (y ∷ ys) e = cc
same_bytes-eq (x ∷ xs) [] e = cc
same_bytes-eq (x ∷ xs) (y ∷ ys) e =
    let (head, tail) = and_split (x == y) (same_bytes xs ys) e in
    ap₂ ◌∷◌ (ground arith) (same_bytes-eq xs ys tail)

same_bytes-differ : (xs ys : List ℕ) → xs ≢ ys → same_bytes xs ys ≡ false
same_bytes-differ xs ys ne = elim (Bool-cases (same_bytes xs ys)) [
  | inl e ↦ absurd (ne (same_bytes-eq xs ys e))
  | inr e ↦ e
]

realtime : is_known_clock 0 ≡ true
unfolding is_known_clock
realtime = refl

-- The second argument, which `time` does not read.
two_for_one :
    (regs : Registers) (now : ℤ)
    → raw_syscall2 regs (pos nr_time) now (pos 0)
      ≡ raw_syscall1 (record regs { rsi = pos 0 }) (pos nr_time) now
unfolding raw_syscall1 raw_syscall2
two_for_one regs now = refl

module _ (p : Platform) (tm : TimeManager) (works : Works p) (published : IsPublished tm)
    (epoch : tm.current.tv_sec ≡ pos fake_epoch) where
  clock-passes :
      (rest : Rest) (errno : ℕ) (st : State)
      → IsRunning tm st
      → check_clock_gettime p rest errno st ≡ rest errno st
  unfolding check_clock_gettime inline_syscall2
  clock-passes rest errno st run =
      rw
        (
          raw_clock_gettime-published p.host p.kernel p.regs errno 0 p.ts_inline st tm
              works.filtered works.ts_there run.initialized run.connected run.shared published
              realtime,
          epoch,
        )
        refl

  gettimeofday-passes :
      (rest : Rest) (errno : ℕ) (st : State)
      → IsRunning tm st
      → check_gettimeofday p rest errno st ≡ rest errno st
  unfolding check_gettimeofday syscall_wrapper call_gettimeofday
  gettimeofday-passes rest errno st run =
      rw
        (
          works.tv_there,
          now_published p.host.boot p.host.real st tm run.initialized run.connected run.shared
              published,
          epoch,
        )
        refl

  time-passes :
      (rest : Rest) (errno : ℕ) (st : State)
      → IsRunning tm st
      → check_time p rest errno st ≡ rest errno st
  unfolding check_time inline_syscall2
  time-passes rest errno st run =
      rw
        (
          ap (p.kernel errno st) (two_for_one p.regs p.now),
          raw_time-published p.host p.kernel (record p.regs { rsi = pos 0 }) errno p.now st tm
              works.filtered run.initialized run.connected run.shared published,
          works.now_there,
          epoch,
        )
        refl

  -- The outcome of a draw of 16 bytes, by `syscall` or by a direct instruction.
  drawn : ℕ → State → ℤ → Outcome
  drawn errno st buf =
      let (bytes, st') = random_fill p.host.boot st 16 in
      record { rc = pos 16; errno = errno; written = bytes_at buf bytes; state = st' }

  syscall-draws :
      (next : ℤ → ℤ → ℤ → ℤ → ℤ → ℤ → ℤ → Option Outcome) (errno : ℕ) (st : State)
      (buf a4 a5 a6 : ℤ)
      → syscall_wrapper p.host errno next (pos nr_getrandom) buf (pos 16) (pos 0) a4 a5 a6 st
        ≡ some (drawn errno st buf)
  unfolding syscall_wrapper call_getrandom drawn
  syscall-draws next errno st buf a4 a5 a6 = refl

  instruction-draws :
      (errno : ℕ) (st : State) (buf : ℤ)
      → p.kernel errno st (raw_syscall3 p.regs (pos nr_getrandom) buf (pos 16) (pos 0))
        ≡ some (drawn errno st buf)
  unfolding raw_syscall3 raw_syscall6 drawn
  instruction-draws errno st buf =
      let regs = p.regs in
      raw_syscall6-wrapped p.host p.kernel (λ n b1 b2 b3 b4 b5 b6. none) regs errno nr_getrandom buf
        (pos 16) (pos 0) regs.r10 regs.r8 regs.r9 st works.filtered refl
      ∙ ap (Option.map rax_of)
          (syscall-draws (λ n b1 b2 b3 b4 b5 b6. none) errno st buf regs.r10 regs.r8 regs.r9)

  -- The state after the two draws.
  twice : State → State
  twice st = (random_fill p.host.boot (random_fill p.host.boot st 16).1 16).1

  getrandom-passes :
      (rest : Rest) (errno : ℕ) (st : State)
      → IsRunning tm st
      → IsRunning tm (twice st) × (check_getrandom p rest errno st ≡ rest errno (twice st))
  unfolding check_getrandom inline_syscall3 twice drawn
  getrandom-passes rest errno st run =
      let (run1, bytes1, gen) = random_fill-IsRunning p.host.boot tm st 16 run in
      let (run2, bytes2, _) =
        random_fill-IsRunning p.host.boot tm (random_fill p.host.boot st 16).1 16 run1 in
      let differ : same_bytes (random_fill p.host.boot st 16).0
            (random_fill p.host.boot (random_fill p.host.boot st 16).1 16).0
          ≡ false =
        same_bytes-differ _ _ (λ e.
          fill-apart st.prng run.live (sym bytes1 ∙ e ∙ bytes2 ∙ ap (λ g. (fill g 16).0) gen)) in
      (
        run2,
        rw
            (
              instruction-draws errno st p.a,
              syscall-draws (p.libc errno (random_fill p.host.boot st 16).1) errno
                  (random_fill p.host.boot st 16).1 p.b (pos 0) (pos 0) (pos 0),
              differ,
            )
            refl,
      )

  write-passes :
      (rest : Rest) (errno : ℕ) (st : State) → check_write p rest errno st ≡ rest errno st
  unfolding check_write syscall_wrapper
  write-passes rest errno st =
      rw
        (
          works.calls errno st (pos nr_write) (pos 1) p.msg (pos msg_size) (pos 0) (pos 0) (pos 0),
          works.writes errno st,
        )
        refl

  signal-passes :
      (rest : Rest) (errno : ℕ) (st : State) → check_signal p rest errno st ≡ rest errno st
  unfolding check_signal usr1_count usr1_handler
  signal-passes rest errno st = rw (works.raised.0, works.raised.1) refl

  io_uring-passes :
      (rest : Rest) (errno : ℕ) (st : State) → check_io_uring p rest errno st ≡ rest enosys st
  unfolding check_io_uring syscall_wrapper raw_syscall6
  io_uring-passes rest errno st =
      rw
        (
          works.calls 0 st (pos nr_io_uring_setup) (pos 1) (pos 0) (pos 0) (pos 0) (pos 0) (pos 0),
          works.refuses 0 enosys st
              (raw_syscall6 p.regs (pos nr_io_uring_setup) (pos 1) (pos 0) (pos 0) (pos 0) (pos 0)
                (pos 0))
              (omega arith) (filter-verdict nr_io_uring_setup),
        )
        refl

  stress-passes :
      (rounds errno : ℕ) (st : State) → IsRunning tm st → stress p rounds errno st ≡ some 0
  unfolding stress inline_syscall2
  stress-passes zero errno st run = refl
  stress-passes (suc rounds) errno st run =
      rw
        (
          raw_clock_gettime-published p.host p.kernel p.regs errno 0 p.loop_ts st tm works.filtered
              works.loop_ts_there run.initialized run.connected run.shared published realtime,
          epoch,
        )
        (stress-passes rounds errno st run)

-- The program ends with status 0: in a process where the library is at work, which shares the memory of
-- a controller that has published a time of the second 1735689600; on a platform that works as
-- documented, with the filter and the handler for its signal in place and the addresses not NULL.
pub helper_main-passes :
    (p : Platform) (tm : TimeManager) (errno : ℕ) (st : State)
    → Works p
    → IsPublished tm
    → tm.current.tv_sec ≡ pos fake_epoch
    → IsRunning tm st
    → helper_main p errno st ≡ some 0
unfolding helper_main
helper_main-passes p tm errno st works published epoch run =
    let last = check_write p (check_signal p (check_io_uring p (stress p 10000))) in
    let (run', drew) = getrandom-passes p tm works published epoch last errno st run in
    simp works.handles (
      clock-passes p tm works published epoch _ errno st run
      ∙ gettimeofday-passes p tm works published epoch _ errno st run
      ∙ time-passes p tm works published epoch _ errno st run
      ∙ drew
      ∙ write-passes p tm works published epoch _ errno (twice p tm works published epoch st)
      ∙ signal-passes p tm works published epoch _ errno (twice p tm works published epoch st)
      ∙ io_uring-passes p tm works published epoch _ errno (twice p tm works published epoch st)
      ∙ stress-passes p tm works published epoch 10000 enosys (twice p tm works published epoch st)
          run')
