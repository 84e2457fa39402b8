-- ===== src/Shim/Process.antt =====
-- src/shim/process.c: the wrappers of the calls that start processes. Environment has what they hand
-- on, and Shim what a child does. Strings are their bytes, and NULL is `none`.
pub mod Arguments
pub mod Clone
pub mod Environ
mod Tests
use linbox.Prelude.{
  ℕ, zero, suc, ◌+◌, ◌*◌, ◌≡◌, Bool, true, false, not, ◌&&◌, ◌||◌, Option, none, some, List, [],
  ◌∷◌, ◌==◌, if◌then◌else◌, set, replicate, drop, length, bit_and, map,
}
use linbox.Prelude.Int.{ℤ, pos, negsuc}
use linbox.Shm.Handle.{is_zero}
use linbox.Shim.{State, Boot, after_fork_in_child}
use linbox.Shim.Syscalls.{syscall_result}
use linbox.Shim.Environment.{Binding, binds, exec_env, equals_sign}

-- A call of the C library's function with a path or a file, the arguments and the environment.
pub record Program : Type 0 where
  pub path : List ℕ
  pub argv : List (Option (List ℕ))
  pub envp : Option (List (List ℕ))

-- How a wrapper ends: by that call, by -1 with errno ENOMEM (the two of posix_spawn return ENOMEM
-- itself), or by reading arguments that the caller did not give.
pub data Started : Type 0 where
  called : Program → Started
  no_memory : Started
  undefined : Started

abbrev with_env : List ℕ → List (Option (List ℕ)) → Option (List (List ℕ)) → Started
with_env path argv none = no_memory
with_env path argv (some entries) =
    called (record { path = path; argv = argv; envp = some entries })

-- What the wrappers read of the system: what `getenv` gives for the variables to hand on, `environ`,
-- and whether `calloc` in the wrapper, `calloc` for the environment and each `malloc` work.
pub record Setting : Type 0 where
  pub needed : List Binding
  pub environ : List (List ℕ)
  pub argv_ok : Bool
  pub calloc_ok : Bool
  pub memory : ℕ → Bool

-- `execve`, `execvpe`, `posix_spawn` and `posix_spawnp`
unfoldable pub execve : Setting → List ℕ → List (Option (List ℕ)) → Option (List (List ℕ)) → Started
execve w path argv envp = with_env path argv (exec_env w.needed w.calloc_ok w.memory envp)

-- `execv`
pub execv : Setting → List ℕ → List (Option (List ℕ)) → Started
execv w path argv = execve w path argv (some w.environ)

-- `execvp`: the C library's function takes `environ`.
pub execvp : Setting → List ℕ → List (Option (List ℕ)) → Started
execvp w file argv = called (record { path = file; argv = argv; envp = some w.environ })

-- The loop that counts the variable arguments before the NULL; `none` where it runs past them.
pub count_args : List (Option (List ℕ)) → Option ℕ
count_args [] = none
count_args (none ∷ args) = some 0
count_args (some arg ∷ args) = elim (count_args args) [ none ↦ none | some n ↦ some (suc n) ]

-- The loop that writes `argv[i]`, for so many more arguments.
pub copy_args : ℕ → ℕ → List (Option (List ℕ)) → List (Option (List ℕ)) → List (Option (List ℕ))
copy_args zero i args argv = argv
copy_args (suc n) i [] argv = argv
copy_args (suc n) i (arg ∷ args) argv = copy_args n (suc i) args (set argv i arg)

-- `argv` of `execl`, `execle` and `execlp`, with `argc - 1` for the number of variable arguments.
pub make_argv : Option (List ℕ) → ℕ → List (Option (List ℕ)) → List (Option (List ℕ))
make_argv arg0 n args = copy_args n 1 args (set (replicate (suc n + 1) none) 0 arg0)

-- The three functions with a list of arguments, up to the call that they end in.
unfoldable pub collected :
    Setting
    → Option (List ℕ)
    → List (Option (List ℕ))
    → (List (Option (List ℕ)) → Started)
    → Option ℕ
    → Started
collected w arg0 args run none = undefined
collected w arg0 args run (some n) = if w.argv_ok then run (make_argv arg0 n args) else no_memory

-- `execl`; `args` are the arguments behind `arg0`.
pub execl : Setting → List ℕ → Option (List ℕ) → List (Option (List ℕ)) → Started
execl w path arg0 args =
    collected w arg0 args (λ argv. execve w path argv (some w.environ)) (count_args args)

-- `execle`; the pointer to the environment stands behind the NULL.
pub execle :
    Setting → List ℕ → Option (List ℕ) → List (Option (List ℕ)) → Option (List (List ℕ)) → Started
execle w path arg0 args envp =
    collected w arg0 args (λ argv. execve w path argv envp) (count_args args)

-- `execlp`
pub execlp : Setting → List ℕ → Option (List ℕ) → List (Option (List ℕ)) → Started
execlp w file arg0 args = collected w arg0 args (λ argv. execvp w file argv) (count_args args)

-- `fork`, which `vfork` is as well: the state of the process that returns, with the pid that it gets,
-- and what it sends. `writes` and `received` are as in `after_fork_in_child`.
pub fork : ℤ → Boot → Bool → Option (List ℕ) → State → State × Option (List ℕ)
fork pid boot writes received st =
    if is_zero pid then after_fork_in_child boot writes received st else (st, none)

-- CLONE_VM
abbrev pub clone_vm : ℕ
clone_vm = 0x100

-- The field of `linbox_clone_start_t` of that name, as `clone` sets it.
pub is_process : ℕ → Bool
is_process flags = bit_and flags clone_vm == 0

-- `linbox_clone_entry`, up to the call of `fn`
pub clone_entry : ℕ → Boot → Bool → Option (List ℕ) → State → State × Option (List ℕ)
clone_entry flags boot writes received st =
    if is_process flags then after_fork_in_child boot writes received st else (st, none)

abbrev pub enomem : ℕ
enomem = 12

-- `clone` in the caller, by whether `malloc` works and what the C library's function gives: the
-- return value, errno if it is set here, and whether the start record is freed.
pub clone : Bool → ℤ → ℤ × Option ℕ × Bool
clone malloc_ok rc =
    if malloc_ok then (rc, none, not (is_zero rc)) else (negsuc 0, some enomem, false)

-- Whether there are arguments for `clone3`, and they ask for a process of its own.
abbrev separate : Option ℕ → Bool
separate none = false
separate (some flags) = is_process flags

-- `clone3`, by what the raw call gives, of an `int`; `flags` is `none` where `cl_args` is NULL.
pub clone3 :
    ℤ → Option ℕ → Boot → Bool → Option (List ℕ) → State → (ℤ × Option ℕ) × State × Option (List ℕ)
clone3 rc flags boot writes received st =
    let (st', sent) : State × Option (List ℕ) =
      if is_zero rc && separate flags
      then after_fork_in_child boot writes received st
      else (st, none) in
    (syscall_result rc, st', sent)
