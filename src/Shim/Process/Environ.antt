-- ===== src/Shim/Process/Environ.antt =====
-- Programs that get `environ`: what the shim would add to it is there already.
use linbox.Prelude.{
  ℕ, ◌+◌, ◌≡◌, refl, true, Option, none, some, List, [], ◌∷◌, drop, length, if◌then◌else◌,
  Bool-cases, inl, inr,
}
use linbox.Shim.Environment.{
  Binding, binds, is_bound, wanted, to_add, inject_runtime_env, exec_env, freed,
}
use linbox.Shim.Environment.Complete.{Complete, nothing_to_add}
use linbox.Shim.Process.{Setting, execve, execv, execvp}

-- The names of `needed` in `linbox_inject_runtime_env`.
abbrev ld_preload : List ℕ
ld_preload = 76 ∷ 68 ∷ 95 ∷ 80 ∷ 82 ∷ 69 ∷ 76 ∷ 79 ∷ 65 ∷ 68 ∷ []

abbrev linbox_sock : List ℕ
linbox_sock = 76 ∷ 73 ∷ 78 ∷ 66 ∷ 79 ∷ 88 ∷ 95 ∷ 83 ∷ 79 ∷ 67 ∷ 75 ∷ []

abbrev linbox_shm : List ℕ
linbox_shm = 76 ∷ 73 ∷ 78 ∷ 66 ∷ 79 ∷ 88 ∷ 95 ∷ 83 ∷ 72 ∷ 77 ∷ []

abbrev linbox_disable_seccomp : List ℕ
linbox_disable_seccomp =
    76 ∷ 73 ∷ 78 ∷ 66 ∷ 79 ∷ 88 ∷ 95 ∷ 68 ∷ 73 ∷ 83 ∷ 65 ∷ 66 ∷ 76 ∷ 69 ∷ 95 ∷ 83 ∷ 69 ∷ 67 ∷ 67
    ∷ 79 ∷ 77 ∷ 80 ∷ []

-- `getenv` on the entries of `environ`
unfoldable pub getenv : List ℕ → List (List ℕ) → Option (List ℕ)
getenv name [] = none
getenv name (entry ∷ entries) =
    let rest = getenv name entries in
    if binds name entry then some (drop (length name + 1) entry) else rest

abbrev binding : List (List ℕ) → List ℕ → Binding
binding environ name = record { name = name; value = getenv name environ }

-- `needed`, with what `getenv` gives
abbrev pub runtime_bindings : List (List ℕ) → List Binding
runtime_bindings environ =
    binding environ ld_preload
    ∷ binding environ linbox_sock
    ∷ binding environ linbox_shm
    ∷ binding environ linbox_disable_seccomp
    ∷ []

getenv-is_bound :
    (name : List ℕ) (entries : List (List ℕ))
    → wanted (getenv name entries) ≡ true
    → is_bound name entries ≡ true
unfolding getenv is_bound
getenv-is_bound name [] e = cc
getenv-is_bound name (entry ∷ entries) e = elim (Bool-cases (binds name entry)) [
  | inl here ↦ rw here refl
  | inr there ↦ rw there (getenv-is_bound name entries (rw there at e))
]

bound-runtime : (environ : List (List ℕ)) → Complete (runtime_bindings environ) environ
bound-runtime environ = (
  getenv-is_bound ld_preload environ,
  (
    getenv-is_bound linbox_sock environ,
    (getenv-is_bound linbox_shm environ, (getenv-is_bound linbox_disable_seccomp environ, tt)),
  ),
)

-- If the variables to hand on are those of the shim with the values that `getenv` finds in `environ`,
-- `execv` starts a program just as `execvp` does: the variables are bound in `environ` already, so
-- nothing is allocated, added or freed.
pub execv-execvp :
    (w : Setting) (path : List ℕ) (argv : List (Option (List ℕ)))
    → w.needed ≡ runtime_bindings w.environ
    → (execv w path argv ≡ execvp w path argv)
      × (freed (inject_runtime_env w.needed w.calloc_ok w.memory (some w.environ)) (some w.environ)
          ≡ [])
unfolding execv execvp execve exec_env inject_runtime_env freed
execv-execvp w path argv e =
    let nothing : to_add w.environ w.needed ≡ [] =
      rw e (nothing_to_add w.environ (runtime_bindings w.environ) (bound-runtime w.environ)) in
    rw nothing (refl, refl)
