-- ===== src/Shim/Environment.antt =====
-- The environment that src/shim/process.c hands to a program: `linbox_inject_runtime_env`, what
-- `execve` makes of it, and `linbox_free_injected_env`. A string is its bytes, without the 0.
pub mod Complete
use linbox.Prelude.{
  ℕ, zero, suc, ◌+◌, ◌≡◌, Bool, true, false, not, ◌&&◌, ◌||◌, Option, none, some, List, [], ◌∷◌,
  ◌++◌, ◌==◌, if◌then◌else◌, length, get_or, take, drop,
}

-- The code of `=`.
abbrev pub equals_sign : ℕ
equals_sign = 61

-- `linbox_env_binding_t`; `value` is what `getenv` gives.
pub record Binding : Type 0 where
  pub name : List ℕ
  pub value : Option (List ℕ)

unfoldable pub same_bytes : List ℕ → List ℕ → Bool
same_bytes [] [] = true
same_bytes [] (y ∷ ys) = false
same_bytes (x ∷ xs) [] = false
same_bytes (x ∷ xs) (y ∷ ys) = let rest = same_bytes xs ys in x == y && rest

-- `strncmp(entry, name, name_len) == 0 && entry[name_len] == '='`
unfoldable pub binds : List ℕ → List ℕ → Bool
binds name entry =
    same_bytes (take (length name) entry) name && get_or entry (length name) 0 == equals_sign

-- The search of a name in `envp`.
unfoldable pub is_bound : List ℕ → List (List ℕ) → Bool
is_bound name [] = false
is_bound name (entry ∷ entries) = binds name entry || is_bound name entries

-- A variable that is set and not empty is handed on.
abbrev pub wanted : Option (List ℕ) → Bool
wanted none = false
wanted (some []) = false
wanted (some (b ∷ bytes)) = true

-- `snprintf(..., "%s=%s", name, value)`
abbrev pub entry_of : List ℕ → Option (List ℕ) → List ℕ
entry_of name none = name ++ (equals_sign ∷ [])
entry_of name (some value) = name ++ (equals_sign ∷ value)

-- The entries that the second loop writes; `missing`, which the first one counts, is their number.
unfoldable pub to_add : List (List ℕ) → List Binding → List (List ℕ)
to_add entries [] = []
to_add entries (b ∷ needed) =
    let rest = to_add entries needed in
    if wanted b.value && not (is_bound b.name entries) then entry_of b.name b.value ∷ rest else rest

-- Whether all of so many calls of `malloc` work; `memory` says it of each.
unfoldable pub allocates : ℕ → (ℕ → Bool) → Bool
allocates zero memory = true
allocates (suc n) memory = memory n && allocates n memory

-- What `linbox_inject_runtime_env` returns: `envp` itself, a new array, or NULL for want of memory.
pub data Injected : Type 0 where
  unchanged : Injected
  merged : List (List ℕ) → Injected
  no_memory : Injected

abbrev pub entries_of : Option (List (List ℕ)) → List (List ℕ)
entries_of none = []
entries_of (some entries) = entries

abbrev pub merge : Bool → (ℕ → Bool) → List (List ℕ) → List (List ℕ) → Injected
merge calloc_ok memory entries [] = unchanged
merge calloc_ok memory entries (e ∷ added) =
    if calloc_ok && allocates (length (e ∷ added)) memory
    then merged (entries ++ (e ∷ added))
    else no_memory

-- `envp` is `none` for NULL.
unfoldable pub inject_runtime_env :
    List Binding → Bool → (ℕ → Bool) → Option (List (List ℕ)) → Injected
inject_runtime_env needed calloc_ok memory envp =
    let entries = entries_of envp in merge calloc_ok memory entries (to_add entries needed)

-- The environment that `execve`, `execvpe`, `posix_spawn` and `posix_spawnp` call the C library
-- with, or `none` where they return ENOMEM.
abbrev pub handed_on : Injected → Option (List (List ℕ)) → Option (List (List ℕ))
handed_on unchanged envp = envp
handed_on (merged entries) envp = some entries
handed_on no_memory envp = none

unfoldable pub exec_env :
    List Binding → Bool → (ℕ → Bool) → Option (List (List ℕ)) → Option (List (List ℕ))
exec_env needed calloc_ok memory envp =
    handed_on (inject_runtime_env needed calloc_ok memory envp) envp

-- The strings that `linbox_free_injected_env` frees.
unfoldable pub freed : Injected → Option (List (List ℕ)) → List (List ℕ)
freed unchanged envp = []
freed (merged entries) envp = drop (length (entries_of envp)) entries
freed no_memory envp = []
