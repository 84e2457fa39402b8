-- ===== src/Shim/Process/Tests.antt =====
-- The start of programs at concrete inputs.
use linbox.Prelude.{ℕ, ◌≡◌, refl, true, none, some, List, [], ◌∷◌, ◌++◌}
use linbox.Shim.Environment.Complete.{Complete}
use linbox.Shim.Process.{Setting, called, execl, execle, execlp}
use linbox.Shim.Process.Arguments.{given, execl-arguments}
use linbox.Shim.Process.Environ.{runtime_bindings}

-- `A=1` and `LINBOX_SHM=x`
abbrev environment : List (List ℕ)
environment =
    (65 ∷ 61 ∷ 49 ∷ []) ∷ (76 ∷ 73 ∷ 78 ∷ 66 ∷ 79 ∷ 88 ∷ 95 ∷ 83 ∷ 72 ∷ 77 ∷ 61 ∷ 120 ∷ []) ∷ []

abbrev setting : Setting
setting = record {
  needed = runtime_bindings environment;
  environ = environment;
  argv_ok = true;
  calloc_ok = true;
  memory = λ k. true;
}

abbrev program : List ℕ
program = 47 ∷ 97 ∷ []

execl-arguments_example :
    let argv = some program ∷ some (98 ∷ []) ∷ some (99 ∷ []) ∷ none ∷ [] in
    let args = given ((98 ∷ []) ∷ (99 ∷ []) ∷ []) [] in
    ((added : List (List ℕ)) × (execl setting program (some program) args
        ≡ called (record { path = program; argv = argv; envp = some (environment ++ added) }))
      × Complete setting.needed (environment ++ added))
    × ((added : List (List ℕ)) × (execle setting program (some program) args (some [])
          ≡ called (record { path = program; argv = argv; envp = some ([] ++ added) }))
        × Complete setting.needed ([] ++ added))
    × (execlp setting program (some program) args
        ≡ called (record { path = program; argv = argv; envp = some environment }))
execl-arguments_example =
    execl-arguments setting program (some program) ((98 ∷ []) ∷ (99 ∷ []) ∷ []) [] [] refl refl
      (λ k. refl)
