-- ===== src/Shim/Process/Arguments.antt =====
-- The arguments of `execl`, `execle` and `execlp` reach the program as they were given.
use linbox.Prelude.{
  ℕ, suc, ◌+◌, ◌≡◌, refl, sym, ap, ◌∙◌, arith, true, Option, none, some, List, [], ◌∷◌, ◌++◌,
  length, length-append, set, replicate, map,
}
use mathlib.Core.List.{append_assoc}
use linbox.Shim.Environment.Complete.{Complete, exec_env-Complete}
use linbox.Shim.Process.{
  Started, called, Setting, count_args, copy_args, make_argv, collected, execve, execl, execle,
  execlp, execvp,
}

-- Arguments as the caller writes them: the strings, NULL, and what may stand behind it.
abbrev pub given : List (List ℕ) → List (Option (List ℕ)) → List (Option (List ℕ))
given strings rest = map some strings ++ (none ∷ rest)

count_args-given :
    (xs : List (List ℕ)) (rest : List (Option (List ℕ)))
    → count_args (given xs rest) ≡ some (length xs)
unfolding count_args
count_args-given [] rest = refl
count_args-given (x ∷ xs) rest = rw (count_args-given xs rest) refl

set_here :
    {A : Type 0} (pre : List A) (y v : A) (ys : List A)
    → set (pre ++ (y ∷ ys)) (length pre) v ≡ pre ++ (v ∷ ys)
set_here [] y v ys = refl
set_here (x ∷ pre) y v ys = ap (λ l. x ∷ l) (set_here pre y v ys)

abbrev nulls : ℕ → List (Option (List ℕ))
nulls n = replicate n none

copied :
    (xs : List (List ℕ)) (rest pre : List (Option (List ℕ)))
    → copy_args (length xs) (length pre) (given xs rest) (pre ++ nulls (suc (length xs)))
      ≡ pre ++ (map some xs ++ (none ∷ []))
unfolding copy_args
copied [] rest pre = refl
copied (x ∷ xs) rest pre =
    let longer : suc (length pre) ≡ length (pre ++ (some x ∷ [])) =
      omega (arith, length-append pre (some x ∷ [])) in
    ap (copy_args (length xs) (suc (length pre)) (given xs rest)) (
      set_here pre none (some x) (nulls (suc (length xs)))
      ∙ sym (append_assoc pre (some x ∷ []) (nulls (suc (length xs)))))
    ∙ ap
        (λ i.
          copy_args (length xs) i (given xs rest)
            ((pre ++ (some x ∷ [])) ++ nulls (suc (length xs))))
        longer
    ∙ copied xs rest (pre ++ (some x ∷ []))
    ∙ append_assoc pre (some x ∷ []) (map some xs ++ (none ∷ []))

-- `argv` is the first argument, the strings up to the NULL, and a NULL.
make_argv-given :
    (arg0 : Option (List ℕ)) (xs : List (List ℕ)) (rest : List (Option (List ℕ)))
    → make_argv arg0 (length xs) (given xs rest) ≡ arg0 ∷ (map some xs ++ (none ∷ []))
unfolding make_argv
make_argv-given arg0 xs rest =
    let n : suc (length xs) + 1 ≡ suc (suc (length xs)) = omega arith in
    rw n (copied xs rest (arg0 ∷ []))

collected-given :
    (w : Setting) (arg0 : Option (List ℕ)) (xs : List (List ℕ)) (rest : List (Option (List ℕ)))
    (run : List (Option (List ℕ)) → Started)
    → w.argv_ok ≡ true
    → collected w arg0 (given xs rest) run (count_args (given xs rest))
      ≡ run (arg0 ∷ (map some xs ++ (none ∷ [])))
unfolding collected
collected-given w arg0 xs rest run ok =
    rw (count_args-given xs rest, ok) (ap run (make_argv-given arg0 xs rest))

execve-entries :
    (w : Setting) (path : List ℕ) (argv : List (Option (List ℕ))) (entries : List (List ℕ))
    → w.calloc_ok ≡ true
    → ((k : ℕ) → w.memory k ≡ true)
    → (added : List (List ℕ)) × (execve w path argv (some entries)
        ≡ called (record { path = path; argv = argv; envp = some (entries ++ added) }))
      × Complete w.needed (entries ++ added)
unfolding execve
execve-entries w path argv entries ok memory_ok =
    let (added, e, complete, rest) = exec_env-Complete w.needed w.memory entries memory_ok in
    (added, rw (ok, e) refl, complete)

-- With memory to be had, `execl` and `execle` call the C library with the arguments that stand before
-- the NULL and all entries of the environment that is meant, `environ` or the one that is given, with
-- entries behind them that complete it; `execlp` with the same arguments and `environ`.
pub execl-arguments :
    (w : Setting) (path : List ℕ) (arg0 : Option (List ℕ)) (xs : List (List ℕ))
    (rest : List (Option (List ℕ))) (entries : List (List ℕ))
    → w.argv_ok ≡ true
    → w.calloc_ok ≡ true
    → ((k : ℕ) → w.memory k ≡ true)
    → let argv = arg0 ∷ (map some xs ++ (none ∷ [])) in
      ((added : List (List ℕ)) × (execl w path arg0 (given xs rest)
          ≡ called (record { path = path; argv = argv; envp = some (w.environ ++ added) }))
        × Complete w.needed (w.environ ++ added))
      × ((added : List (List ℕ)) × (execle w path arg0 (given xs rest) (some entries)
            ≡ called (record { path = path; argv = argv; envp = some (entries ++ added) }))
          × Complete w.needed (entries ++ added))
      × (execlp w path arg0 (given xs rest)
          ≡ called (record { path = path; argv = argv; envp = some w.environ }))
unfolding execl execle execlp execvp
execl-arguments w path arg0 xs rest entries ok cok mok =
    let argv = arg0 ∷ (map some xs ++ (none ∷ [])) in
    let (added, e, complete) = execve-entries w path argv w.environ cok mok in
    let (added', e', complete') = execve-entries w path argv entries cok mok in
    (
      (added, collected-given w arg0 xs rest _ ok ∙ e, complete),
      (added', collected-given w arg0 xs rest _ ok ∙ e', complete'),
      collected-given w arg0 xs rest _ ok,
    )
