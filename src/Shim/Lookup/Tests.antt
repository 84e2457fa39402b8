-- ===== src/Shim/Lookup/Tests.antt =====
-- Two threads in src/shim/resolve.h: the second one comes while the first one looks a function up.
use linbox.Prelude.{ℕ, ◌≡◌, ◌≢◌, ◌⊎◌, refl, sym, Bool, true}
use mathlib.Core.Path.{subst}
use native.Mathlib.Decide.{ℕ_discrete}
use linbox.Shim.Lookup.{
  unresolved, searching, through, refused, busy, Move, enter, miss, fail, pass, mark, search_next,
  unmark, Calls, pick, Reach, start, later,
}
use linbox.Shim.Lookup.Invariant.{Move-refused}

abbrev all : ℕ → Bool
all k = true

-- Call 0 is in `dlsym` for function 5, call 1 at the test of the flag for function 6.
abbrev Crossed : Calls → Type 0
Crossed s =
    Reach all s × (s.pc 0 ≡ searching 5) × (s.pc 1 ≡ unresolved 6) × (s.mem.resolving ≡ true)

crossed : (s : Calls) × Crossed s
unfolding ℕ_discrete
crossed = (
  _,
  (
    later
        (later
          (later
            (later (later (later start (pick 0 (enter {k = 5}))) (pick 0 (miss refl)))
              (pick 0 (pass refl)))
            (pick 0 mark))
          (pick 1 (enter {k = 6})))
        (pick 1 (miss refl)),
    refl,
    refl,
    refl,
  ),
)

-- Call 1 fails with EAGAIN.
crossed_fails : Move all crossed.0.mem (crossed.0.pc 1) crossed.0.mem (refused 6)
crossed_fails =
    subst (λ p. Move all crossed.0.mem p crossed.0.mem (refused 6)) (sym crossed.1.2)
      (fail crossed.1.3)

Move-refused_example :
    ((j : ℕ) × (1 ≢ j) × (busy (crossed.0.pc j) ≡ true)) ⊎ (crossed.0.abandoned ≡ true)
Move-refused_example =
    Move-refused {finds = all} {s = crossed.0} {m = crossed.0.mem} 1 6 crossed.1.0 crossed.1.2
      crossed_fails

-- Call 0 goes on and gets its function.
ended : (s : Calls) × Reach all s × (s.pc 0 ≡ through 5)
unfolding ℕ_discrete crossed
ended = (_, later (later crossed.1.0 (pick 0 (search_next {k = 5}))) (pick 0 unmark), refl)
