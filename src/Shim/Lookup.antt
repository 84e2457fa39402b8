-- ===== src/Shim/Lookup.antt =====
-- src/shim/resolve.h: LINBOX_RESOLVE_NEXT, by which each wrapper looks its function of the C library
-- up when it is first called. Calls of wrappers interleave in any order: those of several threads,
-- and those that `dlsym` makes while it looks a function up. The flag `resolving` in the shim's state
-- is theirs together; each function has a pointer of its own.
pub mod Invariant
mod Tests
use linbox.Prelude.{
  ℕ, ◌≡◌, ◌≢◌, refl, sym, ap, ◌∙◌, arith, Bool, true, false, inl, inr, if◌then◌else◌,
}
use linbox.Prelude.Family.{update, update-same, update-other}
use mathlib.Core.Logic.{ite}
use native.Mathlib.Decide.{ℕ_discrete}

-- `fn_ptr` is whether the pointer to the function of that number is not NULL.
pub record Pointers : Type 0 where
  pub fn_ptr : ℕ → Bool
  pub resolving : Bool

-- Where a call stands, with the number of its function: not begun; before the test of the pointer, of
-- the flag, before the flag is set; in `dlsym`; before the flag is reset; behind the macro, or back
-- with -1 and errno EAGAIN.
pub data Call : Type 0 where
  idle : Call
  called unresolved marking searching found through refused : (symbol : ℕ) → Call

-- One step of one call; `finds` says which functions `dlsym` finds.
pub data Move (finds : ℕ → Bool) (m : Pointers) : Call → Pointers → Call → Type 0 where
  enter : {k : ℕ} → Move finds m idle m (called k)
  skip : {k : ℕ} → m.fn_ptr k ≡ true → Move finds m (called k) m (through k)
  miss : {k : ℕ} → m.fn_ptr k ≡ false → Move finds m (called k) m (unresolved k)
  fail : {k : ℕ} → m.resolving ≡ true → Move finds m (unresolved k) m (refused k)
  pass : {k : ℕ} → m.resolving ≡ false → Move finds m (unresolved k) m (marking k)
  mark : {k : ℕ} → Move finds m (marking k) (record m { resolving = true }) (searching k)
  search_next :
      {k : ℕ}
      → Move finds m (searching k) (record m { fn_ptr = update m.fn_ptr k (finds k) }) (found k)
  unmark : {k : ℕ} → Move finds m (found k) (record m { resolving = false }) (through k)

-- `abandoned` is no part of the program: whether a fork has left a call behind that had set the flag.
pub record Calls : Type 0 where
  pub mem : Pointers
  pub pc : ℕ → Call
  pub abandoned : Bool

-- Between the store that sets the flag and the one that resets it.
abbrev pub busy : Call → Bool
busy (searching k) = true
busy (found k) = true
busy _ = false

-- The calls that go on in the child of a fork: those of the thread that forks.
abbrev pub of_child : (ℕ → Bool) → (ℕ → Call) → ℕ → Call
of_child mine pc j = if mine j then pc j else idle

-- A step of a call; or a fork, with the memory of the process, after which the child is followed. All
-- calls that had set the flag are the forking thread's, or one is left behind.
pub data Step (finds : ℕ → Bool) (s : Calls) : Calls → Type 0 where
  pick :
      (i : ℕ) {m : Pointers} {p : Call}
      → Move finds s.mem (s.pc i) m p
      → Step finds s (record { mem = m; pc = update s.pc i p; abandoned = s.abandoned })
  fork_whole :
      (mine : ℕ → Bool)
      → ((j : ℕ) → busy (s.pc j) ≡ true → mine j ≡ true)
      → Step finds s (record { mem = s.mem; pc = of_child mine s.pc; abandoned = s.abandoned })
  fork_away :
      (mine : ℕ → Bool) (j : ℕ)
      → busy (s.pc j) ≡ true
      → mine j ≡ false
      → Step finds s (record { mem = s.mem; pc = of_child mine s.pc; abandoned = true })

-- The start of the process: nothing is looked up.
abbrev pub initial_calls : Calls
initial_calls = record {
  mem = record { fn_ptr = λ k. false; resolving = false };
  pc = λ i. idle;
  abandoned = false;
}

pub data Reach (finds : ℕ → Bool) : Calls → Type 0 where
  start : Reach finds initial_calls
  later : {s t : Calls} → Reach finds s → Step finds s t → Reach finds t
