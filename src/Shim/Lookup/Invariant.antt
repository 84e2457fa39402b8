-- ===== src/Shim/Lookup/Invariant.antt =====
-- What holds of the calls of src/shim/resolve.h, however they interleave.
use linbox.Prelude.{
  ℕ, ◌≡◌, ◌≢◌, refl, sym, ap, ◌∙◌, arith, Bool, true, false, inl, inr, ◌⊎◌, if◌then◌else◌,
}
use mathlib.Core.Path.{subst}
use linbox.Prelude.Family.{update, update-same}
use mathlib.Core.Logic.{ite}
use native.Mathlib.Decide.{ℕ_discrete}
use linbox.Shim.Lookup.{
  Pointers, Call, idle, unresolved, searching, found, through, refused, Move, skip, fail, mark,
  search_next, unmark, Calls, pick, fork_whole, fork_away, Reach, start, later, busy,
}

-- What a call has made sure of.
abbrev Knows : (ℕ → Bool) → Pointers → Call → Type 0
Knows finds m (found k) = m.fn_ptr k ≡ finds k
Knows finds m (through k) = m.fn_ptr k ≡ finds k
Knows finds m _ = Unit

record Inv (finds : ℕ → Bool) (m : Pointers) (pc : ℕ → Call) (lost : Bool) : Type 0 where
  right : (k : ℕ) → m.fn_ptr k ≡ true → finds k ≡ true
  knows : (i : ℕ) → Knows finds m (pc i)
  marked : m.resolving ≡ true → ((i : ℕ) × (busy (pc i) ≡ true)) ⊎ (lost ≡ true)

-- What a call knows stays true while other calls go on.
Knows-kept :
    (finds : ℕ → Bool) (m m' : Pointers) (p : Call)
    → ((k : ℕ) → m.fn_ptr k ≡ finds k → m'.fn_ptr k ≡ finds k)
    → Knows finds m p
    → Knows finds m' p
Knows-kept finds m m' (found k) same h = same k h
Knows-kept finds m m' (through k) same h = same k h
Knows-kept finds m m' _ same h = tt

module _ {finds : ℕ → Bool} {m : Pointers} {pc : ℕ → Call} {lost : Bool} (inv : Inv finds m pc lost)
    (i : ℕ) where
  open inv use {right, knows, marked}

  Move-right :
      {p p' : Call} {m' : Pointers}
      → Move finds m p m' p'
      → (q : ℕ) → m'.fn_ptr q ≡ true
      → finds q ≡ true
  Move-right (search_next {k}) q e = ground (arith, right q)
  Move-right mv q e = right q e

  -- What the call that moves knows afterwards, and what all others still do.
  Move-own :
      {p p' : Call} {m' : Pointers} → Move finds m p m' p' → Knows finds m p → Knows finds m' p'
  Move-own (skip {k} e) own = e ∙ sym (right k e)
  Move-own (search_next {k}) own = update-same m.fn_ptr k (finds k)
  Move-own unmark own = own
  Move-own mv own = tt

  Move-same :
      {p p' : Call} {m' : Pointers}
      → Move finds m p m' p'
      → (q : ℕ) → m.fn_ptr q ≡ finds q
      → m'.fn_ptr q ≡ finds q
  Move-same (search_next {k}) q e = ground arith
  Move-same mv q e = e

  Move-Knows :
      {p' : Call} {m' : Pointers}
      → Move finds m (pc i) m' p'
      → (j : ℕ) (d : Dec (i ≡ j)) → Knows finds m' (ite d p' (pc j))
  Move-Knows mv j (yes here) = Move-own mv (knows i)
  Move-Knows {m' = m'} mv j (no there) = Knows-kept finds m m' (pc j) (Move-same mv) (knows j)

  Move-marked :
      {p p' : Call} {m' : Pointers}
      → Move finds m p m' p'
      → pc i ≡ p
      → m'.resolving ≡ true
      → ((j : ℕ) × (busy (update pc i p' j) ≡ true)) ⊎ (lost ≡ true)
  Move-marked (mark {k}) here e = inl (i, ap busy (update-same pc i (searching k)))
  Move-marked (search_next {k}) here e = inl (i, ap busy (update-same pc i (found k)))
  Move-marked unmark here e = cc
  Move-marked mv here e = elim (marked e) [ inl (j, b) ↦ inl (j, ground arith) | inr l ↦ inr l ]

Knows-child :
    (finds : ℕ → Bool) (m : Pointers) (b : Bool) (p : Call)
    → Knows finds m p
    → Knows finds m (if b then p else idle)
Knows-child finds m true p h = h
Knows-child finds m false p h = tt

Reach-Inv : {finds : ℕ → Bool} {s : Calls} → Reach finds s → Inv finds s.mem s.pc s.abandoned
Reach-Inv start = record { right = λ k e. cc; knows = λ i. tt; marked = λ e. cc }
Reach-Inv (later {s} r (pick i mv)) =
    let inv = Reach-Inv r in
    record {
      right = Move-right inv i mv;
      knows = λ j. Move-Knows inv i mv j (ℕ_discrete i j);
      marked = Move-marked inv i mv refl;
    }
Reach-Inv {finds} (later {s} r (fork_whole mine all)) =
    let inv = Reach-Inv r in
    record {
      right = inv.right;
      knows = λ j. Knows-child finds s.mem (mine j) (s.pc j) (inv.knows j);
      marked = λ e. elim (inv.marked e) [
        | inl (j, b) ↦ inl (j, let here = all j b in rw here b)
        | inr l ↦ inr l
      ];
    }
Reach-Inv {finds} (later {s} r (fork_away mine j b gone)) =
    let inv = Reach-Inv r in
    record {
      right = inv.right;
      knows = λ j. Knows-child finds s.mem (mine j) (s.pc j) (inv.knows j);
      marked = λ e. inr refl;
    }

refused_by :
    {finds : ℕ → Bool} {m m' : Pointers} {p : Call} {k : ℕ}
    → Move finds m p m' (refused k)
    → m.resolving ≡ true
refused_by (fail e) = e

-- However the calls interleave, one that is behind the macro has the pointer to its function, if
-- `dlsym` finds that; and NULL, which the wrapper goes on to call, if it does not.
pub Reach-through :
    {finds : ℕ → Bool} {s : Calls} (i k : ℕ)
    → Reach finds s
    → s.pc i ≡ through k
    → s.mem.fn_ptr k ≡ finds k
Reach-through {finds} {s} i k r e = subst (Knows finds s.mem) e ((Reach-Inv r).knows i)

-- A call is refused with EAGAIN only while another one, of any function, is between setting the flag
-- and resetting it, or if a fork has left such a call behind, in the process or in one that it comes
-- from: without such a fork, one that no thread and no `dlsym` comes in between is never refused.
pub Move-refused :
    {finds : ℕ → Bool} {s : Calls} {m : Pointers} (i k : ℕ)
    → Reach finds s
    → s.pc i ≡ unresolved k
    → Move finds s.mem (s.pc i) m (refused k)
    → ((j : ℕ) × (i ≢ j) × (busy (s.pc j) ≡ true)) ⊎ (s.abandoned ≡ true)
Move-refused {s = s} i k r here mv = elim ((Reach-Inv r).marked (refused_by mv)) [
  | inl (j, b) ↦ inl (j, λ same. ground (arith, here, b, same), b)
  | inr l ↦ inr l
]
