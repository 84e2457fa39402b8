-- ===== src/Shim/Process/Clone.antt =====
-- `clone` and `linbox_clone_entry` of src/shim/process.c at once: the caller and the child, whose
-- accesses to the start record interleave in any order.
pub mod Invariant
mod Tests
use linbox.Prelude.{
  ℕ, ◌≡◌, ◌≢◌, ◌↔◌, ◌⊎◌, inl, inr, refl, sym, ap, ◌∙◌, arith, Bool, true, false, not, Option, none,
  some, ◌==◌, if◌then◌else◌, bit_and, Bool-cases,
}
use linbox.Shim.Process.{is_process}

-- CLONE_VFORK: the kernel does not let the caller go on before the child has ended.
abbrev clone_vfork : ℕ
clone_vfork = 0x4000

pub waits : ℕ → Bool
waits flags = not (bit_and flags clone_vfork == 0)

-- `linbox_clone_start_t`; a function and its argument are their addresses.
pub record CloneStart : Type 0 where
  pub fn : ℕ
  pub arg : ℕ
  pub is_process : Bool

-- `*start`, as `clone` fills it
abbrev pub filled : ℕ → ℕ → ℕ → CloneStart
filled fn arg flags = record { fn = fn; arg = arg; is_process = is_process flags }

-- The caller: before the C library's `clone`; back from it with a child, or with -1; behind `free`.
pub data Caller : Type 0 where
  calling cloned failed done : Caller

-- The child: not there; before the test of `is_process`; before `linbox_after_fork_in_child`; before
-- the call of `fn`; in it; at its end; or behind a read of memory that is freed.
pub data Child : Type 0 where
  unborn entered registering ready : Child
  running : (fn arg : ℕ) → Child
  ended broken : Child

-- `start` is the record in the caller's memory, `none` once it is freed; `copy` is the one in the
-- memory of a child that has its own. `registered` is what `linbox_send_register_process` came to in the
-- child, which nobody looks at; `none` before it is called.
pub record Cloning : Type 0 where
  pub caller : Caller
  pub child : Child
  pub start : Option CloneStart
  pub copy : Option CloneStart
  pub registered : Option Bool

-- What the child sees at `start`.
abbrev pub seen : ℕ → Cloning → Option CloneStart
seen flags s = if is_process flags then s.copy else s.start

pub data Step (flags : ℕ) (s : Cloning) : Cloning → Type 0 where
  spawn :
      s.caller ≡ calling
      → Step flags s (record s { caller = cloned; child = entered; copy = s.start })
  refuse : s.caller ≡ calling → Step flags s (record s { caller = failed })
  release :
      s.caller ≡ cloned
      → (waits flags ≡ false) ⊎ (s.child ≡ ended)
      → Step flags s (record s { caller = done; start = none })
  give_up : s.caller ≡ failed → Step flags s (record s { caller = done; start = none })
  read_kind :
      {r : CloneStart}
      → s.child ≡ entered
      → seen flags s ≡ some r
      → Step flags s (record s { child = if r.is_process then registering else ready })
  register :
      (accepted : Bool)
      → s.child ≡ registering
      → Step flags s (record s { child = ready; registered = some accepted })
  read_fn :
      {r : CloneStart}
      → s.child ≡ ready
      → seen flags s ≡ some r
      → Step flags s (record s { child = running r.fn r.arg })
  read_freed :
      (s.child ≡ entered) ⊎ (s.child ≡ ready)
      → seen flags s ≡ none
      → Step flags s (record s { child = broken })
  finish : {f a : ℕ} → s.child ≡ running f a → Step flags s (record s { child = ended })

-- `clone` with its record filled.
abbrev pub prepared : ℕ → ℕ → ℕ → Cloning
prepared fn arg flags = record {
  caller = calling;
  child = unborn;
  start = some (filled fn arg flags);
  copy = none;
  registered = none;
}

pub data Reach (fn arg flags : ℕ) : Cloning → Type 0 where
  start_up : Reach fn arg flags (prepared fn arg flags)
  later : {s t : Cloning} → Reach fn arg flags s → Step flags s t → Reach fn arg flags t
