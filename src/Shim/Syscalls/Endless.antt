-- ===== src/Shim/Syscalls/Endless.antt =====
-- The direct `clock_gettime` of src/shim itself: in `linbox_init_state` and, when the C library's
-- function has not been looked up, in `linbox_fallback_now`. Under the filter it is trapped like any
-- other, and the handler asks for the time again. A depth bounds how often that may nest.
use linbox.Prelude.{
  ℕ, zero, suc, ◌≡◌, refl, ap, ◌∙◌, arith, Bool, true, false, not, ◌&&◌, ◌||◌, Option, none, some,
  ◌==◌, Bool-cases, inl, inr, if◌then◌else◌,
}
use linbox.Prelude.Int.{negsuc}
use linbox.Shm.{Timespec, Layout}
use linbox.Shim.{State, Boot, init_state, reinit_state, no_handle}
use linbox.Shim.Clock.{Answer, virtual_now, clock_source}
use linbox.Shim.Filter.{run_filter, filter, ret_trap, nr_clock_gettime, filter-verdict}

-- Whether a verdict is SECCOMP_RET_TRAP.
abbrev is_trap : Option ℕ → Bool
is_trap none = false
is_trap (some verdict) = verdict == ret_trap

-- Whether the shim's own call is trapped; `filtered` says that the filter is in place.
pub traps_clock : Bool → Bool
traps_clock filtered = filtered && is_trap (run_filter nr_clock_gettime 0 0 filter)

-- `linbox_init_state`, whose first call comes back to it by way of `linbox_virtual_clock_gettime`
-- when it is trapped, and then goes on with the rest, whatever that has set up; `none` where the depth
-- is not enough.
pub init_within : ℕ → Bool → Boot → State → Option State
init_within zero filtered boot st = none
init_within (suc depth) filtered boot st =
    let nested = init_within depth filtered boot st in
    if st.initialized
    then some st
    else if traps_clock filtered
    then elim nested [
      | none ↦ none
      | some st' ↦ some (init_state boot (record st' { initialized = false }))
    ]
    else some (init_state boot st)

-- `linbox_reinit_state`, in the child after a fork
pub reinit_within : ℕ → Bool → Boot → State → Option State
reinit_within depth filtered boot st = init_within depth filtered boot (record st {
  controller_fd = negsuc 0;
  controller_connected = false;
  initialized = false;
  prng = record { state = 0 };
  effective_seed = 0;
  shm = no_handle;
})

-- The time of the memory if there is any, else the real one, which comes back by `nested` when it
-- cannot be had otherwise.
abbrev now_or :
    Bool → Option (Answer × State) → Option Layout → Answer × State → Option (Answer × State)
now_or direct nested (some mem) now = some now
now_or direct nested none now = if direct then some now else nested

-- `linbox_virtual_now` with `linbox_fallback_now`; `resolved` says that `g_real_clock_gettime` is
-- set, and `real` is what that gives, or the kernel where it is not.
pub now_within : ℕ → Bool → Bool → Boot → Option Timespec → State → Option (Answer × State)
now_within zero filtered resolved boot real st0 = none
now_within (suc depth) filtered resolved boot real st0 =
    elim (init_within depth filtered boot st0) [
      | none ↦ none
      | some st ↦
          now_or (resolved || not (traps_clock filtered))
            (now_within depth filtered resolved boot real st)
            (clock_source st.controller_connected st.shm.layout) (virtual_now boot real st)
    ]

traps_clock_lem : (filtered : Bool) → traps_clock filtered ≡ filtered
unfolding traps_clock
traps_clock_lem filtered = rw (filter-verdict nr_clock_gettime) (ground arith)

init-endless :
    (depth : ℕ) (boot : Boot) (st : State)
    → st.initialized ≡ false
    → init_within depth true boot st ≡ none
unfolding init_within
init-endless zero boot st i = refl
init-endless (suc depth) boot st i =
    let again = init-endless depth boot st i in rw (again, traps_clock_lem true) (rw i refl)

-- In a process with the filter, the child of a fork never gets through setting up its state again:
-- no depth is enough. Without the filter it does at once.
pub reinit_within-filtered :
    (depth : ℕ) (boot : Boot) (st : State)
    → (reinit_within depth true boot st ≡ none)
      × (reinit_within (suc depth) false boot st ≡ some (reinit_state boot st))
unfolding reinit_within reinit_state init_within
reinit_within-filtered depth boot st =
    (init-endless depth boot _ refl, rw (traps_clock_lem false) refl)

init_within-done :
    (depth : ℕ) (filtered : Bool) (boot : Boot) (st : State)
    → st.initialized ≡ true
    → init_within (suc depth) filtered boot st ≡ some st
unfolding init_within
init_within-done depth filtered boot st i = rw i refl

-- A round of the question, in a process whose state is set up and that has no controller.
alone_round :
    (depth : ℕ) (filtered resolved : Bool) (boot : Boot) (real : Option Timespec) (st : State)
    → st.initialized ≡ true
    → st.controller_connected ≡ false
    → now_within (suc (suc depth)) filtered resolved boot real st ≡ (
        if resolved || not filtered
        then some (virtual_now boot real st)
        else now_within (suc depth) filtered resolved boot real st)
unfolding now_within clock_source
alone_round depth filtered resolved boot real st i c =
    ap
      (λ (o : Option State). elim o [
        | none ↦ none
        | some s ↦
            now_or (resolved || not (traps_clock filtered))
              (now_within (suc depth) filtered resolved boot real s)
              (clock_source s.controller_connected s.shm.layout) (virtual_now boot real s)
      ])
      (init_within-done depth filtered boot st i)
    ∙ rw (traps_clock_lem filtered) (
        ap
          (λ connected.
            now_or (resolved || not filtered)
              (now_within (suc depth) filtered resolved boot real st)
              (clock_source connected st.shm.layout) (virtual_now boot real st))
          c)

endless :
    (depth : ℕ) (filtered resolved : Bool) (boot : Boot) (real : Option Timespec) (st : State)
    → st.initialized ≡ true
    → st.controller_connected ≡ false
    → (resolved || not filtered) ≡ false
    → now_within (suc depth) filtered resolved boot real st ≡ none
endless zero filtered resolved boot real st i c lost = unfold now_within init_within in refl
endless (suc depth) filtered resolved boot real st i c lost =
    alone_round depth filtered resolved boot real st i c
    ∙ rw lost (endless depth filtered resolved boot real st i c lost)

-- A process whose state is set up, without the controller, that never looked up the C library's
-- `clock_gettime`, asks itself for the time without end when the filter is in place: no depth is
-- enough. If the function was looked up, or without the filter, it gets its answer within a depth of
-- two.
pub now_within-alone :
    (depth : ℕ) (filtered resolved : Bool) (boot : Boot) (real : Option Timespec) (st : State)
    → st.initialized ≡ true
    → st.controller_connected ≡ false
    → now_within (suc (suc depth)) filtered resolved boot real st
      ≡ (if resolved || not filtered then some (virtual_now boot real st) else none)
now_within-alone depth filtered resolved boot real st i c =
    alone_round depth filtered resolved boot real st i c
    ∙ elim (Bool-cases (resolved || not filtered)) [
      | inl direct ↦ rw direct refl
      | inr lost ↦ rw lost (endless depth filtered resolved boot real st i c lost)
    ]
