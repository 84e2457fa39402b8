-- ===== src/Shim/Seeds/Running.antt =====
-- A process at work: what its draws leave as it is.
use linbox.Prelude.{
  ℕ, zero, suc, ◌+◌, ◌/◌, ◌≡◌, refl, sym, ap, ◌∙◌, arith, Bool, true, false, Option, none, some,
  List, if◌then◌else◌, ◌==◌, ◌||◌, not, Bool-cases, inl, inr,
}
use mathlib.Core.Path.{subst}
use mathlib.Core.Option
use linbox.Prng.{Prng, next_u64, fill, uniform}
use linbox.Prng.Fill.{advance, fill-stream}
use linbox.Prng.State.{IsLive, next_u64-IsLive}
use linbox.Shm.Handle.{Handle}
use linbox.Controller.TimeManager.{TimeManager}
use linbox.Shim.{
  State, Boot, init_state, refresh_seed, prng_seed_value, random_reseed, ready_to_draw, random_fill,
  random_uniform, seed_of,
}
use linbox.Shim.Seeds.{init_state_once, drawn_from}

-- A process in which the library is at work, and that shares the memory of a controller.
pub record IsRunning (tm : TimeManager) (st : State) : Type 0 where
  pub initialized : st.initialized ≡ true
  pub connected : st.controller_connected ≡ true
  pub shared : st.shm.layout ≡ tm.shm.layout
  pub live : IsLive st.prng

-- What a draw has no part in.
abbrev apart : State → Bool × Bool × Handle
apart st = (st.initialized, st.controller_connected, st.shm)

refresh-apart : (pid : ℕ) (o : Option ℕ) (st : State) → apart (refresh_seed pid o st).1 ≡ apart st
unfolding refresh_seed
refresh-apart pid none st = refl
refresh-apart pid (some shared) st = elim (Bool-cases (shared == st.shared_seed)) [
  | inl same ↦ rw same refl
  | inr new ↦ rw new refl
]

reseed-apart :
    (b : Bool) (seed : ℕ) (st : State) → apart (if b then random_reseed seed st else st) ≡ apart st
unfolding random_reseed
reseed-apart true seed st = refl
reseed-apart false seed st = refl

ready-apart :
    (boot : Boot) (st : State) → st.initialized ≡ true → apart (ready_to_draw boot st) ≡ apart st
unfolding ready_to_draw prng_seed_value
ready-apart boot st i =
    let s = init_state boot st in
    let (seed, s') = prng_seed_value boot st in
    reseed-apart (s'.prng.state == 0 || not (s'.effective_seed == seed)) seed s'
    ∙ refresh-apart boot.pid (seed_of s.controller_connected s.shm.layout) s
    ∙ ap apart (init_state_once boot st i)

advance-IsLive : (n : ℕ) (g : Prng) → IsLive g → IsLive (advance n g)
unfolding advance
advance-IsLive zero g h = h
advance-IsLive (suc n) g h = advance-IsLive n (next_u64 g).1 (next_u64-IsLive g h).1

fill-IsLive : (len : ℕ) (g : Prng) → IsLive g → IsLive (fill g len).1
fill-IsLive len g h =
    subst IsLive (sym (ap (λ (r : List ℕ × Prng). r.1) (fill-stream g len).0))
      (advance-IsLive ((len + 7) / 8) g h)

-- A process whose state is set up, with a live generator.
abbrev pub IsAwake : State → Type 0
IsAwake st = (st.initialized ≡ true) × IsLive st.prng

ready-prng : (boot : Boot) (st : State) → IsAwake st → (ready_to_draw boot st).prng ≡ st.prng
ready-prng boot st (i, live) =
    let once = init_state_once boot st i in
    drawn_from boot st (λ e. omega (arith, live.0, ap (λ (s : State). s.prng.state) (sym once) ∙ e))
    ∙ ap (λ (s : State). s.prng) once

-- It draws from its generator alone, whatever seed is published meanwhile, and stays awake.
pub random_fill-IsAwake :
    (boot : Boot) (st : State) (len : ℕ)
    → IsAwake st
    → IsAwake (random_fill boot st len).1
      × ((random_fill boot st len).0 ≡ (fill st.prng len).0)
      × ((random_fill boot st len).1.prng ≡ (fill st.prng len).1)
unfolding random_fill
random_fill-IsAwake boot st len (i, live) =
    let same = ready-prng boot st (i, live) in
    let next = ap (λ g. (fill g len).1) same in
    (
      (
        ap (λ (a : Bool × Bool × Handle). a.0) (ready-apart boot st i) ∙ i,
        subst IsLive (sym next) (fill-IsLive len st.prng live),
      ),
      ap (λ g. (fill g len).0) same,
      next,
    )

abbrev pub continued : State → ℕ × Prng → ℕ × State
continued s (r, prng) = (r, record s { prng = prng })

-- The same for a draw below a bound, on any fuel.
pub random_uniform-drawn :
    (fuel : ℕ) (boot : Boot) (st : State) (bound : ℕ)
    → IsAwake st
    → random_uniform fuel boot st bound
      ≡ Option.map (continued (ready_to_draw boot st)) (uniform fuel st.prng bound)
unfolding random_uniform
random_uniform-drawn fuel boot st bound awake =
    ap (λ g. Option.map (continued (ready_to_draw boot st)) (uniform fuel g bound))
      (ready-prng boot st awake)

pub ready-initialized :
    (boot : Boot) (st : State) → st.initialized ≡ true → (ready_to_draw boot st).initialized ≡ true
ready-initialized boot st i = ap (λ (a : Bool × Bool × Handle). a.0) (ready-apart boot st i) ∙ i

-- A process at work with a controller stays so when it draws.
pub random_fill-IsRunning :
    (boot : Boot) (tm : TimeManager) (st : State) (len : ℕ)
    → IsRunning tm st
    → IsRunning tm (random_fill boot st len).1
      × ((random_fill boot st len).0 ≡ (fill st.prng len).0)
      × ((random_fill boot st len).1.prng ≡ (fill st.prng len).1)
unfolding random_fill
random_fill-IsRunning boot tm st len run =
    let kept = ready-apart boot st run.initialized in
    let (awake, bytes, next) = random_fill-IsAwake boot st len (run.initialized, run.live) in
    (
      record {
        initialized = awake.0;
        connected = ap (λ (a : Bool × Bool × Handle). a.1) kept ∙ run.connected;
        shared = ap (λ (a : Bool × Bool × Handle). a.2.layout) kept ∙ run.shared;
        live = awake.1;
      },
      bytes,
      next,
    )
