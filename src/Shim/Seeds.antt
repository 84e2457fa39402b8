-- ===== src/Shim/Seeds.antt =====
-- Where a process's random bytes come from.
pub mod Running
pub mod Distinct
use linbox.Prelude.{
  ℕ, ◌≡◌, ◌≢◌, refl, sym, ap, ◌∙◌, arith, true, false, Option, none, some, ◌==◌, Bool-cases, inl,
  inr,
}
use linbox.Prelude.Int.{pos, ltb_ℤ}
use linbox.Prng.{Prng, seeded, derive_process_seed, fill}
use linbox.Prng.Seed.{seeded-IsLive}
use linbox.Shm.{Layout}
use linbox.Shm.Handle.{attach}
use linbox.Shim.{
  State, Boot, seed_of, connect_controller, seed_state, init_state, refresh_seed, prng_seed_value,
  ready_to_draw, random_fill, initial_state,
}

-- The value is always the one that the call leaves in `effective_seed`, and the generator stays.
refreshed :
    (pid : ℕ) (o : Option ℕ) (st : State)
    → let (seed, st') = refresh_seed pid o st in (seed ≡ st'.effective_seed) × (st'.prng ≡ st.prng)
unfolding refresh_seed
refreshed pid none st = (refl, refl)
refreshed pid (some shared) st = elim (Bool-cases (shared == st.shared_seed)) [
  | inl same ↦ rw same (refl, refl)
  | inr new ↦ rw new (refl, refl)
]

seed_value_effective :
    (boot : Boot) (st : State)
    → let (seed, st') = prng_seed_value boot st in
      (seed ≡ st'.effective_seed) × (st'.prng ≡ (init_state boot st).prng)
unfolding prng_seed_value
seed_value_effective boot st0 =
    let st = init_state boot st0 in
    refreshed boot.pid (seed_of st.controller_connected st.shm.layout) st

-- So a live generator is never seeded again here.
pub drawn_from :
    (boot : Boot) (st : State)
    → (init_state boot st).prng.state ≢ 0
    → (ready_to_draw boot st).prng ≡ (init_state boot st).prng
unfolding ready_to_draw
drawn_from boot st live =
    let (seed, st') = prng_seed_value boot st in
    let (same, kept) = seed_value_effective boot st in
    let e1 : (st'.prng.state == 0) ≡ false = ground (arith, kept) in
    let e2 : (st'.effective_seed == seed) ≡ true = ground (arith, same) in rw (e1, e2) kept

filled_from :
    (boot : Boot) (st : State) (len : ℕ)
    → (init_state boot st).prng.state ≢ 0
    → (random_fill boot st len).0 ≡ (fill (init_state boot st).prng len).0
unfolding random_fill
filled_from boot st len live = ap (λ (p : Prng). (fill p len).0) (drawn_from boot st live)

pub init_state_once : (boot : Boot) (st : State) → st.initialized ≡ true → init_state boot st ≡ st
unfolding init_state
init_state_once boot st i = rw i refl

-- A process whose state is set up and whose generator is live draws its bytes from that generator alone: no seed that the
-- controller publishes later changes them.
pub random_fill-keeps_generator :
    (boot : Boot) (st : State) (len : ℕ)
    → st.initialized ≡ true
    → st.prng.state ≢ 0
    → (random_fill boot st len).0 ≡ (fill st.prng len).0
random_fill-keeps_generator boot st len i live =
    let same = init_state_once boot st i in
    filled_from boot st len (λ e. live (ap (λ (s : State). s.prng.state) (sym same) ∙ e))
    ∙ ap (λ (s : State). (fill s.prng len).0) same

seeded_state :
    (pid : ℕ) (st : State) (o : Option ℕ)
    → seed_of st.controller_connected st.shm.layout ≡ o
    → (seed_state pid st).prng ≡ seeded (derive_process_seed (elim o [ none ↦ 0 | some x ↦ x ]) pid)
unfolding seed_state
seeded_state pid st o e = rw e refl

filled_seeded :
    (boot : Boot) (st : State) (len seed : ℕ)
    → (init_state boot st).prng ≡ seeded seed
    → (random_fill boot st len).0 ≡ (fill (seeded seed) len).0
filled_seeded boot st len seed e =
    let live = seeded-IsLive seed in
    filled_from boot st len (λ z. absurd (omega (arith, live.0, ap (λ (p : Prng). p.state) e, z)))
    ∙ ap (λ (p : Prng). (fill p len).0) e

-- The first bytes of a process that reaches the controller and maps the shared memory are fixed by the seed in the shared
-- memory and the process's id.
pub random_fill-first :
    (boot : Boot) (mem : Layout) (len : ℕ)
    → ltb_ℤ (connect_controller boot).0 (pos 0) ≡ false
    → (attach boot.kernel true initial_state.shm).rc ≡ pos 0
    → (attach boot.kernel true initial_state.shm).handle.layout ≡ some mem
    → (random_fill boot initial_state len).0
      ≡ (fill (seeded (derive_process_seed mem.prng_seed boot.pid)) len).0
unfolding init_state seed_of
random_fill-first boot mem len fd rc m =
    let joined : State = record initial_state {
      controller_fd = (connect_controller boot).0;
      controller_connected = true;
      shm = (attach boot.kernel true initial_state.shm).handle;
    } in
    filled_seeded boot initial_state len (derive_process_seed mem.prng_seed boot.pid)
      (rw (fd, rc) (seeded_state boot.pid joined (some mem.prng_seed) (rw m refl)))

-- Without the controller they are fixed by the process's id.
pub random_fill-alone :
    (boot : Boot) (len : ℕ)
    → ltb_ℤ (connect_controller boot).0 (pos 0) ≡ true
    → (random_fill boot initial_state len).0
      ≡ (fill (seeded (derive_process_seed 0 boot.pid)) len).0
unfolding init_state seed_of
random_fill-alone boot len fd =
    let alone : State = record initial_state {
      controller_fd = (connect_controller boot).0;
      controller_connected = false;
    } in
    filled_seeded boot initial_state len (derive_process_seed 0 boot.pid)
      (rw fd (seeded_state boot.pid alone none refl))
