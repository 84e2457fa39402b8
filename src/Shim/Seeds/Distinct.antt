-- ===== src/Shim/Seeds/Distinct.antt =====
-- The first bytes of different processes under one seed.
use linbox.Prelude.{ℕ, ◌^◌, ◌≤◌, ◌<◌, ◌≡◌, ◌≢◌, sym, ap, ◌∙◌, refl, arith, true, false, some, take}
use linbox.Prelude.Int.{pos, negsuc, ltb_ℤ}
use linbox.Prng.{Prng, next_u64, seeded, derive_process_seed, fill}
use linbox.Prng.Fill.{fill_first}
use linbox.Prng.Period.{le_bytes_cancel}
use linbox.Prng.Seed.{seeded-IsLive}
use linbox.Prng.State.{next_u64-IsLive}
use linbox.Prng.Distinct.{seeded-distinct}
use linbox.Shm.{Layout}
use linbox.Shm.Handle.{attach}
use linbox.Shim.{
  State, Boot, connect_controller, no_handle, seed_of, seed_state, init_state, reinit_state,
  random_fill, initial_state,
}
use linbox.Shim.Seeds.{random_fill-keeps_generator, random_fill-first}

-- A process that reaches the controller and maps that memory.
pub record Joins (boot : Boot) (mem : Layout) : Type 0 where
  pub connected : ltb_ℤ (connect_controller boot).0 (pos 0) ≡ false
  pub attached : (attach boot.kernel true initial_state.shm).rc ≡ pos 0
  pub mapped : (attach boot.kernel true initial_state.shm).handle.layout ≡ some mem

-- How a process comes to its first draw: by a program that has just been loaded, or by a fork, in
-- whose child the library sets its state up again.
pub data Starts (boot : Boot) : State → Type 0 where
  loaded : Starts boot initial_state
  forked : (parent : State) → Starts boot (reinit_state boot parent)

-- A state of a process without a connection, set up with the memory of a controller.
set_up :
    (boot : Boot) (mem : Layout) (st : State)
    → Joins boot mem
    → st.initialized ≡ false
    → st.shm ≡ no_handle
    → ((init_state boot st).initialized ≡ true)
      × ((init_state boot st).prng ≡ seeded (derive_process_seed mem.prng_seed boot.pid))
unfolding init_state seed_state seed_of
set_up boot mem st joins fresh unmapped =
    rw (fresh, joins.connected, unmapped, joins.attached, joins.mapped) (refl, refl)

first_draw :
    (boot : Boot) (mem : Layout) (st : State) (len : ℕ)
    → Joins boot mem
    → Starts boot st
    → (random_fill boot st len).0
      ≡ (fill (seeded (derive_process_seed mem.prng_seed boot.pid)) len).0
unfolding reinit_state
first_draw boot mem _ len joins loaded =
    random_fill-first boot mem len joins.connected joins.attached joins.mapped
first_draw boot mem _ len joins (forked parent) =
    let (ready, generator) =
      set_up boot mem
        (record parent {
          controller_fd = negsuc 0;
          controller_connected = false;
          initialized = false;
          prng = record { state = 0 };
          effective_seed = 0;
          shm = no_handle;
        })
        joins refl refl in
    let live = seeded-IsLive (derive_process_seed mem.prng_seed boot.pid) in
    random_fill-keeps_generator boot (reinit_state boot parent) len ready
      (λ e. omega (arith, live.0, ap (λ (g : Prng). g.state) generator, e))
    ∙ ap (λ g. (fill g len).0) generator

-- Two processes with distinct ids that both reach the controller, and find the same seed in the
-- memory, never get the same random bytes by their first draws, from eight bytes on, be their programs
-- just loaded or they themselves just forked.
pub random_fill-distinct :
    (boot boot' : Boot) (mem mem' : Layout) (st st' : State) (len : ℕ)
    → Joins boot mem
    → Joins boot' mem'
    → Starts boot st
    → Starts boot' st'
    → mem.prng_seed ≡ mem'.prng_seed
    → mem.prng_seed < 2 ^ 64
    → boot.pid < 2 ^ 32
    → boot'.pid < 2 ^ 32
    → boot.pid ≢ boot'.pid
    → 8 ≤ len
    → (random_fill boot st len).0 ≢ (random_fill boot' st' len).0
random_fill-distinct boot boot' mem mem' st st' len joins joins' starts starts' seeds small pid pid'
      ne long same =
    let g = seeded (derive_process_seed mem.prng_seed boot.pid) in
    let g' = seeded (derive_process_seed mem.prng_seed boot'.pid) in
    let bytes : (random_fill boot st len).0 ≡ (fill g len).0 =
      first_draw boot mem st len joins starts in
    let bytes' : (random_fill boot' st' len).0 ≡ (fill g' len).0 =
      first_draw boot' mem' st' len joins' starts'
      ∙ ap (λ s. (fill (seeded (derive_process_seed s boot'.pid)) len).0) (sym seeds) in
    seeded-distinct mem.prng_seed boot.pid boot'.pid small pid pid' ne (
      le_bytes_cancel (next_u64 g).0 (next_u64 g').0 (next_u64-IsLive g (seeded-IsLive _)).0
        (next_u64-IsLive g' (seeded-IsLive _)).0
        (sym (fill_first g len long)
          ∙ ap (take 8) (sym bytes ∙ same ∙ bytes')
          ∙ fill_first g' len long))
