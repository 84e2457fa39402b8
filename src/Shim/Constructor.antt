-- ===== src/Shim/Constructor.antt =====
-- src/shim/linbox.c: what happens when the library is loaded, `linbox_ctor`; its messages are left out.
use linbox.Prelude.{
  ℕ, ◌≡◌, ◌↔◌, refl, arith, Bool, true, false, not, ◌&&◌, Option, none, some, List, [], ◌∷◌,
  if◌then◌else◌, Bool-cases, inl, inr,
}
use linbox.Prelude.Int.{ℤ, pos}
use linbox.Shm.Handle.{is_zero}
use linbox.Shim.{State, Boot, init_state, seed_state}
use linbox.Shim.Filter.{install_seccomp}
use linbox.Shim.Syscalls.{install_sigsys_handler}
use linbox.Shim.Environment.{same_bytes}

-- `linbox_seccomp_enabled`, by what `getenv` gives for LINBOX_DISABLE_SECCOMP; 48 is the code of `0`.
pub seccomp_enabled : Option (List ℕ) → Bool
seccomp_enabled none = true
seccomp_enabled (some disable) = same_bytes disable (48 ∷ [])

-- The state with its last two fields.
pub record Loaded : Type 0 where
  pub state : State
  pub sigsys_installed : Bool
  pub seccomp_installed : Bool

-- What `sigaction` and the two calls of `prctl` give.
pub record Installing : Type 0 where
  pub sigaction_rc : ℤ
  pub no_new_privs_rc : ℤ
  pub set_seccomp_rc : ℤ

-- `linbox_ctor`
pub load_shim : Boot → Option (List ℕ) → Installing → State → Loaded
load_shim boot disable sys st0 =
    let st = init_state boot st0 in
    let handler = install_sigsys_handler sys.sigaction_rc in
    let filter = install_seccomp sys.no_new_privs_rc sys.set_seccomp_rc in
    if seccomp_enabled disable
    then (if is_zero handler.0
        then record { state = st; sigsys_installed = handler.1; seccomp_installed = filter.1 }
        else record { state = st; sigsys_installed = handler.1; seccomp_installed = false })
    else record { state = st; sigsys_installed = false; seccomp_installed = false }

init_state-initialized : (boot : Boot) (st : State) → (init_state boot st).initialized ≡ true
unfolding init_state seed_state
init_state-initialized boot st = ground arith

-- Loading the library sets its state up first. The filter is in place afterwards just if it is not
-- disabled and each of the three calls works, and never without the handler that its traps need.
pub load_shim-guarded :
    (boot : Boot) (disable : Option (List ℕ)) (sys : Installing) (st : State)
    → let loaded = load_shim boot disable sys st in
      (loaded.state.initialized ≡ true)
      × ((loaded.seccomp_installed ≡ true) ↔ (
          (seccomp_enabled disable ≡ true)
          × (sys.sigaction_rc ≡ pos 0)
          × (sys.no_new_privs_rc ≡ pos 0)
          × (sys.set_seccomp_rc ≡ pos 0)))
      × ((loaded.seccomp_installed && not loaded.sigsys_installed) ≡ false)
unfolding load_shim install_sigsys_handler install_seccomp
load_shim-guarded boot disable sys st =
    let init = init_state-initialized boot st in
    elim (Bool-cases (seccomp_enabled disable)) [
      | inr off ↦ rw off (init, ground arith, refl)
      | inl on ↦ elim (Bool-cases (is_zero sys.sigaction_rc)) [
        | inr bad ↦ rw (on, bad) (init, ground arith, refl)
        | inl good ↦ rw (on, good) (init, ground arith, ground arith)
      ]
    ]
