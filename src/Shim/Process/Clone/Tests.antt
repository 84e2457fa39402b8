-- ===== src/Shim/Process/Clone/Tests.antt =====
-- `clone` of src/shim/process.c at concrete flags.
use linbox.Prelude.{ℕ, ◌≡◌, ◌↔◌, false}
use linbox.Shim.Process.{is_process}
use linbox.Shim.Process.Clone.{waits, broken, Cloning, Reach}
use linbox.Shim.Process.Clone.Invariant.{Reach-broken_iff}

abbrev entry : ℕ
entry = 100

abbrev context : ℕ
context = 200

Reach-broken_iff_example :
    ((s : Cloning) × Reach entry context 0x100 s × (s.child ≡ broken))
    ↔ ((is_process 0x100 ≡ false) × (waits 0x100 ≡ false))
Reach-broken_iff_example = Reach-broken_iff entry context 0x100
