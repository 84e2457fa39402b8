-- ===== src/Shim/Random/Tests.antt =====
-- The random functions of the C library at concrete inputs.
use linbox.Prelude.{false, ◌≡◌, refl}
use linbox.Prng.{seeded}
use linbox.Shim.Samples.{boot, running}
use linbox.Shim.Random.{RandState, srand, rands}
use linbox.Shim.Random.Sequence.{words, rands-srand}

abbrev drawing : RandState
drawing = record { shim = running; rand_seeded = false }

rands-srand_example : rands 3 boot (srand 42 drawing) ≡ words 3 (seeded 42)
rands-srand_example = rands-srand 3 42 boot drawing refl
