-- ===== src/Programs/RandomPreload/Tests.antt =====
-- A run of src/shim/random.preload.c.
use linbox.Prelude.{◌≡◌, refl, false, arith}
use linbox.Prng.{Prng}
use linbox.Shim.Samples.{boot, running}
use linbox.Shim.Descriptors.{initial_table, initial_table-InPlace}
use linbox.Shim.Descriptors.Files.{FileState, all_used}
use linbox.Programs.RandomPreload.{random_main}
use linbox.Programs.RandomPreload.Repeatable.{expected, random_main-repeatable}

abbrev fresh : FileState
fresh = record { shim = running; table = initial_table }

abbrev generator : Prng
generator = record { state = 12345 }

free : all_used initial_table ≡ false
unfolding all_used
free = refl

random_main-repeatable_example : random_main 2 boot fresh ≡ expected 2 generator
random_main-repeatable_example =
    random_main-repeatable 2 boot fresh (refl, (omega arith, omega arith)) initial_table-InPlace
      free
