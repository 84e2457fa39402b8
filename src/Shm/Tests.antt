-- ===== src/Shm/Tests.antt =====
-- Runs of src/common/shm.c, and the theorems about it at concrete inputs.
use linbox.Prelude.{◌+◌, ◌^◌, ◌<◌, ◌≡◌, refl, arith, some, none, List, [], ◌∷◌, ◌++◌, replicate}
use native.Mathlib.Decide.{ℕ_discrete}
use linbox.Prelude.Int.{pos, negsuc}
use linbox.Shm.{Timespec, Layout, init_layout}
use linbox.Shm.Handle.{Handle, Kernel}
use linbox.Shm.Seqlock.{System, between, head, returned, Event, write, read, run}
use linbox.Shm.Seqlock.Invariant.{Among}
use linbox.Shm.Seqlock.Untorn.{Starts}
use linbox.Shm.Seqlock.Readers.{
  Crowd, Access, writes, reads, crowd_run, crowd_step, crowd_run-untorn,
}
use linbox.Shm.Seqlock.Progress.{Waits, run-spins}

abbrev memory : Layout
unfolding init_layout
memory = init_layout 99

abbrev kernel : Kernel
kernel = record {
  shm_open_fd = pos 3;
  ftruncate_rc = pos 0;
  mmap_mem = some memory;
  errno = 0;
  now = 99;
}

abbrev no_handle : Handle
no_handle = record { fd = negsuc 0; size = 0; layout = none }

abbrev handle : Handle
handle = record { fd = pos 3; size = 7280; layout = some memory }

abbrev morning : Timespec
morning = record { tv_sec = pos 100; tv_nsec = pos 5 }

abbrev evening : Timespec
evening = record { tv_sec = pos 200; tv_nsec = pos 7 }

abbrev system : System
system = record {
  seq = 6;
  time = morning;
  writer = between;
  reader = head;
  writes = 3;
  published = morning ∷ [];
}

-- The reader copies one field, a whole write comes in between, and the reader has to start again.
abbrev events : List Event
events =
    read
    ∷ read
    ∷ write evening
    ∷ write evening
    ∷ write evening
    ∷ write evening
    ∷ write evening
    ∷ read
    ∷ read
    ∷ read
    ∷ read
    ∷ read
    ∷ read
    ∷ []

events_return : (run events system).reader ≡ returned evening
unfolding run
events_return = refl

system-Starts : Starts system
system-Starts = record { at_head = refl; at_rest = refl; even = refl; current = refl }

few_writes : (run events system).writes < 3 + 2 ^ 31
unfolding run
few_writes = omega arith

abbrev crowd : Crowd
crowd = record { shared = system; readers = λ i. head }

-- The same, with another reader at work.
abbrev accesses : List Access
accesses =
    reads 1
    ∷ reads 2
    ∷ reads 1
    ∷ writes evening
    ∷ writes evening
    ∷ writes evening
    ∷ writes evening
    ∷ reads 2
    ∷ writes evening
    ∷ reads 1
    ∷ reads 1
    ∷ reads 1
    ∷ reads 1
    ∷ reads 1
    ∷ reads 1
    ∷ []

few_accesses : (crowd_run accesses crowd).shared.writes < 3 + 2 ^ 31
unfolding crowd_run crowd_step ℕ_discrete
few_accesses = omega arith

accesses_return : (crowd_run accesses crowd).readers 1 ≡ returned evening
unfolding crowd_run crowd_step ℕ_discrete
accesses_return = refl

crowd_run-untorn_example : Among evening (crowd_run accesses crowd).shared.published
crowd_run-untorn_example =
    crowd_run-untorn accesses 1 crowd evening system-Starts few_accesses accesses_return

run-spins_example : Waits (run (replicate 3 (write evening) ++ replicate 5 read) system).reader
run-spins_example = run-spins 3 5 evening system refl refl (omega arith) (omega arith) tt
