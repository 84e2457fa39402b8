-- ===== src/Lib.antt =====
-- The model of linbox: a library that gives the processes of a sandbox a virtual clock and
-- reproducible randomness (src/shim), a controller that they share (src/controller), and the
-- protocol and the shared memory between the two (src/common).
--
-- The controller keeps the time and the seed and publishes them in shared memory; the processes
-- read them there. Over a socket, a process says hello and registers itself, and clients set the
-- time and the seed. Each message is a frame of at most 65543 bytes, answered by an
-- acknowledgement.
--
-- - Prelude: the native numbers, lists with the source's out-of-range behaviour, integers, machine
--   words with their wrap-around written out, and the laws of the bitwise operations.
-- - Prng: src/shim/prng.c. `fill`, `uniform` and the others are the functions linbox_prng_fill,
--   linbox_prng_uniform and so on. The loop of `fill` has the number of bytes as its fuel, since
--   each round writes one at least; the loop of `uniform` has its fuel as an argument, since the
--   draws alone decide when it ends.
-- - Sbp: src/common/sbp.c and sbp.h. A buffer is a list of bytes, a NULL pointer is `none`, and a
--   status other than SBP_OK is `err`. Messages are a record with a sum for the union.
-- - Shm: src/common/shm.c and shm-layout.h. Shm.Handle has the mapping of the memory, with the
--   kernel's answers as arguments and the system calls as a list; Shm.Seqlock has
--   linbox_shm_write_time and linbox_shm_read_time as steps of a writer and a reader that
--   interleave in any order, each in program order, as x86-64 keeps it.
-- - Controller: src/controller. Controller.TimeManager has time-manager.c, where a signed overflow
--   is `none`; Controller.Slots has the process table of main.c, Controller.Server the handler of
--   messages and a turn of the loop, and Controller.Main the loop and a run of main as a whole.
--   What poll, read, write, kill and the clock give are arguments. The loop over the clients has
--   their number as its fuel; the main loop goes through a list of events, at whose end g_stop is
--   set. Controller.Contract says what the controller promises, without slots and layout.
-- - Shim: src/shim/linbox.c. Shim.Clock has time.c, Shim.Descriptors and Shim.Random have random.c,
--   Shim.Environment and Shim.Process have process.c, Shim.Handshake what a process says to the
--   controller, Shim.Constructor what happens when the library is loaded, and Shim.Held what a process
--   holds for its connection. The state is passed on explicitly; the shared memory is in the handle.
-- - Shim.Filter: src/shim/seccomp.c, the filter as a program with its evaluation. Shim.Syscalls has
--   syscall-raw.c, syscall-wrap.c and sigsys.c; the kernel is a parameter, with what seccomp(2)
--   says of a filtered thread as its hypothesis (IsFiltered). Shim.Syscalls.Endless bounds by a
--   depth how often a trapped call of the shim itself may come back to it.
--
-- - Shim.Lookup: src/shim/resolve.h, calls of wrappers that interleave. Shim.Process.Clone has `clone`
--   and its child as steps that interleave.
-- - Programs: programs run in the sandbox. Programs.SeccompHelper is src/shim/seccomp-helper.c, whose
--   every call goes through the filter, the handler and the wrappers; Programs.RandomPreload is
--   src/shim/random.preload.c, and Programs.ProcessPreload is src/shim/process.preload.c, where the
--   pipe between the child and the parent gives its bytes in pieces of any length.
--
-- Not modelled: that each wrapper looks its function up first, the messages on stderr, and the
-- programs that test the library from outside (src/shim/linbox.preload.c, which runs shell commands,
-- and the files *.test.c).
pub mod Prelude
pub mod Prng
pub mod Sbp
pub mod Shm
pub mod Controller
pub mod Shim
pub mod Programs
