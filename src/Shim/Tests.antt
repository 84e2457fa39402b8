-- ===== src/Shim/Tests.antt =====
-- The library of src/shim at concrete inputs.
use linbox.Prelude.{
  ◌⊎◌, ℕ, replicate, take, length, ◌+◌, ◌*◌, ◌/◌, ◌^◌, ◌≡◌, ◌≢◌, ap, refl, arith, Bool, true, false,
  some, none, List, [], ◌∷◌, ltb, if◌then◌else◌,
}
use linbox.Prelude.Int.{ℤ, pos, negsuc, ltb_ℤ}
use linbox.Prng.{seeded, derive_process_seed, fill}
use linbox.Shm.Handle.{attach}
use linbox.Controller.Server.{register_client, handle_client_message}
use linbox.Sbp.{ok, set_time, serialize_message, Message, ack}
use linbox.Sbp.RoundTrip.{IsMessage, serialize_message-wire, deserialize-wire}
use linbox.Shim.{
  is_ack, State, Boot, initial_state, connect_controller, send_register_process, random_fill,
  reinit_state,
}
use linbox.Shim.Samples.{memory, manager, kernel, boot, running}
use linbox.Shim.Held.{IsHolding, after_forks, after_forks-held}
use linbox.Shim.Seeds.{random_fill-keeps_generator, random_fill-first}
use linbox.Shim.Seeds.Distinct.{loaded, forked, random_fill-distinct}
use linbox.Shim.Handshake.{
  is_ack-reads, connect_controller-connects, send_register_process-registers,
}
use linbox.Shim.Clock.Request.{set_time-told}
use linbox.Shim.Clock.{
  told, is_known_clock, clock_gettime, told, is_known_clock, clock_gettime, clock_of,
}
use linbox.Shim.Clock.Agreement.{clock_of-range}
use linbox.Shim.Descriptors.{
  VirtualFd, InPlace, unused-InPlace, allocate_virtual_fd, allocate_from, is_virtual_fd,
}
use linbox.Shim.Descriptors.Files.{
  is_random_path-dev_random, FileState, FileReply, answered, dev_random, emfile, all_used,
  open_file, openat_file, Numbered, Serves, close_fd-open_file,
}
use linbox.Shim.Environment.{Binding}

random_fill-keeps_generator_example :
    (random_fill boot running 9).0 ≡ (fill (record { state = 12345 }) 9).0
random_fill-keeps_generator_example =
    random_fill-keeps_generator boot running 9 refl (λ e. omega (arith, e))

abbrev ack_message : Message
ack_message = record { version = 1; flags = 0; body = ack }

ack_received : is_ack boot.received ≡ true
ack_received =
    let good : IsMessage ack_message = record {
      version_fits = omega arith;
      flags_fit = omega arith;
      body_fits = tt;
    } in
    is_ack-reads (1 ∷ 2 ∷ 0 ∷ 0 ∷ 0 ∷ 0 ∷ 0 ∷ 0 ∷ []) ack_message
      (deserialize-wire ack_message [] good refl) refl

connected : ltb_ℤ (connect_controller boot).0 (pos 0) ≡ false
connected =
    ap (λ (fd : ℤ). ltb_ℤ fd (pos 0)) (connect_controller-connects boot refl refl refl ack_received)

sibling_connected : ltb_ℤ (connect_controller (record boot { pid = 78 })).0 (pos 0) ≡ false
sibling_connected =
    ap (λ (fd : ℤ). ltb_ℤ fd (pos 0))
      (connect_controller-connects (record boot { pid = 78 }) refl refl refl ack_received)

attached :
    ((attach kernel true initial_state.shm).rc ≡ pos 0)
    × ((attach kernel true initial_state.shm).handle.layout ≡ some memory)
unfolding attach
attached = (refl, refl)

random_fill-first_example :
    (random_fill boot initial_state 9).0 ≡ (fill (seeded (derive_process_seed 42 77)) 9).0
random_fill-first_example = random_fill-first boot memory 9 connected attached.0 attached.1

abbrev sibling : Boot
sibling = record boot { pid = 78 }

-- A child of a process that has run.
random_fill-distinct_example :
    (random_fill boot initial_state 9).0 ≢ (random_fill sibling (reinit_state sibling running) 9).0
random_fill-distinct_example =
    random_fill-distinct boot sibling memory memory initial_state (reinit_state sibling running) 9
      (record { connected = connected; attached = attached.0; mapped = attached.1 })
      (record { connected = sibling_connected; attached = attached.0; mapped = attached.1 }) loaded
      (forked running) refl (omega arith) (omega arith) (omega arith) (λ e. omega (arith, e))
      (omega arith)

send_register_process-registers_example :
    (frame : List ℕ) × (let reply = handle_client_message (some frame) 10 true manager in
      (reply.manager ≡ register_client manager 77)
      × (send_register_process 77 true reply.sent running ≡ (pos 0, some frame)))
send_register_process-registers_example =
    send_register_process-registers 77 10 running manager refl refl (omega arith)

known : is_known_clock 7 ≡ true
unfolding is_known_clock
known = refl

clock_of-range_example :
    let usec : ℕ = 1735689600 * 1000000 + 0 / 1000 in
    clock_of (record { tv_sec = pos 1735689600; tv_nsec = pos 0 })
    ≡ (if ltb (usec * 1000000) (2 ^ 63) then some (pos usec) else none)
clock_of-range_example = clock_of-range 1735689600 0 (omega arith)

abbrev table : List VirtualFd
table =
    record { fd = pos 1000000; used = true } ∷ replicate 15 (record { fd = pos 0; used = false })

table-InPlace : InPlace 0 table
table-InPlace = (λ e. refl, unused-InPlace 15 1)

table_length : length table ≡ 16
table_length = refl

second_free : (allocate_virtual_fd table).0 ≡ some (pos 1000001)
unfolding allocate_from
second_free = refl

abbrev files : FileState
files = record { shim = running; table = table }

close_fd-open_file_example :
    (a : FileReply) × (open_file (some dev_random) (pos 0) files ≡ answered a)
    × (openat_file (negsuc 99) (some dev_random) (pos 0) files ≡ answered a)
    × (((all_used table ≡ false)
          × (a.errno ≡ none)
          × Numbered 16 a.rc
          × (is_virtual_fd a.rc table ≡ false)
          × (length a.after.table ≡ 16)
          × Serves boot 9 files a)
        ⊎ ((all_used table ≡ true)
            × (a.rc ≡ negsuc 0)
            × (a.errno ≡ some emfile)
            × (a.after ≡ files)))
close_fd-open_file_example =
    close_fd-open_file boot (some dev_random) (negsuc 99) (pos 0) 9 files table_length table-InPlace
      is_random_path-dev_random

-- Variables `A` and `BC`; the environment binds `BC` and `AB`.
abbrev needed : List Binding
needed =
    record { name = 65 ∷ []; value = some (49 ∷ []) }
    ∷ record { name = 66 ∷ 67 ∷ []; value = some (50 ∷ []) }
    ∷ []

abbrev environment : List (List ℕ)
environment = (66 ∷ 67 ∷ 61 ∷ 51 ∷ []) ∷ (65 ∷ 66 ∷ 61 ∷ []) ∷ []

abbrev plenty : ℕ → Bool
plenty k = true

-- A request for the time 7 s and 8 ns.
abbrev clock_message : Message
clock_message = record { version = 1; flags = 0; body = set_time (pos 7) (pos 8) }

clock-IsMessage : IsMessage clock_message
clock-IsMessage = record {
  version_fits = omega arith;
  flags_fit = omega arith;
  body_fits = (omega arith, omega arith);
}

abbrev clock_frame : List ℕ
clock_frame = 1 ∷ 3 ∷ 0 ∷ 0 ∷ 12 ∷ 0 ∷ 0 ∷ 0 ∷ 7 ∷ 0 ∷ 0 ∷ 0 ∷ 0 ∷ 0 ∷ 0 ∷ 0 ∷ 8 ∷ 0 ∷ 0 ∷ 0 ∷ []

clock_written :
    serialize_message (some clock_message) (some (replicate 20 0)) 20 true ≡ ok (clock_frame, 20)
clock_written =
    serialize_message-wire clock_message (replicate 20 0) 20 clock-IsMessage (omega arith)
      (omega arith)

-- The process, once the request is handled.
abbrev informed : State
informed = record running {
  shm = (handle_client_message (some (take 20 clock_frame)) 10 true manager).manager.shm;
}

set_time-told_example :
    clock_gettime boot none 7 informed
    ≡ (told (record { tv_sec = pos 7; tv_nsec = pos 8 }), informed)
set_time-told_example =
    set_time-told clock_message (pos 7) (pos 8) (replicate 20 0) clock_frame 20 20 10 true manager
      boot none 7 informed clock-IsMessage refl refl (omega arith) (omega arith) clock_written
      (refl, refl, refl) refl refl refl known

after_forks-held_example :
    let (st, b) = after_forks (pos 3) boot (boot ∷ boot ∷ []) in IsHolding (pos 3) st b
after_forks-held_example = after_forks-held (pos 3) (boot ∷ boot ∷ []) boot
