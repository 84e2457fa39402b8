-- ===== src/Shim.antt =====
-- src/shim/linbox.c: the state of the library in a sandboxed process. Of `linbox_state_t`, the
-- fields that nothing reads are left out, and `resolving`, which is set only during a `dlsym`.
pub mod Seeds
pub mod Clock
pub mod Filter
pub mod Syscalls
pub mod Random
pub mod Process
pub mod Constructor
pub mod Held
pub mod Descriptors
pub mod Lookup
pub mod Environment
pub mod Handshake
pub mod Samples
mod Tests
use linbox.Prelude.{
  ℕ, zero, suc, ◌+◌, ◌*◌, ◌^◌, ◌<◌, ◌≡◌, Bool, true, false, not, ◌&&◌, ◌||◌, Option, none, some,
  List, [], ◌∷◌, ◌++◌, ◌==◌, if◌then◌else◌, length, take,
}
use linbox.Prelude.Int.{ℤ, pos, negsuc, ltb_ℤ}
use linbox.Prelude.Words.{u32}
use linbox.Prng.{Prng, seeded, derive_process_seed, fill, uniform}
use linbox.Sbp.{
  Message, Body, Result, ok, err, hello, ack, register_process, sbp_version, max_frame_size,
  serialize_message, deserialize_message,
}
use linbox.Shm.{Timespec, Layout}
use linbox.Shm.Handle.{Handle, Kernel, attach, detach, is_zero}
use linbox.Controller.Server.{frame_buffer}

-- `linbox_state_t`. The handle's layout is the shared memory as the controller left it last.
pub record State : Type 0 where
  pub initialized : Bool
  pub controller_connected : Bool
  pub controller_fd : ℤ
  pub resolution : Timespec
  pub shared_seed : ℕ  -- uint64_t
  pub effective_seed : ℕ  -- uint64_t
  pub prng : Prng
  pub shm : Handle

abbrev pub no_handle : Handle
no_handle = record { fd = negsuc 0; size = 0; layout = none }

-- `g_linbox_state` at the start of the process
abbrev pub initial_state : State
initial_state = record {
  initialized = false;
  controller_connected = false;
  controller_fd = negsuc 0;
  resolution = record { tv_sec = pos 0; tv_nsec = pos 1000 };
  shared_seed = 0;
  effective_seed = 0;
  prng = record { state = 0 };
  shm = no_handle;
}

-- What the system answers during `linbox_init_state`: the descriptor of `socket`, or a negative
-- number; whether `connect` works and `write` takes the whole frame; what `read` gives, `none` for
-- an error; the answers to the mapping of the shared memory; and the process's id.
pub record Boot : Type 0 where
  pub socket_fd : ℤ
  pub connects : Bool
  pub writes : Bool
  pub received : Option (List ℕ)
  pub kernel : Kernel
  pub pid : ℕ  -- of the 32 bits that `(uint32_t)getpid()` keeps

-- Whether a frame is read as a message, and that is an acknowledgement.
abbrev pub is_ack_message : Result Message → Bool
is_ack_message (err e) = false
is_ack_message (ok m) = elim m.body [ ack ↦ true | _ ↦ false ]

-- Whether what was read is an acknowledgement.
pub is_ack : Option (List ℕ) → Bool
is_ack none = false
is_ack (some []) = false
is_ack (some (b ∷ bytes)) =
    is_ack_message (deserialize_message (some (b ∷ bytes)) (length (b ∷ bytes)) true)

-- The bytes that the serializer reports; `none` if it fails.
abbrev pub sendable : Result (List ℕ × ℕ) → Option (List ℕ)
sendable (err e) = none
sendable (ok (frame, out_len)) = some (take out_len frame)

-- The frame that a message is sent as.
pub frame_to_send : Body → Option (List ℕ)
frame_to_send body =
    let message : Message = record { version = sbp_version; flags = 0; body = body } in
    sendable (serialize_message (some message) (some frame_buffer) max_frame_size true)

-- `linbox_connect_controller`: the descriptor, or -1 after closing it; and what was sent.
pub connect_controller : Boot → ℤ × Option (List ℕ)
connect_controller boot =
    if ltb_ℤ boot.socket_fd (pos 0) || not boot.connects
    then (negsuc 0, none)
    else elim (frame_to_send hello) [
      | none ↦ (negsuc 0, none)
      | some frame ↦
          (if boot.writes && is_ack boot.received then boot.socket_fd else negsuc 0, some frame)
    ]

-- The seed in the shared memory, if that may be read.
pub seed_of : Bool → Option Layout → Option ℕ
seed_of false layout = none
seed_of true none = none
seed_of true (some mem) = some mem.prng_seed

-- The part of `linbox_init_state` behind the mapping of the memory.
pub seed_state : ℕ → State → State
seed_state pid st =
    let shared : ℕ = elim (seed_of st.controller_connected st.shm.layout) [
      | none ↦ 0
      | some x ↦ x
    ] in
    let effective = derive_process_seed shared pid in
    record st {
      initialized = true;
      shared_seed = shared;
      effective_seed = effective;
      prng = seeded effective;
    }

pub init_state : Boot → State → State
init_state boot st =
    let fd = (connect_controller boot).0 in
    let mapping = attach boot.kernel true st.shm in
    if st.initialized
    then st
    else if ltb_ℤ fd (pos 0)
    then seed_state boot.pid (record st { controller_fd = fd; controller_connected = false })
    else if is_zero mapping.rc
    then seed_state boot.pid
        (record st { controller_fd = fd; controller_connected = true; shm = mapping.handle })
    else seed_state boot.pid
        (record st { controller_fd = negsuc 0; controller_connected = false; shm = mapping.handle })

-- `linbox_reinit_state`, as the child does it after a fork.
pub reinit_state : Boot → State → State
reinit_state boot st = init_state boot (record st {
  controller_fd = negsuc 0;
  controller_connected = false;
  initialized = false;
  prng = record { state = 0 };
  effective_seed = 0;
  shm = no_handle;
})

-- The part of `linbox_prng_seed_value` behind `linbox_init_state()`, with the seed in the memory.
pub refresh_seed : ℕ → Option ℕ → State → ℕ × State
refresh_seed pid none st = (st.effective_seed, st)
refresh_seed pid (some shared) st =
    let effective = derive_process_seed shared pid in
    if shared == st.shared_seed
    then (st.effective_seed, st)
    else (effective, record st { shared_seed = shared; effective_seed = effective })

-- `linbox_prng_seed_value`: the seed, and the state after the call.
pub prng_seed_value : Boot → State → ℕ × State
prng_seed_value boot st0 =
    let st = init_state boot st0 in
    refresh_seed boot.pid (seed_of st.controller_connected st.shm.layout) st

pub random_reseed : ℕ → State → State
random_reseed seed st = record st { effective_seed = seed; prng = seeded seed }

-- The head of `linbox_random_fill` and of `linbox_random_uniform`: the state that they draw from.
pub ready_to_draw : Boot → State → State
ready_to_draw boot st0 =
    let (seed, st) = prng_seed_value boot st0 in
    if st.prng.state == 0 || not (st.effective_seed == seed) then random_reseed seed st else st

-- `linbox_random_fill`: the bytes, and the state after the call.
pub random_fill : Boot → State → ℕ → List ℕ × State
random_fill boot st0 len =
    let st = ready_to_draw boot st0 in
    let (bytes, prng) = fill st.prng len in (bytes, record st { prng = prng })

-- `linbox_random_uniform`, on the fuel of the generator's loop
pub random_uniform : ℕ → Boot → State → ℕ → Option (ℕ × State)
random_uniform fuel boot st0 upper_bound =
    let st = ready_to_draw boot st0 in
    elim (uniform fuel st.prng upper_bound) [
      | none ↦ none
      | some (r, prng) ↦ some (r, record st { prng = prng })
    ]

-- `linbox_send_register_process`: the return value, and what was sent. `writes` and `received` are
-- as in `Boot`.
pub send_register_process : ℕ → Bool → Option (List ℕ) → State → ℤ × Option (List ℕ)
send_register_process pid writes received st =
    if not st.controller_connected || ltb_ℤ st.controller_fd (pos 0)
    then (negsuc 0, none)
    else elim (frame_to_send (register_process pid 0)) [
      | none ↦ (negsuc 0, none)
      | some frame ↦ (if writes && is_ack received then pos 0 else negsuc 0, some frame)
    ]

-- `linbox_after_fork_in_child`: the state of the child, and the frame that registers it.
pub after_fork_in_child : Boot → Bool → Option (List ℕ) → State → State × Option (List ℕ)
after_fork_in_child boot writes received st =
    let child = reinit_state boot st in
    (child, (send_register_process boot.pid writes received child).1)
