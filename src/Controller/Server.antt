-- ===== src/Controller/Server.antt =====
-- src/controller/main.c: one message of a client, and one turn of the loop of `main`.
pub mod Request
pub mod Stream
pub mod Clients
pub mod Rounds
pub mod Turn
pub mod Held
pub mod Effects
pub mod Invariant
pub mod Samples
mod Tests
use linbox.Prelude.{
  ℕ, zero, suc, ◌+◌, ◌*◌, ◌≤◌, ◌<◌, ◌≡◌, Bool, true, false, not, ◌&&◌, Option, none, some, List, [],
  ◌∷◌, ◌++◌, ltb, ◌==◌, length, get_elem?, set, take, replicate, if◌then◌else◌,
}
use linbox.Prelude.Int.{ℤ, pos, negsuc, ◌+ℤ◌, ◌-ℤ◌, ◌*ℤ◌, ltb_ℤ}
use linbox.Sbp.{
  Message, Body, Result, ok, err, hello, ack, set_time, set_seed, register_process, other,
  sbp_version, max_frame_size, serialize_message, deserialize_message,
}
use linbox.Shm.{Timespec, Layout, ProcessSlot, process_slot_count}
use linbox.Controller.TimeManager
use linbox.Controller.TimeManager.{TimeManager, tick, int64, ◌>>=◌}
use linbox.Controller.Slots
use linbox.Controller.Slots.{Signal, reap_dead_processes}

-- A local `uint8_t frame[SBP_MAX_FRAME_SIZE]`. What it holds before the serializer writes to it
-- is never sent.
pub frame_buffer : List ℕ
frame_buffer = replicate max_frame_size 0

-- What a handler leaves: its return value, the manager, and the bytes written to the socket.
pub record Reply : Type 0 where
  pub rc : ℤ
  pub manager : TimeManager
  pub sent : Option (List ℕ)

abbrev pub refused : TimeManager → Reply
refused tm = record { rc = negsuc 0; manager = tm; sent = none }

-- `send_ack`; `write_ok` says that `write` takes the whole frame.
pub send_ack : Bool → ℕ → TimeManager → Reply
send_ack write_ok flags tm =
    let message : Message = record { version = sbp_version; flags = flags; body = ack } in
    elim (serialize_message (some message) (some frame_buffer) max_frame_size true) [
      | err e ↦ refused tm
      | ok (frame, out_len) ↦ record {
        rc = if write_ok then pos 0 else negsuc 0;
        manager = tm;
        sent = some (take out_len frame);
      }
    ]

-- `register_process` on the manager: nothing if no memory is mapped.
unfoldable pub register_client : TimeManager → ℕ → TimeManager
register_client tm pid =
    let shm = tm.shm in
    elim shm.layout [
      | none ↦ tm
      | some mem ↦ record tm { shm = record shm { layout = some (Slots.register_process pid mem) } }
    ]

-- What a request does to the manager; `now` is for the write of the time.
unfoldable pub effect : Body → ℕ → TimeManager → TimeManager
unfolding register_client
effect (set_time s n) now tm =
    TimeManager.set_time tm (some (record { tv_sec = s; tv_nsec = n })) now
effect (set_seed seed) now tm = TimeManager.set_seed tm seed
effect (register_process pid slot) now tm = register_client tm pid
effect _ now tm = tm

-- The `switch` of `handle_client_message`.
pub dispatch : Message → ℕ → Bool → TimeManager → Reply
dispatch msg now write_ok tm =
    let answered = send_ack write_ok msg.flags (effect msg.body now tm) in
    elim msg.body [ ack ↦ refused tm | other kind ↦ refused tm | _ ↦ answered ]

-- `handle_client_message`; `received` is what `read` gives, `none` for an error.
pub handle_client_message : Option (List ℕ) → ℕ → Bool → TimeManager → Reply
handle_client_message none now write_ok tm = refused tm
handle_client_message (some []) now write_ok tm = refused tm
handle_client_message (some (b ∷ bytes)) now write_ok tm =
    elim (deserialize_message (some (b ∷ bytes)) (length (b ∷ bytes)) true) [
      | err e ↦ refused tm
      | ok msg ↦ dispatch msg now write_ok tm
    ]

-- The bits of `revents` that the loop looks at.
pub record Revents : Type 0 where
  pub failed : Bool  -- POLLERR or POLLHUP
  pub readable : Bool  -- POLLIN

-- What the environment answers during a turn: the `revents` fields of `pfds[1 + i]`, where those
-- that this call of `poll` did not fill hold whatever the stack held; what a read from a
-- descriptor gives; whether a write to it is taken; and `now_ns()`, one value for all calls of it in a
-- turn, since it only goes into the heartbeats.
pub record World : Type 0 where
  pub revents : ℕ → Revents
  pub received : ℕ → Option (List ℕ)
  pub write_ok : ℕ → Bool
  pub now : ℕ

-- The clients' descriptors, the manager, and the descriptors closed so far.
pub record Server : Type 0 where
  pub clients : List ℕ
  pub manager : TimeManager
  pub closed : List ℕ

pub last_of : ℕ → List ℕ → ℕ
last_of d [] = d
last_of d (x ∷ xs) = last_of x xs

abbrev pub but_last : List ℕ → List ℕ
but_last [] = []
but_last (x ∷ []) = []
but_last (x ∷ y ∷ xs) = x ∷ but_last (y ∷ xs)

-- `client_fds[i] = client_fds[client_count - 1]; client_count--;`
abbrev pub remove_client : ℕ → List ℕ → List ℕ
remove_client i clients = but_last (set clients i (last_of 0 clients))

abbrev pub drop_client : ℕ → ℕ → Server → Server
drop_client i fd s = record s {
  clients = remove_client i s.clients;
  closed = s.closed ++ (fd ∷ []);
}

abbrev pub is_ok : ℤ → Bool
is_ok (pos zero) = true
is_ok _ = false

-- The loop over the clients at index `i`, on fuel; `none` is fuel that runs out before the loop ends. A
-- round moves `i` up or takes a client away, so `client_count` rounds are enough.
pub serve : World → ℕ → ℕ → Server → Option Server
serve w zero i s = elim (get_elem? s.clients i) [ none ↦ some s | some fd ↦ none ]
serve w (suc fuel) i s = elim (get_elem? s.clients i) [
  | none ↦ some s
  | some fd ↦
      let gone = serve w fuel i (drop_client i fd s) in
      let reply = handle_client_message (w.received fd) w.now (w.write_ok fd) s.manager in
      let served = serve w fuel (i + 1) (record s { manager = reply.manager }) in
      let broken = serve w fuel i (drop_client i fd (record s { manager = reply.manager })) in
      let idle = serve w fuel (i + 1) s in
      if (w.revents i).failed
      then gone
      else if (w.revents i).readable
      then (if is_ok reply.rc then served else broken)
      else idle
]

-- The call of `accept`: `some fd` is a connection; there is room for 64 clients.
pub accept_client : Option ℕ → Server → Server
accept_client none s = s
accept_client (some fd) s =
    if ltb (length s.clients) process_slot_count
    then record s { clients = s.clients ++ (fd ∷ []) }
    else record s { closed = s.closed ++ (fd ∷ []) }

-- The nanoseconds between two readings of the monotonic clock.
pub elapsed : Timespec → Timespec → ℤ
elapsed now last_tick =
    (now.tv_sec -ℤ last_tick.tv_sec) *ℤ pos 1000000000 +ℤ (now.tv_nsec -ℤ last_tick.tv_nsec)

-- The same as it is computed, in int64_t; `none` is an overflow.
pub measured : Timespec → Timespec → Option ℤ
measured now last_tick = do
  sec ← int64 (now.tv_sec -ℤ last_tick.tv_sec)
  ns ← int64 (sec *ℤ pos 1000000000)
  rest ← int64 (now.tv_nsec -ℤ last_tick.tv_nsec)
  int64 (ns +ℤ rest)

-- `linbox_time_manager_tick` and `reap_dead_processes`; `none` is the overflow of the tick.
unfoldable pub advance_clock : (ℕ → Signal) → ℤ → ℕ → TimeManager → Option TimeManager
advance_clock probe delta now tm = do
  next ← tick tm delta now
  let shm = next.shm
  some (elim shm.layout [
    | none ↦ next
    | some mem ↦ record next { shm = record shm { layout = some (reap_dead_processes probe mem) } }
  ])

-- A turn of the loop behind `poll`: the server and `last_tick`, before and after it; `none` is an
-- overflow, of the tick or of the time between two of them.
pub turn :
    World → Option ℕ → (ℕ → Signal) → Timespec → Server × Timespec → Option (Server × Timespec)
turn w accepted probe now (s, last_tick) =
    let s1 = accept_client accepted s in
    do
      s2 ← serve w (length s1.clients) 0 s1
      delta ← measured now last_tick
      if ltb_ℤ (pos 0) delta
          then (advance_clock probe delta w.now s2.manager >>= λ tm.
              some (record s2 { manager = tm }, now))
          else some (s2, last_tick)
