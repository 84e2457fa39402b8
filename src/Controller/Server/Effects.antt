-- ===== src/Controller/Server/Effects.antt =====
-- What the handler of messages does to the manager.
use linbox.Prelude.{
  ℕ, ◌≡◌, ◌⊎◌, refl, ◌∙◌, arith, Bool, true, Option, none, some, List, [], ◌∷◌, length, take, inl,
  inr, if◌then◌else◌,
}
use linbox.Prelude.Int.{pos, negsuc}
use linbox.Sbp.{
  Message, Body, Result, ok, err, hello, ack, set_time, set_seed, register_process, other,
  deserialize_message, serialize_message, max_frame_size, sbp_version,
}
use linbox.Shm.{Layout, process_slot_count, write_time}
use linbox.Controller.TimeManager
use linbox.Controller.TimeManager.{TimeManager, tick, ◌>>=◌, both_defined}
use linbox.Controller.TimeManager.Publish.{IsPublished, set_time-IsPublished, set_seed-IsPublished}
use linbox.Controller.Slots
use linbox.Controller.Slots.{Signal, register_slots, reap_slots, reap_dead_processes}
use linbox.Controller.Slots.Table.{IsTable, IsTable-kept, register_slots-length}
use linbox.Controller.Server.{
  frame_buffer, Reply, refused, send_ack, register_client, effect, dispatch, handle_client_message,
}

-- The table in the memory has its 64 slots and no pid in two of them.
abbrev pub GoodTable : Option Layout → Type 0
GoodTable none = ⊥
GoodTable (some mem) = (length mem.process_slots ≡ process_slot_count) × IsTable mem.process_slots

-- Memory is mapped, readers see the manager's time and seed, and the table is in order.
abbrev pub IsReady : TimeManager → Type 0
IsReady tm = IsPublished tm × GoodTable tm.shm.layout

send_ack-manager :
    (write_ok : Bool) (flags : ℕ) (tm : TimeManager) → (send_ack write_ok flags tm).manager ≡ tm
unfolding send_ack
send_ack-manager write_ok flags tm =
    let m : Message = record { version = sbp_version; flags = flags; body = ack } in
    elim (serialize_message (some m) (some frame_buffer) max_frame_size true)
      as (λ r.
        let reply : Reply = elim r [
          | err e ↦ refused tm
          | ok (frame, out_len) ↦ record {
            rc = if write_ok then pos 0 else negsuc 0;
            manager = tm;
            sent = some (take out_len frame);
          }
        ] in
        reply.manager ≡ tm) [ err e ↦ refl | ok (frame, n) ↦ refl ]

dispatch-manager :
    (version flags : ℕ) (b : Body) (now : ℕ) (write_ok : Bool) (tm : TimeManager)
    → let reply =
        dispatch (record { version = version; flags = flags; body = b }) now write_ok tm in
      (reply.manager ≡ tm) ⊎ (reply.manager ≡ effect b now tm)
unfolding dispatch
dispatch-manager v f ack now write_ok tm = inl refl
dispatch-manager v f (other kind) now write_ok tm = inl refl
dispatch-manager v f b now write_ok tm = inr (send_ack-manager write_ok f (effect b now tm))

-- The message that was received, if it is one.
abbrev pub Reads : Option (List ℕ) → Message → Type 0
Reads none m = ⊥
Reads (some bytes) m = deserialize_message (some bytes) (length bytes) true ≡ ok m

dispatched-manager :
    (bytes : List ℕ) (r : Result Message) (now : ℕ) (write_ok : Bool) (tm : TimeManager)
    → deserialize_message (some bytes) (length bytes) true ≡ r
    → let reply : Reply = elim r [ err e ↦ refused tm | ok msg ↦ dispatch msg now write_ok tm ] in
      (reply.manager ≡ tm)
      ⊎ ((m : Message) × Reads (some bytes) m × (reply.manager ≡ effect m.body now tm))
dispatched-manager bytes (err e) now write_ok tm same = inl refl
dispatched-manager bytes (ok m) now write_ok tm same =
    elim (dispatch-manager m.version m.flags m.body now write_ok tm) [
      | inl e ↦ inl e
      | inr e ↦ inr (m, same, e)
    ]

-- The handler leaves the manager as it was, or as the request that it reads changes it.
pub handle-Reads :
    (received : Option (List ℕ)) (now : ℕ) (write_ok : Bool) (tm : TimeManager)
    → let reply = handle_client_message received now write_ok tm in
      (reply.manager ≡ tm)
      ⊎ ((m : Message) × Reads received m × (reply.manager ≡ effect m.body now tm))
unfolding handle_client_message
handle-Reads none now write_ok tm = inl refl
handle-Reads (some []) now write_ok tm = inl refl
handle-Reads (some (b ∷ bytes)) now write_ok tm =
    dispatched-manager (b ∷ bytes)
      (deserialize_message (some (b ∷ bytes)) (length (b ∷ bytes)) true) now write_ok tm refl

pub handle-manager :
    (received : Option (List ℕ)) (now : ℕ) (write_ok : Bool) (tm : TimeManager)
    → let reply = handle_client_message received now write_ok tm in
      (reply.manager ≡ tm) ⊎ ((b : Body) × (reply.manager ≡ effect b now tm))
handle-manager received now write_ok tm = elim (handle-Reads received now write_ok tm) [
  | inl e ↦ inl e
  | inr (m, reads, e) ↦ inr (m.body, e)
]

-- What is done under the guard that memory is mapped.
pub under_guard :
    (tm : TimeManager) (o : Option Layout) (f : Layout → TimeManager)
    → GoodTable o
    → ((mem : Layout) → GoodTable (some mem) → GoodTable (f mem).shm.layout)
    → let next : TimeManager = elim o [ none ↦ tm | some mem ↦ f mem ] in GoodTable next.shm.layout
under_guard tm none f h k = absurd h
under_guard tm (some mem) f h k = k mem h

pub effect-GoodTable :
    (b : Body) (now : ℕ) (tm : TimeManager)
    → GoodTable tm.shm.layout
    → GoodTable (effect b now tm).shm.layout
unfolding effect TimeManager.set_time TimeManager.set_seed register_client write_time
    Slots.register_process
effect-GoodTable (set_time s n) now tm h = under_guard tm tm.shm.layout _ h (λ mem good. good)
effect-GoodTable (set_seed seed) now tm h = under_guard tm tm.shm.layout _ h (λ mem good. good)
effect-GoodTable (register_process pid slot) now tm h =
    under_guard tm tm.shm.layout _ h (λ mem good. (
      register_slots-length pid mem.header.heartbeat_ns mem.process_slots ∙ good.0,
      (IsTable-kept pid mem.header.heartbeat_ns (λ r. Signal.delivered) mem.process_slots good.1).0,
    ))
effect-GoodTable hello now tm h = h
effect-GoodTable ack now tm h = h
effect-GoodTable (other kind) now tm h = h

register_client-IsPublished :
    (tm : TimeManager) (pid : ℕ) → IsPublished tm → IsPublished (register_client tm pid)
unfolding register_client Slots.register_process
register_client-IsPublished tm pid h = ground arith

pub effect-IsPublished :
    (b : Body) (now : ℕ) (tm : TimeManager) → IsPublished tm → IsPublished (effect b now tm)
unfolding effect
effect-IsPublished (set_time s n) now tm p =
    set_time-IsPublished tm (some (record { tv_sec = s; tv_nsec = n })) now p
effect-IsPublished (set_seed seed) now tm p = (set_seed-IsPublished tm seed p).0
effect-IsPublished (register_process pid slot) now tm p = register_client-IsPublished tm pid p
effect-IsPublished hello now tm p = p
effect-IsPublished ack now tm p = p
effect-IsPublished (other kind) now tm p = p
