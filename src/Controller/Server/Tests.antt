-- ===== src/Controller/Server/Tests.antt =====
-- The loop of src/controller/main.c at concrete inputs.
use linbox.Prelude.{
  ℕ, ◌+◌, ◌≡◌, refl, arith, true, some, List, [], ◌∷◌, ◌++◌, length, take, drop, replicate,
}
use linbox.Prelude.Int.{pos}
use linbox.Sbp.{Message, ok, ack, set_seed, sbp_version, serialize_message, deserialize_message}
use linbox.Sbp.RoundTrip.{IsMessage, serialize_message-wire}
use linbox.Controller.Slots.{Signal}
use linbox.Controller.TimeManager.Publish.{IsPublished}
use linbox.Controller.Contract.{ask, view_of}
use linbox.Controller.Server.Stream.{handle_client_message-stream}
use linbox.Controller.Server.Clients.{count}
use linbox.Controller.Server.{Server, refused, handle_client_message, serve}
use linbox.Controller.Server.Samples.{
  manager, manager-IsReady, hangup, quiet, server, after_turn, a_turn,
}
use linbox.Controller.Server.Rounds.{serve-fuel, serve-hangup}
use linbox.Controller.Server.Request.{handle_client_message-answers}
use linbox.Controller.Server.Invariant.{IsSound, turn-IsSound}

serve-hangup_example :
    (t : Server) × (serve hangup 3 0 server ≡ some t)
    × (t.clients ≡ take 0 server.clients)
    × (t.manager ≡ manager)
    × ((q : ℕ) → count q t.closed ≡ count q server.closed + count q (drop 0 server.clients))
serve-hangup_example = serve-hangup hangup 3 0 server refl (omega arith)

serve-fuel_example :
    (t : Server) × (serve hangup 9 0 server ≡ some t) × (serve hangup 3 0 server ≡ some t)
serve-fuel_example = serve-fuel hangup 9 3 0 server (omega arith) (omega arith)

abbrev request : Message
request = record { version = sbp_version; flags = 3; body = set_seed 77 }

abbrev buffer : List ℕ
buffer = replicate 16 0

request-IsMessage : IsMessage request
request-IsMessage = record {
  version_fits = omega arith;
  flags_fit = omega arith;
  body_fits = omega arith;
}

abbrev request_frame : List ℕ
request_frame = 1 ∷ 4 ∷ 3 ∷ 0 ∷ 8 ∷ 0 ∷ 0 ∷ 0 ∷ 77 ∷ 0 ∷ 0 ∷ 0 ∷ 0 ∷ 0 ∷ 0 ∷ 0 ∷ []

request_written : serialize_message (some request) (some buffer) 16 true ≡ ok (request_frame, 16)
request_written =
    serialize_message-wire request buffer 16 request-IsMessage (omega arith) (omega arith)

handle_client_message-answers_example :
    let reply = handle_client_message (some (take 16 request_frame)) 10 true manager in
    (view_of reply.manager.shm.layout ≡ ask (set_seed 77) (view_of manager.shm.layout))
    × IsPublished reply.manager
    × (reply.rc ≡ pos 0)
    × ((frame : List ℕ) × (reply.sent ≡ some frame)
        × (deserialize_message (some frame) (length frame) true
            ≡ ok (record { version = sbp_version; flags = 3; body = ack })))
handle_client_message-answers_example =
    handle_client_message-answers request buffer request_frame 16 16 10 true manager
      request-IsMessage refl (λ e. cc) (omega arith) (omega arith) request_written manager-IsReady.0

-- The header comes without the payload, and another time with the next frame behind it.
handle_client_message-stream_example :
    (handle_client_message (some (take 8 request_frame)) 10 true manager ≡ refused manager)
    × (handle_client_message (some (take 16 request_frame ++ request_frame)) 10 true manager
        ≡ refused manager)
handle_client_message-stream_example =
    handle_client_message-stream request buffer request_frame 16 16 10 true manager
      request-IsMessage (omega arith) (omega arith) request_written (take 8 request_frame)
      (drop 8 request_frame) request_frame refl (λ e. cc) (λ e. cc)

turn-IsSound_example : IsSound after_turn
turn-IsSound_example =
    turn-IsSound quiet (some 7) (λ pid. Signal.no_process)
      (record { tv_sec = pos 51; tv_nsec = pos 0 }) (record { tv_sec = pos 50; tv_nsec = pos 0 })
      server after_turn (record { tv_sec = pos 51; tv_nsec = pos 0 }) (omega arith, manager-IsReady)
      a_turn
