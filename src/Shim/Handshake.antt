-- ===== src/Shim/Handshake.antt =====
-- What a process sends to the controller when it starts and when it is forked, and that the two agree.
use linbox.Prelude.{
  ℕ, ◌+◌, ◌^◌, ◌<◌, ◌≤◌, ◌≡◌, ◌≢◌, refl, ap, ◌∙◌, arith, true, false, some, List, [], ◌∷◌, length,
  take,
}
use linbox.Prelude.Int.{pos, ltb_ℤ}
use linbox.Sbp.{
  Message, Body, ok, hello, ack, register_process, sbp_version, max_frame_size, deserialize_message,
}
use linbox.Sbp.RoundTrip.{IsMessage, wire_payload, deserialize-serialize, deserialize_message-nil}
use linbox.Controller.TimeManager.{TimeManager}
use linbox.Controller.Server.{Reply, frame_buffer, effect, register_client, handle_client_message}
use linbox.Controller.Server.Request.{handle_client_message-effect, length-frame_buffer}
use linbox.Shim.{
  State, Boot, is_ack, is_ack_message, sendable, frame_to_send, connect_controller,
  send_register_process,
}

abbrev request : Body → Message
request body = record { version = sbp_version; flags = 0; body = body }

pub is_ack-reads :
    (bytes : List ℕ) (m : Message)
    → deserialize_message (some bytes) (length bytes) true ≡ ok m
    → m.body ≡ ack
    → is_ack (some bytes) ≡ true
unfolding is_ack
is_ack-reads [] m e a = let none_read = deserialize_message-nil in cc
is_ack-reads (b ∷ bytes) m e a = ap is_ack_message e ∙ rw a refl

-- A frame that the process sends is answered by an acknowledgement, as it expects.
sent_is_answered :
    (body : Body) (now : ℕ) (tm : TimeManager)
    → IsMessage (request body)
    → body ≢ ack
    → 8 + length (wire_payload body) ≤ max_frame_size
    → (frame : List ℕ) × (reply : List ℕ) × (frame_to_send body ≡ some frame)
      × (handle_client_message (some frame) now true tm
          ≡ record { rc = pos 0; manager = effect body now tm; sent = some reply })
      × (is_ack (some reply) ≡ true)
unfolding frame_to_send
sent_is_answered body now tm h ne room =
    let (buf, n, e, back) =
      deserialize-serialize (request body) frame_buffer max_frame_size h refl room
        (omega (arith, length-frame_buffer)) in
    let (reply, handled, acked) =
      handle_client_message-effect (request body) frame_buffer buf max_frame_size n now true tm h
        refl ne room (omega (arith, length-frame_buffer)) e in
    (take n buf, reply, ap sendable e, handled, is_ack-reads reply _ acked refl)

-- The child, with a pid of 32 bits, of a process that is connected by a descriptor that is not negative
-- sends a frame, if its write works, that makes the controller register the pid; and if the
-- controller's write works too, it takes the answer for the acknowledgement it waits for.
pub send_register_process-registers :
    (pid now : ℕ) (st : State) (tm : TimeManager)
    → st.controller_connected ≡ true
    → ltb_ℤ st.controller_fd (pos 0) ≡ false
    → pid < 2 ^ 32
    → (frame : List ℕ) × (let reply = handle_client_message (some frame) now true tm in
        (reply.manager ≡ register_client tm pid)
        × (send_register_process pid true reply.sent st ≡ (pos 0, some frame)))
unfolding send_register_process effect
send_register_process-registers pid now st tm c fd small =
    let good : IsMessage (request (register_process pid 0)) = record {
      version_fits = omega arith;
      flags_fit = omega arith;
      body_fits = (small, omega arith);
    } in
    let (frame, reply, sent, handled, acked) =
      sent_is_answered (register_process pid 0) now tm good (λ e. cc) (omega arith) in
    let received = ap (λ (r : Reply). r.sent) handled in
    let taken = ap is_ack received ∙ acked in
    (frame, (ap (λ (r : Reply). r.manager) handled, rw (c, fd, sent, taken) refl))

hello-IsMessage : IsMessage (request hello)
hello-IsMessage = record { version_fits = omega arith; flags_fit = omega arith; body_fits = tt }

-- A process that can connect and write, and reads an acknowledgement, keeps its socket.
pub connect_controller-connects :
    (boot : Boot)
    → ltb_ℤ boot.socket_fd (pos 0) ≡ false
    → boot.connects ≡ true
    → boot.writes ≡ true
    → is_ack boot.received ≡ true
    → (connect_controller boot).0 ≡ boot.socket_fd
unfolding connect_controller frame_to_send
connect_controller-connects boot fd c w a =
    let (buf, n, e, back) =
      deserialize-serialize (request hello) frame_buffer max_frame_size hello-IsMessage refl
        (omega arith) (omega (arith, length-frame_buffer)) in
    let sent : frame_to_send hello ≡ some (take n buf) = ap sendable e in
    rw (fd, c, sent, w, a) refl
