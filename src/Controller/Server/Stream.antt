-- ===== src/Controller/Server/Stream.antt =====
-- Requests over the stream socket of src/controller/main.c whose bytes do not come one frame a read.
use linbox.Prelude.{
  ℕ, ◌+◌, ◌≤◌, ◌≡◌, ◌≢◌, refl, sym, ◌∙◌, arith, Bool, true, some, List, [], ◌∷◌, ◌++◌, length, take,
}
use mathlib.Core.Path.{subst}
use mathlib.Core.List.{append-nil}
use linbox.Sbp.{
  Message, Body, ok, hello, ack, set_time, set_seed, register_process, other, max_payload, kind_of,
  serialize_message,
}
use linbox.Sbp.RoundTrip.{IsMessage, wire_payload}
use linbox.Sbp.Stream.{Rejected, deserialize_message-stream}
use linbox.Controller.TimeManager.{TimeManager}
use linbox.Controller.Server.{refused, handle_client_message}
use linbox.Controller.Server.Request.{taken_frame}

small_payload : (b : Body) → length (wire_payload b) ≤ max_payload
small_payload hello = omega arith
small_payload ack = omega arith
small_payload (set_time s n) = omega arith
small_payload (set_seed seed) = omega arith
small_payload (register_process pid slot) = omega arith
small_payload (other kind) = omega arith

Rejected-refused :
    (r : List ℕ) (now : ℕ) (write_ok : Bool) (tm : TimeManager)
    → Rejected r
    → handle_client_message (some r) now write_ok tm ≡ refused tm
unfolding handle_client_message
Rejected-refused [] now write_ok tm e = refl
Rejected-refused (b ∷ bytes) now write_ok tm e = cc

-- A frame as it was serialized, in a buffer with room for it, of a message with fields in range: when
-- a read of the controller gives only the front of it, or anything behind it, such as a second
-- frame, the handler fails, so that the loop closes the client; nothing is carried out or answered.
pub handle_client_message-stream :
    (m : Message) (out buf : List ℕ) (cap n now : ℕ) (write_ok : Bool) (tm : TimeManager)
    → IsMessage m
    → 8 + length (wire_payload m.body) ≤ cap
    → cap ≤ length out
    → serialize_message (some m) (some out) cap true ≡ ok (buf, n)
    → (front back more : List ℕ) → front ++ back ≡ take n buf
    → back ≢ []
    → more ≢ []
    → (handle_client_message (some front) now write_ok tm ≡ refused tm)
      × (handle_client_message (some (take n buf ++ more)) now write_ok tm ≡ refused tm)
handle_client_message-stream m out buf cap n now write_ok tm h room fits e front back more whole cut
      joined =
    let payload = wire_payload m.body in
    let (first, longer) =
      deserialize_message-stream m.version (kind_of m.body) m.flags payload
        (small_payload m.body) in
    let frame = taken_frame m out buf cap n h room fits e ∙ append-nil _ in
    (
      Rejected-refused front now write_ok tm (first front back (whole ∙ frame) cut),
      subst (λ r. handle_client_message (some (r ++ more)) now write_ok tm ≡ refused tm) (sym frame)
          (Rejected-refused _ now write_ok tm (longer more joined)),
    )
