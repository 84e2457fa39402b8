-- ===== src/Controller/Server/Request.antt =====
-- What a client gets for what it sends, and what that does to the manager.
use linbox.Prelude.{
  ℕ, ◌+◌, ◌^◌, ◌≤◌, ◌<◌, ◌≡◌, ◌≢◌, refl, sym, ap, ◌∙◌, arith, Bool, true, some, List, [], ◌∷◌, ◌++◌,
  length, take, drop, if◌then◌else◌, take-append, length-replicate, length-append,
}
use mathlib.Core.Path.{subst}
use mathlib.Core.List.{append-nil}
use linbox.Controller.TimeManager.Publish.{IsPublished}
use linbox.Controller.Contract.{ask, view_of}
use linbox.Controller.Contract.Refinement.{effect-refines, Published-IsMapped}
use linbox.Controller.Server.Effects.{effect-IsPublished}
use linbox.Prelude.Int.{pos, negsuc}
use linbox.Sbp.{
  Message, Body, Result, ok, err, hello, ack, set_time, set_seed, register_process, other,
  sbp_version, kind_of, max_frame_size, serialize_message, deserialize_message,
}
use linbox.Sbp.Frame.{header_bytes}
use linbox.Sbp.RoundTrip.{IsMessage, IsBody, wire_payload, serialize_message-wire, deserialize-wire}
use linbox.Controller.TimeManager.{TimeManager}
use linbox.Controller.Server.{
  Reply, refused, frame_buffer, send_ack, effect, dispatch, handle_client_message,
}

abbrev ack_message : ℕ → Message
ack_message flags = record { version = sbp_version; flags = flags; body = ack }

-- The reply to a request that is carried out.
pub answered : Bool → ℕ → TimeManager → Reply
answered write_ok flags tm = record {
  rc = if write_ok then pos 0 else negsuc 0;
  manager = tm;
  sent = some (header_bytes sbp_version 2 flags 0);
}

pub length-frame_buffer : length frame_buffer ≡ max_frame_size
unfolding frame_buffer
length-frame_buffer = length-replicate {A = ℕ} max_frame_size 0

send_ack-answered :
    (write_ok : Bool) (flags : ℕ) (tm : TimeManager)
    → flags < 2 ^ 16
    → send_ack write_ok flags tm ≡ answered write_ok flags tm
unfolding send_ack answered
send_ack-answered write_ok flags tm h =
    let good : IsMessage (ack_message flags) = record {
      version_fits = omega arith;
      flags_fit = h;
      body_fits = tt;
    } in
    let sent =
      serialize_message-wire (ack_message flags) frame_buffer max_frame_size good (omega arith)
        (omega (arith, length-frame_buffer)) in
    rw (send_ack, sent) refl

-- The frame that a message is sent as.
abbrev pub frame_of : Message → List ℕ
frame_of m =
    header_bytes m.version (kind_of m.body) m.flags (length (wire_payload m.body))
    ++ wire_payload m.body
    ++ []

handle-reads :
    (b : ℕ) (bytes : List ℕ) (m : Message) (now : ℕ) (write_ok : Bool) (tm : TimeManager)
    → deserialize_message (some (b ∷ bytes)) (length (b ∷ bytes)) true ≡ ok m
    → handle_client_message (some (b ∷ bytes)) now write_ok tm ≡ dispatch m now write_ok tm
unfolding handle_client_message
handle-reads b bytes m now write_ok tm e = cc

read_frame :
    (m : Message)
    → IsMessage m
    → m.version ≡ sbp_version
    → deserialize_message (some (frame_of m)) (length (frame_of m)) true ≡ ok m
read_frame m h v =
    let n : length (frame_of m) ≡ 8 + length (wire_payload m.body) =
      omega (arith, length-append (wire_payload m.body) []) in
    ap (λ n. deserialize_message (some (frame_of m)) n true) n ∙ deserialize-wire m [] h v

-- The kinds that are answered.
carried_out :
    (b : Body) (r s : Reply)
    → IsBody b
    → b ≢ ack
    → (elim b [ ack ↦ r | other kind ↦ r | _ ↦ s ]) ≡ s
carried_out hello r s h ne = refl
carried_out ack r s h ne = absurd (ne refl)
carried_out (set_time x y) r s h ne = refl
carried_out (set_seed x) r s h ne = refl
carried_out (register_process x y) r s h ne = refl
carried_out (other kind) r s h ne = absurd h

dispatch-answered :
    (m : Message) (now : ℕ) (write_ok : Bool) (tm : TimeManager)
    → IsMessage m
    → m.body ≢ ack
    → dispatch m now write_ok tm ≡ answered write_ok m.flags (effect m.body now tm)
unfolding dispatch
dispatch-answered m now write_ok tm h ne =
    let next = effect m.body now tm in
    carried_out m.body (refused tm) (send_ack write_ok m.flags next) h.body_fits ne
    ∙ send_ack-answered write_ok m.flags next h.flags_fit

taken : Result (List ℕ × ℕ) → List ℕ
taken (ok (buf, n)) = take n buf
taken (err e) = []

-- The bytes that the serializer reports.
pub taken_frame :
    (m : Message) (out buf : List ℕ) (cap n : ℕ)
    → IsMessage m
    → 8 + length (wire_payload m.body) ≤ cap
    → cap ≤ length out
    → serialize_message (some m) (some out) cap true ≡ ok (buf, n)
    → take n buf ≡ frame_of m
unfolding taken
taken_frame m out buf cap n h room fits e =
    let w = wire_payload m.body in
    let sent = sym e ∙ serialize_message-wire m out cap h room fits in
    let front = header_bytes m.version (kind_of m.body) m.flags (length w) ++ w in
    let n : 8 + length w ≡ length front = omega arith in
    ap taken sent
    ∙ ap (λ k. take k (front ++ drop (8 + length w) out)) n
    ∙ take-append front (drop (8 + length w) out)
    ∙ sym (append-nil front)

-- A request that is not an acknowledgement is answered, and `effect` is what it does to the manager.
pub handle_client_message-effect :
    (m : Message) (out buf : List ℕ) (cap n now : ℕ) (write_ok : Bool) (tm : TimeManager)
    → IsMessage m
    → m.version ≡ sbp_version
    → m.body ≢ ack
    → 8 + length (wire_payload m.body) ≤ cap
    → cap ≤ length out
    → serialize_message (some m) (some out) cap true ≡ ok (buf, n)
    → (frame : List ℕ) × (handle_client_message (some (take n buf)) now write_ok tm ≡ record {
      rc = if write_ok then pos 0 else negsuc 0;
      manager = effect m.body now tm;
      sent = some frame;
    })
      × (deserialize_message (some frame) (length frame) true ≡ ok (ack_message m.flags))
unfolding answered
handle_client_message-effect m out buf cap n now write_ok tm h v ne room fits e =
    let next = effect m.body now tm in
    let good : IsMessage (ack_message m.flags) = record {
      version_fits = omega arith;
      flags_fit = h.flags_fit;
      body_fits = tt;
    } in
    (
      header_bytes sbp_version 2 m.flags 0,
      ap (λ b. handle_client_message (some b) now write_ok tm)
            (taken_frame m out buf cap n h room fits e)
          ∙ handle-reads _ _ m now write_ok tm (read_frame m h v)
          ∙ dispatch-answered m now write_ok tm h ne,
      read_frame (ack_message m.flags) good refl,
    )

-- A request of the protocol's version with fields in range that is not an acknowledgement, read as it
-- was serialized into a buffer with room for it, by a controller whose memory is mapped and shows its
-- time and its seed: what the processes see of the memory changes as the contract asks for that kind
-- of request, the manager's own time and seed still agree with it, and the client gets an
-- acknowledgement with the flags of the request, which it reads back as such. Only a failed write of
-- that makes the handler fail.
pub handle_client_message-answers :
    (m : Message) (out buf : List ℕ) (cap n now : ℕ) (write_ok : Bool) (tm : TimeManager)
    → IsMessage m
    → m.version ≡ sbp_version
    → m.body ≢ ack
    → 8 + length (wire_payload m.body) ≤ cap
    → cap ≤ length out
    → serialize_message (some m) (some out) cap true ≡ ok (buf, n)
    → IsPublished tm
    → let reply = handle_client_message (some (take n buf)) now write_ok tm in
      (view_of reply.manager.shm.layout ≡ ask m.body (view_of tm.shm.layout))
      × IsPublished reply.manager
      × (reply.rc ≡ (if write_ok then pos 0 else negsuc 0))
      × ((frame : List ℕ) × (reply.sent ≡ some frame)
          × (deserialize_message (some frame) (length frame) true ≡ ok (ack_message m.flags)))
handle_client_message-answers m out buf cap n now write_ok tm h v ne room fits e published =
    let (frame, handled, acked) =
      handle_client_message-effect m out buf cap n now write_ok tm h v ne room fits e in
    let manager = ap (λ (r : Reply). r.manager) handled in
    (
      ap (λ (t : TimeManager). view_of t.shm.layout) manager
          ∙ effect-refines m.body now tm (Published-IsMapped tm tm.shm.layout published),
      subst IsPublished (sym manager) (effect-IsPublished m.body now tm published),
      ap (λ (r : Reply). r.rc) handled,
      (frame, ap (λ (r : Reply). r.sent) handled, acked),
    )
